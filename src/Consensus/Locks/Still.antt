-- ===== src/Consensus/Locks/Still.antt =====
-- consensus.go: what moves neither the locked nor the committed block and stores no header.
use coded_hotterstuff.Consensus.Evolves.Frame.{After-persist}
use coded_hotterstuff.Prelude.Bytes.{Bytes}
use coded_hotterstuff.Store.{
  decide_tag, locked_tag, prepare_tag, data_key, Tag, cert_key, header_key, tag_bytes, get_header,
  save_view, save_voted, set_tag, save_data, save_certificate,
}
use coded_hotterstuff.Types.{
  newview, TimeoutCertificate, Message, NewView, Data, Header, Certificate,
}
use coded_hotterstuff.Prelude.{
  [], ◌∷◌, true, List, none, false, ap, ◌≢◌, some, refl, Option, ◌∙◌, inl, ℕ, ◌≡◌, Bool,
}
use coded_hotterstuff.Consensus.Chain.{sync_view, update_prepare, catch_up}
use coded_hotterstuff.Exec.Moves.{Moves-lift, After, Moves, moves_rules, IsPreorder}
use coded_hotterstuff.Consensus.State.{
  leader_of, with_votes, with_timeouts, persist, Consensus, get_leader,
}
use coded_hotterstuff.Utils.Votes.{Votes}
use coded_hotterstuff.Utils.Timeouts.{reset_timeouts, start_timeouts, Timeouts}
use coded_hotterstuff.Env.{IsMap, Env}
use coded_hotterstuff.Exec.{modify, ok, crash, Outcome}
use coded_hotterstuff.Consensus.Round.{
  collect_timeouts, reset_timeout, Self, lead_if_leader, wait_for_data, send_new_view, deliver,
  enter_round, send_msg, next_round, restart_timeouts, act,
}
use coded_hotterstuff.Consensus.Locks.{Scope, SameHeaders, Follows, as_before}

module _ (env : Env) where
  pub record Still (c d : Consensus env) : Type 0 where
    pub headers : SameHeaders env c.store d.store
    pub locked : d.locked ≡ c.locked
    pub commit : d.commit ≡ c.commit

  pub Still-order : IsPreorder Still
  Still-order = record {
    refl_at = λ c. record { headers = λ k. refl; locked = refl; commit = refl };
    trans_at = λ c d e p q. record {
      headers = λ k. q.headers k ∙ p.headers k;
      locked = q.locked ∙ p.locked;
      commit = q.commit ∙ p.commit;
    };
  }

  pub Still-Follows : (scope : Scope) {c d : Consensus env} → Still c d → Follows env scope c d
  Still-Follows scope p = record {
    grown = as_before p.headers;
    lock_rule = inl p.locked;
    commit_rule = inl p.commit;
  }

  -- The fields that the relation does not speak of.
  pub modify-Still :
      (f : Consensus env → Consensus env)
      → ((c : Consensus env) → (f c).store ≡ c.store)
      → ((c : Consensus env) → (f c).locked ≡ c.locked)
      → ((c : Consensus env) → (f c).commit ≡ c.commit)
      → Moves Still (modify f)
  unfolding modify
  modify-Still f store locked commit = record {
    from = λ c. record {
      headers = λ k. ap (λ d. get_header env d k) (store c);
      locked = locked c;
      commit = commit c;
    };
  }

  pub get_leader-Still : (view : ℕ) → Moves Still (get_leader env view)
  unfolding get_leader
  get_leader-Still view = record {
    from = λ c. (Moves-lift Still-order (leader_of c.replicas view)).from c;
  }

  pub restart_timeouts-Still : (view : ℕ) → Moves Still (restart_timeouts env view)
  unfolding restart_timeouts
  restart_timeouts-Still view = record {
    from = λ c. go c (start_timeouts view (reset_timeouts c.timeouts));
  }
    where
      go :
          (c : Consensus env) (o : Outcome Timeouts)
          → After
              (elim o [ ok t ↦ ok (tt, record c { timeouts = t }) | crash r ↦ crash r ])
              (λ _ d. Still c d)
      go c (ok t) = record { headers = λ k. refl; locked = refl; commit = refl }
      go c (crash r) = tt

  pub with_votes-Still : (f : Votes → Outcome (Bool × Votes)) → Moves Still (with_votes env f)
  with_votes-Still f = record { from = λ c. go c (f c.votes) }
    where
      go :
          (c : Consensus env) (o : Outcome (Bool × Votes))
          → After
              (elim o [ ok (b, v) ↦ ok (b, record c { votes = v }) | crash r ↦ crash r ])
              (λ _ d. Still c d)
      go c (ok (b, v)) = record { headers = λ k. refl; locked = refl; commit = refl }
      go c (crash r) = tt

  pub with_timeouts-Still :
      (f : Timeouts → Outcome (Bool × Timeouts)) → Moves Still (with_timeouts env f)
  with_timeouts-Still f = record { from = λ c. go c (f c.timeouts) }
    where
      go :
          (c : Consensus env) (o : Outcome (Bool × Timeouts))
          → After
              (elim o [ ok (b, t) ↦ ok (b, record c { timeouts = t }) | crash r ↦ crash r ])
              (λ _ d. Still c d)
      go c (ok (b, t)) = record { headers = λ k. refl; locked = refl; commit = refl }
      go c (crash r) = tt

-- The rules that `search` builds a proof from.
pub ruleset still_rules = (
  moves_rules, Still-order, modify-Still, get_leader-Still, restart_timeouts-Still,
  with_votes-Still, with_timeouts-Still,
)

module _ (env : Env) (map : IsMap env) where
  put-SameHeaders :
      (d : env.Db) (k v : Bytes) (e : env.Db)
      → env.db_put d k v ≡ some e
      → ((hash : Bytes) → k ≢ header_key hash)
      → SameHeaders env d e
  unfolding get_header
  put-SameHeaders d k v e p apart hash = rw (map.get-put_ne d k v e _ p (apart hash)) refl

  -- A write under a key that is no header's.
  persist-Still :
      (f : env.Db → Option env.Db)
      → ((d e : env.Db) → f d ≡ some e → SameHeaders env d e)
      → Moves (Still env) (persist env f)
  persist-Still f same = record {
    from = λ c.
        After-persist env map (λ _ d. Still env c d) f c
          λ d p. record { headers = same c.store d p; locked = refl; commit = refl };
  }

  pub set_tag-Still :
      (t : Tag) (hash : Bytes) → Moves (Still env) (persist env (λ d. set_tag env d t hash))
  unfolding set_tag tag_bytes header_key
  set_tag-Still prepare_tag hash = persist-Still _ λ d e p. put-SameHeaders d _ _ e p λ k q. cc
  set_tag-Still locked_tag hash = persist-Still _ λ d e p. put-SameHeaders d _ _ e p λ k q. cc
  set_tag-Still decide_tag hash = persist-Still _ λ d e p. put-SameHeaders d _ _ e p λ k q. cc

  pub save_view-Still : (view : ℕ) → Moves (Still env) (persist env (λ d. save_view env d view))
  unfolding save_view header_key
  save_view-Still view = persist-Still _ λ d e p. put-SameHeaders d _ _ e p λ k q. cc

  pub save_voted-Still : (view : ℕ) → Moves (Still env) (persist env (λ d. save_voted env d view))
  unfolding save_voted header_key
  save_voted-Still view = persist-Still _ λ d e p. put-SameHeaders d _ _ e p λ k q. cc

  pub save_certificate-SameHeaders :
      (d : env.Db) (cert : Certificate) (e : env.Db)
      → save_certificate env d cert ≡ some e
      → SameHeaders env d e
  unfolding save_certificate header_key cert_key
  save_certificate-SameHeaders d cert e p = put-SameHeaders d _ _ e p λ k q. cc

  pub save_data-SameHeaders :
      (d : env.Db) (hash : Bytes) (x : Data) (e : env.Db)
      → save_data env d hash x ≡ some e
      → SameHeaders env d e
  unfolding save_data header_key data_key
  save_data-SameHeaders d hash x e p = put-SameHeaders d _ _ e p λ k q. cc

  pub save_certificate-Still :
      (cert : Certificate) → Moves (Still env) (persist env (λ d. save_certificate env d cert))
  save_certificate-Still cert = persist-Still _ λ d e p. save_certificate-SameHeaders d cert e p

  pub save_data-Still :
      (hash : Bytes) (x : Data) → Moves (Still env) (persist env (λ d. save_data env d hash x))
  save_data-Still hash x = persist-Still _ λ d e p. save_data-SameHeaders d hash x e p

  ruleset write_rules = (
    still_rules, set_tag-Still, save_view-Still, save_voted-Still, save_certificate-Still,
    save_data-Still,
  )

  pub update_prepare-Still :
      (h : Header) (cert : Certificate) → Moves (Still env) (update_prepare env h cert)
  unfolding update_prepare
  update_prepare-Still h cert = search write_rules depth 9

  enter_round-Still : Moves (Still env) (enter_round env)
  unfolding enter_round reset_timeout collect_timeouts
  enter_round-Still = search write_rules depth 14

  lead_if_leader-Still : (view : ℕ) → Moves (Still env) (lead_if_leader env view)
  unfolding lead_if_leader wait_for_data
  lead_if_leader-Still view = search write_rules depth 9

  pub wait_for_data-Still : Moves (Still env) (wait_for_data env)
  unfolding wait_for_data
  wait_for_data-Still = search write_rules

  deliver-Still :
      (self : Self env) (m : Message) (ids : List ℕ)
      → Moves (Still env) (self m)
      → Moves (Still env) (deliver env self m ids)
  unfolding deliver
  deliver-Still self m [] h = search write_rules
  deliver-Still self m (id ∷ ids) h =
      let rest = deliver-Still self m ids h in search write_rules depth 9

  pub send_msg-Still :
      (self : Self env) (m : Message) (ids : List ℕ)
      → Moves (Still env) (self m)
      → Moves (Still env) (send_msg env self m ids)
  unfolding send_msg
  send_msg-Still self m ids h = let out = deliver-Still self m ids h in search write_rules depth 9

  send_new_view-Still :
      (self : Self env)
      → ((n : NewView) → Moves (Still env) (self (newview n)))
      → Moves (Still env) (send_new_view env self)
  unfolding send_new_view
  send_new_view-Still self quiet =
      let out = λ (n : NewView) (ids : List ℕ). send_msg-Still self (newview n) ids (quiet n) in
      search (write_rules, out) depth 14

  pub next_round-Still : (self : Self env) → Moves (Still env) (next_round env self false)
  unfolding next_round act
  next_round-Still self =
      let enter = enter_round-Still in search (write_rules, lead_if_leader-Still) depth 9

  pub next_round_late-Still :
      (self : Self env)
      → ((n : NewView) → Moves (Still env) (self (newview n)))
      → Moves (Still env) (next_round env self true)
  unfolding next_round act
  next_round_late-Still self quiet =
      let enter = enter_round-Still in
      let late = send_new_view-Still self quiet in
      search (write_rules, lead_if_leader-Still) depth 9

  catch_up-Still : (self : Self env) (shown : ℕ) → Moves (Still env) (catch_up env self shown)
  unfolding catch_up
  catch_up-Still self shown = let next = next_round-Still self in search write_rules depth 9

  pub sync_view-Still :
      (self : Self env) (h : Header) (t : Option TimeoutCertificate)
      → Moves (Still env) (sync_view env self h t)
  unfolding sync_view
  sync_view-Still self h none = catch_up-Still self h.view
  sync_view-Still self h (some t) = catch_up-Still self t.view
