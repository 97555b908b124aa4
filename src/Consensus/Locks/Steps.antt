-- ===== src/Consensus/Locks/Steps.antt =====
-- consensus.go: the locked and the committed block over the handlers and the entry points.
use coded_hotterstuff.Store.Laws.{>>=-eq-some}
use coded_hotterstuff.Consensus.Evolves.Frame.{After-persist}
use coded_hotterstuff.Prelude.{none, ◌∙◌, refl, inl, some, ℕ, List, Option}
use coded_hotterstuff.Exec.Moves.{moves_rules, After-trans, After, Moves}
use coded_hotterstuff.Consensus.State.{persist, Consensus}
use coded_hotterstuff.Consensus.Handlers.{
  certify_timeout, new_view_from, certify, on_vote, send_vote, on_new_view,
}
use coded_hotterstuff.Consensus.Chain.{update, persist_proposal}
use coded_hotterstuff.Store.{save_certificate, header_hash, save_header, save_block}
use coded_hotterstuff.Env.{IsMap, Env}
use coded_hotterstuff.Types.{Data, Certificate, Header, vote, Vote, NewView}
use coded_hotterstuff.Consensus.Locks.{
  Scope, Follows, Follows-order, IsCertified, as_before, then_saved,
}
use coded_hotterstuff.Consensus.Locks.Still.{
  save_voted-Still, wait_for_data-Still, save_certificate-SameHeaders, save_data-SameHeaders,
  save_certificate-Still, send_msg-Still, sync_view-Still, save_data-Still, update_prepare-Still,
  next_round-Still, Still, still_rules,
}
use coded_hotterstuff.Consensus.Locks.Update.{follows, update-Follows}
use coded_hotterstuff.Consensus.Round.{Self}

module _ (env : Env) (map : IsMap env) where
  pub send_vote-Still :
      (self : Self env) (h : Header)
      → ((v : Vote) → Moves (Still env) (self (vote v)))
      → Moves (Still env) (send_vote env self h)
  unfolding send_vote
  send_vote-Still self h quiet =
      let out = λ (v : Vote) (ids : List ℕ). send_msg-Still env map self (vote v) ids (quiet v) in
      let saved = save_voted-Still env map in search (still_rules, out, saved) depth 16

  pub on_vote-Still : (self : Self env) (v : Vote) → Moves (Still env) (on_vote env self v)
  unfolding on_vote certify
  on_vote-Still self v =
      let next = next_round-Still env map self in
      let prepare = update_prepare-Still env map in
      let sync = sync_view-Still env map self in
      let save = save_certificate-Still env map in
      search (still_rules, prepare, sync, save) depth 16

  pub on_new_view-Still :
      (self : Self env) (n : NewView) → Moves (Still env) (on_new_view env self n)
  unfolding on_new_view
  on_new_view-Still self n =
      let next = next_round-Still env map self in
      let found = λ (cert : Certificate) (h : Option Header). from cert h in
      search (still_rules, found) depth 12
    where
      from :
          (cert : Certificate) (h : Option Header)
          → Moves (Still env) (new_view_from env self n cert h)
      from cert none = unfold new_view_from in search still_rules
      from cert (some h) =
          let next = next_round-Still env map self in
          let wait = wait_for_data-Still env map in
          let prepare = update_prepare-Still env map in
          let sync = sync_view-Still env map self in
          unfold new_view_from certify_timeout in search (still_rules, prepare, sync) depth 16

module _ (env : Env) (map : IsMap env) (scope : Scope) where
  save_header-Follows :
      (h : Header)
      → scope.own h
      → Moves (Follows env scope) (persist env (λ d. save_header env d h))
  save_header-Follows h own = record {
    from = λ c.
        After-persist env map (λ _ d. Follows env scope c d) (λ d. save_header env d h) c
          λ d p. record {
            grown = then_saved h (as_before λ k. refl) own p (λ k. refl);
            lock_rule = inl refl;
            commit_rule = inl refl;
          };
  }

  pub persist_proposal-Follows :
      (h : Header) (x : Option Data) (cert : Certificate)
      → scope.own h
      → Moves (Follows env scope) (persist_proposal env h x cert)
  unfolding persist_proposal
  persist_proposal-Follows h x cert own =
      let header = save_header-Follows h own in
      let payload =
        λ (y : Data). follows env scope (save_data-Still env map (header_hash env h) y) in
      let certificate = follows env scope (save_certificate-Still env map cert) in
      let order = Follows-order env scope in search (moves_rules, payload) depth 9

  pub save_block-Follows :
      (h : Header) (cert : Certificate) (x : Data)
      → scope.own h
      → Moves (Follows env scope) (persist env (λ d. save_block env d h cert x))
  unfolding save_block
  save_block-Follows h cert x own = record {
    from = λ c.
        After-persist env map (λ _ d. Follows env scope c d) _ c
          λ d p.
            let (d1, p1, q1) = >>=-eq-some (save_header env c.store h) _ p in
            let (d2, p2, q2) = >>=-eq-some (save_certificate env d1 cert) _ q1 in
            record {
              grown = then_saved h (as_before λ k. refl) own p1 λ k.
                  save_data-SameHeaders env map d2 _ x d q2 k
                  ∙ save_certificate-SameHeaders env map d1 cert d2 p2 k;
              lock_rule = inl refl;
              commit_rule = inl refl;
            };
  }

  -- From a state whose store holds the certified header.
  pub update_later :
      (c d : Consensus env) (p : Header)
      → Follows env scope c d
      → IsCertified env scope d.store p
      → After (update env p d) (λ _ e. Follows env scope c e)
  update_later c d p before certified =
      After-trans (Follows-order env scope) (update env p d) before
        (update-Follows env map scope d p certified)
