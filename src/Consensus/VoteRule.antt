-- ===== src/Consensus/VoteRule.antt =====
-- consensus.go, onProposal: the steps before the vote, and the last voted view.
pub mod Votable
pub mod Step
pub mod Refused
use coded_hotterstuff.Utils.Timeouts.{reset_timeouts, start_timeouts, Timeouts}
use coded_hotterstuff.Prelude.{
  ℕ, ◌<◌, ◌≡◌, refl, ◌∙◌, Bool, true, false, not, ◌&&◌, ltb, leb, ◌==◌, if◌then◌else◌, Bool-cases,
  inl, inr, List, [], ◌∷◌, Option, none, some, arith,
}
use coded_hotterstuff.Prelude.Bytes.{bytes_eq, bytes_eq_iff}
use coded_hotterstuff.Exec.{Reason, Outcome, ok, crash, pure, gets, modify, lift, ◌>>=◌, ◌>>◌}
use coded_hotterstuff.Exec.Moves.{
  After, Moves, IsPreorder, After-trans, After-bind, lift-then, moves_rules, Moves-lift,
}
use coded_hotterstuff.Types.{Header, Certificate, Data, TimeoutCertificate, Proposal, Message}
use coded_hotterstuff.Env.{Env}
use coded_hotterstuff.Store.{header_hash, get_header}
use coded_hotterstuff.Consensus.State.{Consensus, M, when, persist, get_leader, leader_of}
use coded_hotterstuff.Consensus.Round.{
  Self, reset_timeout, restart_timeouts, collect_timeouts, wait_for_data, lead_if_leader,
  enter_round, act, next_round,
}
use coded_hotterstuff.Consensus.Chain.{
  update_prepare, lock, commit_block, update_from, update_parent, update, catch_up, sync_view,
  safe_node, persist_proposal,
}

module _ (env : Env) where
  abbrev pub SameVoted : Consensus env → Consensus env → Type 0
  SameVoted c d = d.voted ≡ c.voted

  pub SameVoted-order : IsPreorder SameVoted
  SameVoted-order = record { refl_at = λ c. refl; trans_at = λ c d e p q. q ∙ p }

  persist-SameVoted : (f : env.Db → Option env.Db) → Moves SameVoted (persist env f)
  unfolding persist
  persist-SameVoted f = record { from = λ c. go c (f c.store) }
    where
      go :
          (c : Consensus env) (o : Option env.Db)
          → After
              (elim o [ none ↦ crash Reason.fatal | some d ↦ ok (tt, record c { store = d }) ])
              (λ _ d. SameVoted c d)
      go c none = tt
      go c (some d) = refl

  get_leader-SameVoted : (view : ℕ) → Moves SameVoted (get_leader env view)
  unfolding get_leader
  get_leader-SameVoted view = record {
    from = λ c. (Moves-lift SameVoted-order (leader_of c.replicas view)).from c;
  }

  set_later :
      (f : Consensus env → Consensus env)
      → ((c : Consensus env) → SameVoted c (f c))
      → Moves SameVoted (modify f)
  unfolding modify
  set_later f h = record { from = h }

  restart_timeouts-SameVoted : (view : ℕ) → Moves SameVoted (restart_timeouts env view)
  unfolding restart_timeouts
  restart_timeouts-SameVoted view = record {
    from = λ c. go c (start_timeouts view (reset_timeouts c.timeouts));
  }
    where
      go :
          (c : Consensus env) (o : Outcome Timeouts)
          → After
              (elim o [ ok t ↦ ok (tt, record c { timeouts = t }) | crash r ↦ crash r ])
              (λ _ d. SameVoted c d)
      go c (ok t) = refl
      go c (crash r) = tt

  pub update_prepare-SameVoted :
      (h : Header) (cert : Certificate) → Moves SameVoted (update_prepare env h cert)
  unfolding update_prepare
  update_prepare-SameVoted h cert =
      search (moves_rules, SameVoted-order, persist-SameVoted, set_later) depth 9

  lock-SameVoted : (g : Header) → Moves SameVoted (lock env g)
  unfolding lock
  lock-SameVoted g = search (moves_rules, SameVoted-order, persist-SameVoted, set_later) depth 9

  commit_block-SameVoted : (p g gg : Header) → Moves SameVoted (commit_block env p g gg)
  unfolding commit_block
  commit_block-SameVoted p g gg =
      search (moves_rules, SameVoted-order, persist-SameVoted, set_later) depth 9

  update_from-SameVoted :
      (p g : Header) (gg : Option Header) → Moves SameVoted (update_from env p g gg)
  unfolding update_from
  update_from-SameVoted p g none = search (moves_rules, SameVoted-order)
  update_from-SameVoted p g (some gg) =
      search (moves_rules, SameVoted-order, lock-SameVoted, commit_block-SameVoted)

  update_parent-SameVoted :
      (p : Header) (g : Option Header) → Moves SameVoted (update_parent env p g)
  unfolding update_parent
  update_parent-SameVoted p none = search (moves_rules, SameVoted-order)
  update_parent-SameVoted p (some g) = search (moves_rules, SameVoted-order, update_from-SameVoted)

  pub update-SameVoted : (p : Header) → Moves SameVoted (update env p)
  unfolding update
  update-SameVoted p = search (moves_rules, SameVoted-order, update_parent-SameVoted)

  pub persist_proposal-SameVoted :
      (h : Header) (x : Option Data) (cert : Certificate)
      → Moves SameVoted (persist_proposal env h x cert)
  unfolding persist_proposal
  persist_proposal-SameVoted h x cert =
      search (moves_rules, SameVoted-order, persist-SameVoted) depth 9

  collect_timeouts-SameVoted : (view : ℕ) → Moves SameVoted (collect_timeouts env view)
  unfolding collect_timeouts
  collect_timeouts-SameVoted view =
      search
        (moves_rules, SameVoted-order, get_leader-SameVoted, restart_timeouts-SameVoted, set_later)
        depth 9

  enter_round-SameVoted : Moves SameVoted (enter_round env)
  unfolding enter_round reset_timeout
  enter_round-SameVoted =
      search (moves_rules, SameVoted-order, collect_timeouts-SameVoted, set_later) depth 9

  lead_if_leader-SameVoted : (view : ℕ) → Moves SameVoted (lead_if_leader env view)
  unfolding lead_if_leader wait_for_data
  lead_if_leader-SameVoted view =
      search (moves_rules, SameVoted-order, get_leader-SameVoted, set_later) depth 9

  next_round-SameVoted : (self : Self env) → Moves SameVoted (next_round env self false)
  unfolding next_round act
  next_round-SameVoted self =
      let enter = enter_round-SameVoted in
      search (moves_rules, SameVoted-order, lead_if_leader-SameVoted) depth 9

  catch_up-SameVoted : (self : Self env) (shown : ℕ) → Moves SameVoted (catch_up env self shown)
  unfolding catch_up
  catch_up-SameVoted self shown =
      let next = next_round-SameVoted self in
      search (moves_rules, SameVoted-order, persist-SameVoted, set_later) depth 9

  pub sync_view-SameVoted :
      (self : Self env) (h : Header) (t : Option TimeoutCertificate)
      → Moves SameVoted (sync_view env self h t)
  unfolding sync_view
  sync_view-SameVoted self h none = catch_up-SameVoted self h.view
  sync_view-SameVoted self h (some t) = catch_up-SameVoted self t.view
