-- ===== src/Consensus/Evolves/Rounds.antt =====
-- consensus.go, nextRound and syncView: `Evolves` for the entry into a round.
use coded_hotterstuff.Exec.Moves.{After-then}
use coded_hotterstuff.Store.{save_view}
use coded_hotterstuff.Consensus.Evolves.Voting.{set_view-Evolves, send_new_view-from}
use coded_hotterstuff.Consensus.Evolves.{Evolves-order, Evolves}
use coded_hotterstuff.Consensus.State.{add64, sub64}
use coded_hotterstuff.Utils.Votes.{reset_votes}
use coded_hotterstuff.Utils.Timeouts.{reset_timeouts}
use coded_hotterstuff.Consensus.Evolves.Blocks.{evolves_rules}
use coded_hotterstuff.Consensus.Chain.{sync_view, catch_up}
use coded_hotterstuff.Exec.{◌>>=◌, modify}
use coded_hotterstuff.Consensus.Evolves.Frame.{
  persist-then, restart_timeouts-Keeps, rest-Keeps, Keeps,
}
use coded_hotterstuff.Types.{TimeoutCertificate, Header, Message}
use coded_hotterstuff.Prelude.{
  refl, inr, arith, none, some, ltb, inl, leb, ◌&&◌, Bool-cases, Option, false, Bool, ℕ,
}
use coded_hotterstuff.Consensus.Round.{
  release, next_round, act, collect_timeouts, lead_if_leader, reset_timeout, Self, enter_round,
  wait_for_data,
}
use coded_hotterstuff.Env.{IsMap, Env}

module _ (env : Env) (map : IsMap env) where
  pub wait_for_data-Keeps : Keeps env map (wait_for_data env)
  unfolding wait_for_data
  wait_for_data-Keeps = rest-Keeps env map _ _ _ _ _ _ _ (λ c. refl)

  reset_timeout-Keeps : Keeps env map (reset_timeout env)
  unfolding reset_timeout
  reset_timeout-Keeps = rest-Keeps env map _ _ _ _ _ _ _ (λ c. refl)

  collect_timeouts-Keeps : (view : ℕ) → Keeps env map (collect_timeouts env view)
  unfolding collect_timeouts
  collect_timeouts-Keeps view =
      let reset : Keeps env map (modify (λ c. record c { timeouts = reset_timeouts c.timeouts })) =
        rest-Keeps env map _ _ _ _ _ _ _ (λ c. refl) in
      let restart = restart_timeouts-Keeps env map view in search evolves_rules depth 8

  lead_if_leader-Keeps : (view : ℕ) → Keeps env map (lead_if_leader env view)
  unfolding lead_if_leader
  lead_if_leader-Keeps view = let wait = wait_for_data-Keeps in search evolves_rules

  enter_round-Keeps : Keeps env map (enter_round env)
  unfolding enter_round
  enter_round-Keeps =
      let reset = reset_timeout-Keeps in
      let clear : Keeps env map
          (modify (λ c. record c { waiting_data = false; votes = reset_votes c.votes })) =
        rest-Keeps env map _ _ _ _ _ _ _ (λ c. refl) in
      let free : Keeps env map
          (modify (λ c. record c { timeout_cert = release c.view c.timeout_cert })) =
        rest-Keeps env map _ _ _ _ _ _ _ (λ c. refl) in
      search (evolves_rules, collect_timeouts-Keeps) depth 8

-- Handlers call `self` for the messages that the replica sends to itself.
module _ (env : Env) (map : IsMap env) (self : Self env)
    (keeps : (m : Message) → Keeps env map (self m)) where
  act-Keeps : (timedout : Bool) → Keeps env map (act env self timedout)
  unfolding act ◌>>=◌
  act-Keeps timedout = record {
    from = λ c. elim (Bool-cases (timedout && ltb c.voted (sub64 c.view 1))) [
      | inl report ↦ rw report (send_new_view-from env map self keeps c (ground arith))
      | inr lead ↦ rw lead ((lead_if_leader-Keeps env map c.view).from c)
    ];
  }

  pub next_round-Keeps : (timedout : Bool) → Keeps env map (next_round env self timedout)
  unfolding next_round
  next_round-Keeps timedout =
      let enter = enter_round-Keeps env map in let tail = act-Keeps timedout in search evolves_rules

  catch_up-Keeps : (shown : ℕ) → Keeps env map (catch_up env self shown)
  unfolding catch_up ◌>>=◌
  catch_up-Keeps shown = record {
    from = λ c. elim (Bool-cases (leb c.view shown)) [
      | inl later ↦ rw later (
          persist-then env map (λ _ d. Evolves env c d) (λ d. save_view env d (add64 shown 1))
            (record c { view = add64 shown 1 }) _
            λ d p.
              After-then (Evolves-order env) c (record c { view = add64 shown 1; store = d })
                (next_round env self false)
                (set_view-Evolves env map c (add64 shown 1) d (omega arith) p)
                (next_round-Keeps false))
      | inr stays ↦ rw stays ((Evolves-order env).refl_at c)
    ];
  }

  pub sync_view-Keeps :
      (h : Header) (t : Option TimeoutCertificate) → Keeps env map (sync_view env self h t)
  unfolding sync_view
  sync_view-Keeps h none = catch_up-Keeps h.view
  sync_view-Keeps h (some t) = catch_up-Keeps t.view
