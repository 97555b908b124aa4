-- ===== src/Consensus/Evolves/Machine.antt =====
-- consensus.go, Step, Start, Tick and Send: `Evolves` for the entry points.
use coded_hotterstuff.Consensus.Evolves.Voting.{send_proposal-Keeps, set_view-Evolves}
use coded_hotterstuff.Consensus.Round.{next_round}
use coded_hotterstuff.Store.{save_view}
use coded_hotterstuff.Consensus.Evolves.Sync.{on_sync-Keeps}
use coded_hotterstuff.Consensus.Evolves.Steps.{on_new_view-Keeps, on_vote-Keeps, on_proposal-Keeps}
use coded_hotterstuff.Consensus.Evolves.Rounds.{next_round-Keeps}
use coded_hotterstuff.Consensus.State.{add64}
use coded_hotterstuff.Consensus.Evolves.Frame.{rest-Keeps, persist-then, Keeps}
use coded_hotterstuff.Types.{empty, sync, newview, vote, proposal, Data, Message}
use coded_hotterstuff.Prelude.Bytes.{Bytes}
use coded_hotterstuff.Env.{IsMap, Env}
use coded_hotterstuff.Prelude.{ℕ, zero, suc, refl, true, false, Option, arith}
use coded_hotterstuff.Exec.{modify, ◌>>=◌}
use coded_hotterstuff.Exec.Moves.{After-then}
use coded_hotterstuff.Consensus.Evolves.{Evolves, Evolves-order}
use coded_hotterstuff.Consensus.Evolves.Blocks.{evolves_rules}
use coded_hotterstuff.Consensus.Machine.{
  dispatch, step_within, step, start, on_timeout, tick, propose, send,
}

module _ (env : Env) (map : IsMap env) where
  pub step_within-Keeps : (fuel : ℕ) (m : Message) → Keeps env map (step_within env fuel m)
  unfolding step_within dispatch
  step_within-Keeps zero m = search evolves_rules
  step_within-Keeps (suc fuel) (proposal m) =
      on_proposal-Keeps env map (step_within env fuel) (step_within-Keeps fuel) m
  step_within-Keeps (suc fuel) (vote m) =
      on_vote-Keeps env map (step_within env fuel) (step_within-Keeps fuel) m
  step_within-Keeps (suc fuel) (newview m) =
      on_new_view-Keeps env map (step_within env fuel) (step_within-Keeps fuel) m
  step_within-Keeps (suc fuel) (sync m) = on_sync-Keeps env map m
  step_within-Keeps (suc fuel) empty = search evolves_rules

  pub step-Keeps : (m : Message) → Keeps env map (step env m)
  unfolding step
  step-Keeps m = step_within-Keeps 2 m

  pub start-Keeps : Keeps env map (start env)
  unfolding start
  start-Keeps = next_round-Keeps env map (step env) step-Keeps false

  on_timeout-Keeps : Keeps env map (on_timeout env)
  unfolding on_timeout ◌>>=◌
  on_timeout-Keeps = record {
    from = λ c.
        persist-then env map (λ _ d. Evolves env c d) (λ d. save_view env d (add64 c.view 1))
          (record c { view = add64 c.view 1 }) _
          λ d p.
            After-then (Evolves-order env) c (record c { view = add64 c.view 1; store = d })
              (next_round env (step env) true)
              (set_view-Evolves env map c (add64 c.view 1) d (omega arith) p)
              (next_round-Keeps env map (step env) step-Keeps true);
  }

  pub tick-Keeps : Keeps env map (tick env)
  unfolding tick
  tick-Keeps =
      let count : Keeps env map (modify (λ c. record c { ticks = add64 c.ticks 1 })) =
        rest-Keeps env map _ _ _ _ _ _ _ (λ c. refl) in
      let out = on_timeout-Keeps in search evolves_rules depth 8

  propose-Keeps : (state root : Bytes) (x : Option Data) → Keeps env map (propose env state root x)
  unfolding propose
  propose-Keeps state root x =
      let all = send_proposal-Keeps env map (step env) step-Keeps in
      search (evolves_rules, all) depth 8

  pub send-Keeps : (state root : Bytes) (x : Option Data) → Keeps env map (send env state root x)
  unfolding send
  send-Keeps state root x =
      let taken : Keeps env map (modify (λ c. record c { waiting_data = false })) =
        rest-Keeps env map _ _ _ _ _ _ _ (λ c. refl) in
      let all = propose-Keeps state root x in search evolves_rules depth 8
