-- ===== src/Consensus/Ends/Machine.antt =====
-- consensus.go: the end of Step, Start, Tick and Send.
use coded_hotterstuff.Consensus.State.{Consensus}
use coded_hotterstuff.Prelude.Bytes.{Bytes}
use coded_hotterstuff.Consensus.Ends.Handlers.{
  on_new_view-Ends, on_sync-Ends, on_vote-Ends, on_proposal-Ends,
}
use coded_hotterstuff.Consensus.Ends.{send_msg-Ends, step_rules, next_round-Ends, IsReal}
use coded_hotterstuff.Env.{Env}
use coded_hotterstuff.Prelude.{suc, ℕ, false, List, Option}
use coded_hotterstuff.Exec.Ends.{Ends, Ends-lift}
use coded_hotterstuff.Types.{
  Proposal, Data, NewView, Vote, Message, proposal, vote, newview, sync, empty,
}
use coded_hotterstuff.Consensus.Machine.{
  dispatch, step_within, step, start, on_timeout, tick, propose, send,
}

module _ (env : Env) (real : IsReal env) where
  -- Two levels are enough for every message, one for those that a replica sends to itself.
  vote-Ends : (fuel : ℕ) (v : Vote) → Ends (step_within env (suc fuel) (vote v))
  unfolding step_within dispatch
  vote-Ends fuel v = on_vote-Ends env (step_within env fuel) v

  newview-Ends : (fuel : ℕ) (m : NewView) → Ends (step_within env (suc fuel) (newview m))
  unfolding step_within dispatch
  newview-Ends fuel m = on_new_view-Ends env (step_within env fuel) m

  step-Ends : (m : Message) → Ends (step env m)
  unfolding step step_within dispatch
  step-Ends (proposal m) = on_proposal-Ends env real (step_within env 1) (vote-Ends 0) m
  step-Ends (vote v) = vote-Ends 1 v
  step-Ends (newview m) = newview-Ends 1 m
  step-Ends (sync m) = on_sync-Ends env real m
  step-Ends empty = search step_rules

  start-Ends : Ends (start env)
  unfolding start
  start-Ends = next_round-Ends env real (step env) (λ m. step-Ends (newview m)) false

  tick-Ends : Ends (tick env)
  unfolding tick on_timeout
  tick-Ends =
      let next = next_round-Ends env real (step env) (λ m. step-Ends (newview m)) in
      search step_rules depth 10

  send-Ends : (state root : Bytes) (x : Option Data) → Ends (send env state root x)
  unfolding send propose
  send-Ends state root x =
      let sign = λ (m : Bytes). Ends-lift {S = Consensus env} (env.signer.sign m) (real.sign m) in
      let offer = λ (m : Proposal) (ids : List ℕ).
        send_msg-Ends env (step env) (proposal m) ids (step-Ends (proposal m)) in
      search (step_rules, sign, offer) depth 12

  -- Every entry point of the consensus returns, or crashes as the code does: from no state, and for
  -- no message, does the fuel that bounds the nested calls of Step run out.
  pub entry_points_end :
      ((m : Message) → Ends (step env m))
      × Ends (start env)
      × Ends (tick env)
      × ((state root : Bytes) (x : Option Data) → Ends (send env state root x))
  entry_points_end = (step-Ends, start-Ends, tick-Ends, send-Ends)
