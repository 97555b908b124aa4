-- ===== src/Examples/Witnesses.antt =====
-- The theorems about the replica and its loop at inputs that meet their hypotheses.
use coded_hotterstuff.Consensus.VoteRule.Refused.{step-Verdict, Verdict}
use coded_hotterstuff.Consensus.Rotation.{leader_of-rotates}
use coded_hotterstuff.Consensus.VoteRule.Step.{step-IsVotable}
use coded_hotterstuff.Consensus.VoteRule.Votable.{IsVotable}
use coded_hotterstuff.Consensus.Ends.Machine.{entry_points_end}
use coded_hotterstuff.Prelude.Bytes.{Bytes}
use coded_hotterstuff.Exec.{ok, out_of_fuel, crash}
use coded_hotterstuff.Consensus.Quorum.{majority_of-in_both, in_both, count}
use coded_hotterstuff.Exec.Ends.{Ends}
use coded_hotterstuff.Utils.Votes.{exists}
use coded_hotterstuff.Types.{Proposal, proposal, Data, AggregatedSignature, Message}
use coded_hotterstuff.Node.Chain.{scope_of_event, chain_rule, ChainRule}
use coded_hotterstuff.Consensus.Ends.{IsReal}
use coded_hotterstuff.Examples.Toy.{toy-IsMap}
use coded_hotterstuff.Consensus.Machine.{
  step_within, new_header, send, tick, start, step, majority_of, new_consensus,
}
use coded_hotterstuff.Node.VoteOnce.{vote_once}
use coded_hotterstuff.Consensus.Evolves.{IsDurable, vote_views, Between}
use coded_hotterstuff.Examples.Runs.{
  or_before-ok, or_before, next-handle, is_handled, play, Reaches-play, is_ok, or_genesis-ok,
  no_data, or_genesis, genesis, fresh, next, env, everything,
}
use coded_hotterstuff.Consensus.State.{add64, leader_of, Consensus}
use coded_hotterstuff.Node.{
  poll, handle, started, took_waiting, ticked, took_messages, proposed, enter_loop, Reaches, Node,
  here, restart,
}
use coded_hotterstuff.Prelude.{
  ◌⊎◌, ◌≢◌, ◌*◌, length, Option, true, ℕ, ◌≡◌, refl, ◌<◌, List, [], ◌∷◌, some, none, arith,
}

-- The replica starts, proposes a block, votes for it, certifies it by its own vote, hands out the
-- proposal and the vote, and is restarted.
abbrev ran : Node env
ran =
    play
      (started ∷ took_waiting ∷ proposed [] [] no_data ∷ ticked ∷ took_waiting ∷ took_messages ∷ [])
      fresh

abbrev reloaded : Consensus env
reloaded = or_genesis (new_consensus env ran.consensus.store 0 (0 ∷ []))

ran_loads : is_ok (new_consensus env ran.consensus.store 0 (0 ∷ [])) ≡ true
unfolding everything play
ran_loads = refl

Reaches-reloaded : Reaches env fresh (enter_loop env reloaded ran.delivered)
Reaches-reloaded =
    restart reloaded 0 (0 ∷ []) (Reaches-play _ fresh fresh here) (or_genesis-ok _ ran_loads)

genesis-IsDurable : IsDurable env genesis
unfolding everything
genesis-IsDurable = record {
  view_range = omega arith;
  voted_range = omega arith;
  view_saved = refl;
  voted_saved = refl;
}

-- The run hands out one vote, for view 1.
delivered_votes : vote_views ran.delivered ≡ 1 ∷ []
unfolding everything play vote_views
delivered_votes = refl

genesis_silent : genesis.progress.messages ≡ []
unfolding everything
genesis_silent = refl

vote_once_example :
    Between genesis.voted
      (vote_views (enter_loop env reloaded ran.delivered).delivered)
      (enter_loop env reloaded ran.delivered).consensus.voted
    × IsDurable env (enter_loop env reloaded ran.delivered).consensus
vote_once_example =
    vote_once env (toy-IsMap 0 1) genesis (enter_loop env reloaded ran.delivered) genesis-IsDurable
      genesis_silent Reaches-reloaded

-- The replica that has been started and has handed out its request for data.
abbrev asked : Node env
asked = play (started ∷ took_waiting ∷ []) fresh

asked_proposes : is_handled (handle env (proposed [] [] no_data) (poll env asked)) ≡ true
unfolding everything play
asked_proposes = refl

-- Its proposal is certified by its own vote: the prepared block moves to view 1.
proposal_prepared : (next (proposed [] [] no_data) asked).consensus.prepare.view ≡ 1
unfolding everything play
proposal_prepared = refl

chain_rule_example :
    ChainRule env
      (scope_of_event env (proposed [] [] no_data) (poll env asked).consensus)
      asked.consensus
      (next (proposed [] [] no_data) asked).consensus
chain_rule_example =
    chain_rule env (toy-IsMap 0 1) (proposed [] [] no_data) asked
      (next (proposed [] [] no_data) asked)
      (next-handle (proposed [] [] no_data) asked asked_proposes)

-- The same proposal as it arrives in a message.
abbrev offered : Proposal
offered = record {
  header = some (new_header env [] [] asked.consensus);
  payload = no_data;
  sig = 0 ∷ [];
  parent_cert = some asked.consensus.prepare_cert;
  timeout = none;
}

abbrev voter : Consensus env
voter = or_before asked.consensus (step env (proposal offered) asked.consensus)

offered_steps : is_ok (step env (proposal offered) asked.consensus) ≡ true
unfolding everything play
offered_steps = refl

-- It is voted for.
offered_voted : voter.voted ≡ 1
unfolding everything play
offered_voted = refl

step-IsVotable_example :
    (voter.voted ≡ asked.consensus.voted)
    ⊎ IsVotable env (step_within env 1) asked.consensus offered
step-IsVotable_example =
    step-IsVotable env asked.consensus voter offered
      (or_before-ok asked.consensus (step env (proposal offered) asked.consensus) offered_steps)

toy-IsReal : IsReal env
toy-IsReal = record { sign = λ m p. cc; verify_aggregated = λ m s p. toy_answer s p }
  where
    toy_answer :
        (s : Option AggregatedSignature) → env.verifier.verify_aggregated [] s ≢ crash out_of_fuel
    toy_answer none p = cc
    toy_answer (some a) p = cc

entry_points_end_example :
    ((m : Message) → Ends (step env m))
    × Ends (start env)
    × Ends (tick env)
    × ((state root : Bytes) (x : Option Data) → Ends (send env state root x))
entry_points_end_example = entry_points_end env toy-IsReal

abbrev four : List ℕ
four = 0 ∷ 1 ∷ 2 ∷ 3 ∷ []

abbrev first_three : List ℕ
first_three = 0 ∷ 1 ∷ 2 ∷ []

abbrev other_three : List ℕ
other_three = 3 ∷ 1 ∷ 0 ∷ []

majority_of-in_both_example : length four < 3 * count four (in_both first_three other_three)
unfolding majority_of exists
majority_of-in_both_example =
    majority_of-in_both four first_three other_three (refl, (refl, (refl, tt)))
      (refl, (refl, (refl, tt))) (refl, (refl, (refl, tt))) (refl, (refl, (refl, tt))) (omega arith)
      (omega arith)

-- From view 7 on, among four replicas, replica 2 has its turn.
leader_of-rotates_example : (k : ℕ) × (k < length four) × (leader_of four (add64 7 k) ≡ ok 2)
leader_of-rotates_example = leader_of-rotates four 7 2 2 (omega arith) refl

step-Verdict_example : Verdict env asked.consensus offered voter
step-Verdict_example =
    step-Verdict env asked.consensus voter offered
      (or_before-ok asked.consensus (step env (proposal offered) asked.consensus) offered_steps)
