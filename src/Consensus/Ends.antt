-- ===== src/Consensus/Ends.antt =====
-- consensus.go: the calls of Step that sendMsg makes, and their end; sending and entering a round.
pub mod Handlers
pub mod Machine
use coded_hotterstuff.Prelude.{
  ℕ, zero, suc, ◌≡◌, ◌≢◌, refl, Bool, true, false, if◌then◌else◌, not, List, [], ◌∷◌, Option, none,
  some, arith,
}
use coded_hotterstuff.Prelude.Bytes.{Bytes, bytes_eq}
use coded_hotterstuff.Exec.{
  Reason, panic, out_of_fuel, Outcome, ok, crash, gets, modify, lift, or_crash, pure, ◌>>=◌, ◌>>◌,
}
use coded_hotterstuff.Exec.Ends.{Ends, Ends-lift, Ends-pure, Ends-if, ends_rules}
use coded_hotterstuff.Types.{
  Header, Certificate, Data, TimeoutCertificate, Block, Proposal, NewView, Vote, Sync, Message,
  proposal, newview, vote, sync, empty,
}
use coded_hotterstuff.Env.{Env}
use coded_hotterstuff.Utils.Votes.{Votes, collect_vote}
use coded_hotterstuff.Utils.Timeouts.{Timeouts, collect_timeout, start_timeouts, reset_timeouts}
use coded_hotterstuff.Consensus.State.{
  Consensus, M, when, persist, with_votes, with_timeouts, get_leader, leader_of,
}
use coded_hotterstuff.Consensus.Round.{
  Self, deliver, send_msg, reset_timeout, send_new_view, restart_timeouts, collect_timeouts,
  wait_for_data, lead_if_leader, enter_round, act, next_round,
}

-- No implementation of the two interfaces knows of the model's fuel.
pub record IsReal (env : Env) : Type 0 where
  pub sign : (m : Bytes) → env.signer.sign m ≢ crash out_of_fuel
  pub verify_aggregated :
      (m : Bytes) (s : _) → env.verifier.verify_aggregated m s ≢ crash out_of_fuel

leader_of-ends : (ids : List ℕ) (v : ℕ) → leader_of ids v ≢ crash out_of_fuel
unfolding leader_of
leader_of-ends ids v = ground arith

module _ (env : Env) where
  pub persist-Ends : (f : env.Db → Option env.Db) → Ends (persist env f)
  unfolding persist
  persist-Ends f = record { ends = λ c p. ground arith }

  pub get_leader-Ends : (view : ℕ) → Ends (get_leader env view)
  unfolding get_leader
  get_leader-Ends view = record {
    ends = λ c. (Ends-lift (leader_of c.replicas view) (leader_of-ends c.replicas view)).ends c;
  }

  restart_timeouts-Ends : (view : ℕ) → Ends (restart_timeouts env view)
  unfolding restart_timeouts start_timeouts
  restart_timeouts-Ends view = record { ends = λ c p. ground arith }

pub ruleset step_rules = (ends_rules, persist-Ends, get_leader-Ends)

module _ (env : Env) where
  pub wait_for_data-Ends : Ends (wait_for_data env)
  unfolding wait_for_data
  wait_for_data-Ends = search step_rules

  reset_timeout-Ends : Ends (reset_timeout env)
  unfolding reset_timeout
  reset_timeout-Ends = search step_rules

  collect_timeouts-Ends : (view : ℕ) → Ends (collect_timeouts env view)
  unfolding collect_timeouts
  collect_timeouts-Ends view =
      let restart = restart_timeouts-Ends env view in search step_rules depth 8

  lead_if_leader-Ends : (view : ℕ) → Ends (lead_if_leader env view)
  unfolding lead_if_leader
  lead_if_leader-Ends view = let wait = wait_for_data-Ends in search step_rules

  enter_round-Ends : Ends (enter_round env)
  unfolding enter_round
  enter_round-Ends =
      let reset = reset_timeout-Ends in search (step_rules, collect_timeouts-Ends) depth 8

module _ (env : Env) (self : Self env) where
  deliver-Ends : (m : Message) (ids : List ℕ) → Ends (self m) → Ends (deliver env self m ids)
  unfolding deliver
  deliver-Ends m [] h = search step_rules
  deliver-Ends m (to ∷ ids) h = let later = deliver-Ends m ids h in search step_rules

  pub send_msg-Ends : (m : Message) (ids : List ℕ) → Ends (self m) → Ends (send_msg env self m ids)
  unfolding send_msg
  send_msg-Ends m ids h = let later = deliver-Ends m ids h in search step_rules

  -- A round that did not time out sends nothing: `self` may be anything.
  act-false-Ends : Ends (act env self false)
  unfolding act
  act-false-Ends = search (step_rules, lead_if_leader-Ends) depth 8

  pub next_round-false-Ends : Ends (next_round env self false)
  unfolding next_round
  next_round-false-Ends =
      let enter = enter_round-Ends env in let tail = act-false-Ends in search step_rules

module _ (env : Env) (real : IsReal env) (self : Self env)
    (reports : (m : NewView) → Ends (self (newview m))) where
  send_new_view-Ends : Ends (send_new_view env self)
  unfolding send_new_view
  send_new_view-Ends =
      let sign = λ (m : Bytes). Ends-lift {S = Consensus env} (env.signer.sign m) (real.sign m) in
      let report =
        λ (m : NewView) (ids : List ℕ). send_msg-Ends env self (newview m) ids (reports m) in
      search (step_rules, sign, report) depth 10

  act-Ends : (timedout : Bool) → Ends (act env self timedout)
  unfolding act
  act-Ends timedout =
      let all = send_new_view-Ends in search (step_rules, lead_if_leader-Ends) depth 8

  pub next_round-Ends : (timedout : Bool) → Ends (next_round env self timedout)
  unfolding next_round
  next_round-Ends timedout = let enter = enter_round-Ends env in search (step_rules, act-Ends)
