-- ===== src/Consensus/Machine.antt =====
-- consensus.go: newConsensus, Step and the entry points that the driver calls.
use coded_hotterstuff.Prelude.{
  ℕ, zero, suc, ◌+◌, ◌*◌, ◌/◌, true, false, ◌==◌, List, [], length, Option, none, some,
}
use coded_hotterstuff.Prelude.Bytes.{Bytes}
use coded_hotterstuff.Exec.{
  Outcome, ok, crash, fatal, out_of_fuel, pure, fail, gets, modify, lift, ◌>>=◌, ◌>>◌,
}
use coded_hotterstuff.Types.{Header, Data, Message, proposal, newview, vote, sync, empty}
use coded_hotterstuff.Env.{Env}
use coded_hotterstuff.Store.{
  header_hash, save_view, get_view, get_voted, get_tag_header, get_tag_cert, prepare_tag,
  locked_tag, decide_tag,
}
use coded_hotterstuff.Progress.{empty_progress}
use coded_hotterstuff.Utils.Votes.{new_votes}
use coded_hotterstuff.Utils.Timeouts.{new_timeouts}
use coded_hotterstuff.Consensus.State.{Consensus, M, when, persist, add64}
use coded_hotterstuff.Consensus.Round.{Self, send_msg, next_round}
use coded_hotterstuff.Consensus.Handlers.{on_proposal, on_vote, on_new_view, on_sync}

-- `2*len(replicas)/3+1`
unfoldable pub majority_of : List ℕ → ℕ
majority_of replicas = 2 * length replicas / 3 + 1

-- An error of the store is fatal, and so is a number that does not decode.
abbrev pub or_fatal {ℓ} : {A : Type ℓ} → Option A → Outcome A
or_fatal none = crash fatal
or_fatal (some a) = ok a

abbrev pub number_or_crash : Option (Outcome ℕ) → Outcome ℕ
number_or_crash none = crash fatal
number_or_crash (some r) = r

infixl 5 ◌then_load◌
abbrev pub ◌then_load◌ {ℓ κ} : {A : Type ℓ} {B : Type κ} → Outcome A → (A → Outcome B) → Outcome B
ok a then_load f = f a
crash r then_load f = crash r

module _ (env : Env) where
  open env use {signer, Db}

  unfoldable pub new_consensus : Db → ℕ → List ℕ → Outcome (Consensus env)
  unfolding majority_of
  new_consensus store id replicas = number_or_crash (get_view env store) then_load λ view.
      number_or_crash (get_voted env store) then_load λ voted.
      or_fatal (get_tag_header env store prepare_tag) then_load λ prepare.
      or_fatal (get_tag_header env store locked_tag) then_load λ locked.
      or_fatal (get_tag_header env store decide_tag) then_load λ commit.
      or_fatal (get_tag_cert env store prepare_tag) then_load λ prepare_cert. ok (record {
        store = store;
        ticks = 0;
        timeout = 0;
        id = id;
        replicas = replicas;
        votes = new_votes (majority_of replicas);
        timeouts = new_timeouts (majority_of replicas);
        view = view;
        voted = voted;
        prepare = prepare;
        locked = locked;
        commit = commit;
        prepare_cert = prepare_cert;
        timeout_cert = none;
        progress = empty_progress;
        waiting_data = false;
      })

  unfoldable pub dispatch : Self env → Message → M env (Unit {0})
  dispatch self (proposal m) = on_proposal env self m
  dispatch self (vote m) = on_vote env self m
  dispatch self (newview m) = on_new_view env self m
  dispatch self (sync m) = on_sync env m
  dispatch self empty = pure tt

  -- The fuel bounds how deep the calls of Step through sendMsg nest.
  unfoldable pub step_within : ℕ → Message → M env (Unit {0})
  unfolding dispatch
  step_within zero msg = fail out_of_fuel
  step_within (suc fuel) msg = dispatch (step_within fuel) msg

  -- A proposal makes the replica vote, and the vote makes it send nothing: two levels.
  unfoldable pub step : Message → M env (Unit {0})
  unfolding step_within
  step msg = step_within 2 msg

  unfoldable pub start : M env (Unit {0})
  unfolding step
  start = next_round env step false

  unfoldable pub on_timeout : M env (Unit {0})
  unfolding step
  on_timeout = do
    modify (λ c. record c { view = add64 c.view 1 })
    view ← gets (λ c. c.view)
    persist env (λ d. save_view env d view)
    next_round env step true

  unfoldable pub tick : M env (Unit {0})
  unfolding on_timeout
  tick = do
    modify (λ c. record c { ticks = add64 c.ticks 1 })
    ticks ← gets (λ c. c.ticks)
    timeout ← gets (λ c. c.timeout)
    when env (ticks == timeout) on_timeout

  -- The header that Send builds on the highest certified block.
  unfoldable pub new_header : Bytes → Bytes → Consensus env → Header
  new_header state root c = record {
    view = c.view;
    parent = header_hash env c.prepare;
    parent_view = c.prepare.view;
    data_root = root;
    state_root = state;
  }

  unfoldable pub propose : Bytes → Bytes → Option Data → M env (Unit {0})
  unfolding step new_header
  propose state root payload = do
    header ← gets (λ c. new_header state root c)
    cert ← gets (λ c. c.prepare_cert)
    tcert ← gets (λ c. c.timeout_cert)
    sig ← lift (signer.sign (header_hash env header))
    send_msg env step
        (proposal (record {
          header = some header;
          payload = payload;
          sig = sig;
          parent_cert = some cert;
          timeout = tcert;
        }))
        []

  unfoldable pub send : Bytes → Bytes → Option Data → M env (Unit {0})
  unfolding propose
  send state root payload = do
    waiting ← gets (λ c. c.waiting_data)
    when env waiting
        (do modify (λ c. record c { waiting_data = false }); propose state root payload)
