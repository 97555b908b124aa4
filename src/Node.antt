-- ===== src/Node.antt =====
-- node.go: the event loop that drives the consensus. A channel that is nil in the loop is an
-- `Option` that is `none`, or `false` for the channel that carries no value; select chooses among
-- the others, which here an environment does.
pub mod VoteOnce
pub mod Chain
pub mod New
pub mod Calls
pub mod Own
pub mod Sends
use coded_hotterstuff.Prelude.{
  ◌≡◌, ℕ, Bool, true, false, not, ◌&&◌, if◌then◌else◌, List, [], ◌∷◌, ◌++◌, Option, none, some,
}
use coded_hotterstuff.Prelude.Bytes.{Bytes}
use coded_hotterstuff.Exec.{Outcome, ok, crash}
use coded_hotterstuff.Types.{Message, Data}
use coded_hotterstuff.Env.{Env}
use coded_hotterstuff.Progress.{MsgTo, BlockEvent, BlockRef, Progress, null, reset}
use coded_hotterstuff.Consensus.State.{Consensus}
use coded_hotterstuff.Consensus.Machine.{new_consensus, step, start, tick, send}

-- The cases of the select, without the one that ends the loop.
pub data Event : Type 0 where
  started : Event
  received : Message → Event
  proposed : Bytes → Bytes → Option Data → Event
  ticked : Event
  took_waiting took_missing took_messages took_blocks : Event

module _ (env : Env) where
  -- `delivered` is what has gone out on `deliver`, which the loop itself does not keep.
  pub record Node : Type 0 where
    pub consensus : Consensus env
    pub is_started : Bool
    pub to_send : Option (List MsgTo)
    pub to_update : Option (List BlockEvent)
    pub to_sync : Option (List BlockRef)
    pub waiting : Bool
    pub delivered : List MsgTo

-- `if len(xs) > 0 { channel = ... }`
abbrev pub if_any {ℓ} : {A : Type ℓ} → List A → Option (List A)
if_any [] = none
if_any (x ∷ xs) = some (x ∷ xs)

abbrev pub is_none {ℓ} : {A : Type ℓ} → Option A → Bool
is_none none = true
is_none (some a) = false

module _ (env : Env) where
  unfoldable pub enter_loop : Consensus env → List MsgTo → Node env
  enter_loop c delivered = record {
    consensus = c;
    is_started = false;
    to_send = none;
    to_update = none;
    to_sync = none;
    waiting = false;
    delivered = delivered;
  }

  -- All earlier progress was consumed.
  unfoldable pub is_idle : Node env → Bool
  is_idle n = is_none n.to_sync && not n.waiting && is_none n.to_update && is_none n.to_send

  unfoldable pub take_progress : Node env → Node env
  unfolding reset
  take_progress n =
      let p = n.consensus.progress in
      record n {
        to_send = if_any p.messages;
        to_update = if_any p.events;
        waiting = p.waiting_data;
        to_sync = if_any p.not_found;
        consensus = record n.consensus { progress = reset p };
      }

  -- The test at the head of the loop.
  unfoldable pub poll : Node env → Node env
  poll n = if is_idle n then take_progress n else n

  -- What an event leaves of the consensus.
  abbrev pub after : Node env → Outcome (Unit {0} × Consensus env) → Outcome (Node env)
  after n (ok (_, c)) = ok (record n { consensus = c })
  after n (crash r) = crash r

  -- One case of the select; `none` if its channel is nil.
  unfoldable pub handle : Event → Node env → Option (Outcome (Node env))
  handle started n =
      if n.is_started
      then none
      else some (after (record n { is_started = true }) (start env n.consensus))
  handle (received m) n = some (after n (step env m n.consensus))
  handle (proposed state root payload) n = some (after n (send env state root payload n.consensus))
  handle ticked n = some (after n (tick env n.consensus))
  handle took_waiting n = if n.waiting then some (ok (record n { waiting = false })) else none
  handle took_missing n = elim n.to_sync [
    | none ↦ none
    | some refs ↦ some (ok (record n { to_sync = none }))
  ]
  handle took_messages n = elim n.to_send [
    | none ↦ none
    | some ms ↦ some (ok (record n { to_send = none; delivered = n.delivered ++ ms }))
  ]
  handle took_blocks n = elim n.to_update [
    | none ↦ none
    | some events ↦ some (ok (record n { to_update = none }))
  ]

  -- The rounds of the loop, and restarts of the process between them on the store that it left.
  pub data Reaches (n : Node env) : Node env → Type 0 where
    here : Reaches n n
    round :
        {m k : Node env} (e : Event) → Reaches n m → handle e (poll m) ≡ some (ok k) → Reaches n k
    restart :
        {m : Node env} (c : Consensus env) (id : ℕ) (replicas : List ℕ)
        → Reaches n m
        → new_consensus env m.consensus.store id replicas ≡ ok c
        → Reaches n (enter_loop c m.delivered)
