-- ===== src/Program/Process.antt =====
-- hotstuff-node/main.go: entryPoint, with the loop of node.go that runs beside it. The two goroutines
-- and those of the connections share channels; an interleaving of them is a sequence of actions.
pub mod Steps
pub mod Votes
pub mod Queues
pub mod Addressed
pub mod Order
pub mod Received
pub mod Stalls
use coded_hotterstuff.Prelude.{
  ℕ, zero, suc, ◌+◌, ◌≡◌, Bool, true, false, ltb, if◌then◌else◌, List, [], ◌∷◌, ◌++◌, length,
  get_elem?, Option, none, some,
}
use coded_hotterstuff.Exec.{Outcome, ok, crash, panic}
use coded_hotterstuff.Types
use coded_hotterstuff.Types.{Message, empty}
use coded_hotterstuff.Env.{Env}
use coded_hotterstuff.Progress.{MsgTo, BlockEvent, BlockRef}
use coded_hotterstuff.Node.{
  Node, Event, started, received, proposed, ticked, took_waiting, took_missing, took_messages,
  took_blocks, poll, handle,
}
use coded_hotterstuff.Program.{
  Call, step_node, send_data, send_channel, send_confirmed, dispatch_all, messages_cap,
  confirmed_cap, create_in_msgs_channel, create_array_of_channels,
}

-- One step of one goroutine.
pub data Action : Type 0 where
  -- The cases of Node.run.
  run_start run_receive run_send run_tick run_waiting run_missing run_messages run_blocks : Action
  -- The cases of entryPoint, and a blocking call that it is in.
  on_ready on_messages on_blocks on_in_msg proceed : Action
  -- listenForMessages hands a message over, sendMessages takes one.
  arrive : Message → Action
  depart : ℕ → Action

module _ (env : Env) where
  -- The channels of a node have room for one value each; `calls` is what entryPoint has to do before
  -- it comes back to its select. Nobody reads `missing` or `confirmed`. `taken` is what the
  -- connections have taken from each of the channels.
  pub record Process : Type 0 where
    pub node : Node env
    pub receive : Option Message
    pub send : Bool
    pub deliver : Option (List MsgTo)
    pub blocks : Option (List BlockEvent)
    pub missing : Option (List BlockRef)
    pub waiting_data : Bool
    pub calls : List Call
    pub in_msgs : List Message
    pub channels : List (List Message)
    pub confirmed : ℕ
    pub taken : List (List Message)

-- `if b.Finalized { confirmedChannel <- 1 }` for each block.
unfoldable pub confirm_all : List BlockEvent → List Call
confirm_all [] = []
confirm_all (b ∷ bs) =
    let rest = confirm_all bs in if b.finalized then send_confirmed ∷ rest else rest

module _ {ℓ} {A : Type ℓ} where
  -- A value behind the queue with the index.
  abbrev pub push : ℕ → A → List (List A) → List (List A)
  push i a [] = []
  push zero a (q ∷ qs) = (q ++ a ∷ []) ∷ qs
  push (suc i) a (q ∷ qs) = q ∷ push i a qs

  abbrev pub rest_of : List A → List A
  rest_of [] = []
  rest_of (a ∷ q) = q

  -- Without the first value of the queue with the index.
  abbrev pub pop : ℕ → List (List A) → List (List A)
  pop i [] = []
  pop zero (q ∷ qs) = rest_of q ∷ qs
  pop (suc i) (q ∷ qs) = q ∷ pop i qs

-- A case of entryPoint's select is taken only when nothing is left to do.
abbrev pub in_select {ℓ} : {A : Type ℓ} → List Call → Option A → Option A
in_select [] a = a
in_select (c ∷ cs) a = none

abbrev pub if_some {ℓ κ} : {A : Type ℓ} {B : Type κ} → Option A → (A → Option B) → Option B
if_some none f = none
if_some (some a) f = f a

-- A send to a channel with room for one value.
abbrev pub if_free {ℓ κ} : {A : Type ℓ} {B : Type κ} → Option A → Option B → Option B
if_free none b = b
if_free (some a) b = none

abbrev pub if_first {ℓ κ} : {A : Type ℓ} {B : Type κ} → List A → (A → List A → Option B) → Option B
if_first [] f = none
if_first (a ∷ q) f = f a q

module _ (env : Env) where
  -- entryPoint when it comes to its select: the node runs, and the first call is of Step with an
  -- empty message.
  unfoldable pub enter : Node env → Process env
  enter n = record {
    node = n;
    receive = none;
    send = false;
    deliver = none;
    blocks = none;
    missing = none;
    waiting_data = false;
    calls = step_node empty ∷ [];
    in_msgs = create_in_msgs_channel;
    channels = create_array_of_channels;
    confirmed = 0;
    taken = create_array_of_channels;
  }

  -- What a case of Node.run leaves: `none` if it is not ready.
  abbrev pub ran : Process env → Option (Outcome (Node env)) → Option (Outcome (Process env))
  ran p none = none
  ran p (some (crash r)) = some (crash r)
  ran p (some (ok n)) = some (ok (record p { node = n }))

  abbrev pub run : Event → Process env → Option (Outcome (Process env))
  run e p = ran p (handle env e (poll env p.node))

  -- The first of the blocking calls, when it can go on. A channel that is not there panics.
  unfoldable pub call_channel :
      Message → ℕ → List Call → Process env → Option (List Message) → Option (Outcome (Process env))
  call_channel m rx rest p none = some (crash panic)
  call_channel m rx rest p (some queue) =
      if ltb (length queue) messages_cap
      then some (ok (record p { calls = rest; channels = push rx m p.channels }))
      else none

  unfoldable pub call_step :
      Message → List Call → Process env → Option Message → Option (Outcome (Process env))
  call_step m rest p none = some (ok (record p { calls = rest; receive = some m }))
  call_step m rest p (some _) = none

  unfoldable pub call : List Call → Process env → Option (Outcome (Process env))
  unfolding call_channel call_step
  call [] p = none
  call (step_node m ∷ rest) p = call_step m rest p p.receive
  call (send_data ∷ rest) p =
      if p.send then none else some (ok (record p { calls = rest; send = true }))
  call (send_channel rx m ∷ rest) p = call_channel m rx rest p (get_elem? p.channels rx)
  call (send_confirmed ∷ rest) p =
      if ltb p.confirmed confirmed_cap
      then some (ok (record p { calls = rest; confirmed = suc p.confirmed }))
      else none

  -- The data that entryPoint proposes, one transaction of random bytes, and the index of the node are
  -- parameters.
  module _ (payload : Types.Data) (idx : ℕ) where
    unfoldable pub act : Action → Process env → Option (Outcome (Process env))
    unfolding call
    act run_start p = run started p
    act run_receive p = if_some p.receive λ m. run (received m) (record p { receive = none })
    act run_send p =
        if p.send then run (proposed [] [] (some payload)) (record p { send = false }) else none
    act run_tick p = run ticked p
    act run_waiting p =
        if p.waiting_data then none else run took_waiting (record p { waiting_data = true })
    act run_missing p =
        if_free p.missing (run took_missing (record p { missing = (poll env p.node).to_sync }))
    act run_messages p =
        if_free p.deliver (run took_messages (record p { deliver = (poll env p.node).to_send }))
    act run_blocks p =
        if_free p.blocks (run took_blocks (record p { blocks = (poll env p.node).to_update }))
    act on_ready p = in_select p.calls (
        if p.waiting_data
        then some (ok (record p { waiting_data = false; calls = send_data ∷ [] }))
        else none)
    act on_messages p = in_select p.calls (
        if_some p.deliver
          λ ms. some (ok (record p { deliver = none; calls = dispatch_all idx ms })))
    act on_blocks p =
        in_select p.calls
          (if_some p.blocks λ bs. some (ok (record p { blocks = none; calls = confirm_all bs })))
    act on_in_msg p =
        in_select p.calls (
          if_first p.in_msgs
            λ m ms. some (ok (record p { in_msgs = ms; calls = step_node m ∷ [] })))
    act proceed p = call p.calls p
    act (arrive m) p =
        if ltb (length p.in_msgs) messages_cap
        then some (ok (record p { in_msgs = p.in_msgs ++ m ∷ [] }))
        else none
    act (depart rx) p = if_some (get_elem? p.channels rx) λ queue.
        if_first queue
          λ m _. some (ok (record p { channels = pop rx p.channels; taken = push rx m p.taken }))

    -- Any interleaving, up to a panic or the end of the process.
    pub data Runs (p : Process env) : Process env → Type 0 where
      stay : Runs p p
      then_act : {q r : Process env} (a : Action) → Runs p q → act a q ≡ some (ok r) → Runs p r
