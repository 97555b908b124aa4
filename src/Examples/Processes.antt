-- ===== src/Examples/Processes.antt =====
-- Runs of a process of hotstuff-node, and the theorems about them.
use coded_hotterstuff.Framing.{put_uint32, augment, send_all}
use coded_hotterstuff.Program.Process.Received.{received_in_order}
use coded_hotterstuff.Wire.Header.{marshal_header}
use coded_hotterstuff.Wire.Certificate.{marshal_certificate}
use coded_hotterstuff.Wire.Proposal.{marshal_proposal}
use coded_hotterstuff.Connection.Messages.{send_messages, IsSendable, listen_messages}
use coded_hotterstuff.Wire.Message.{marshal_message}
use coded_hotterstuff.Wire.Data.{marshal_data}
use coded_hotterstuff.Exec as Exec
use coded_hotterstuff.Prelude.{
  ◌^◌, ◌<◌, ◌++◌, ◌≤◌, All, ℕ, ◌≡◌, ◌≢◌, refl, List, [], ◌∷◌, length, Option, none, some, arith,
}
use coded_hotterstuff.Exec.{Outcome, ok, crash}
use coded_hotterstuff.Types
use coded_hotterstuff.Types.{Proposal, Header, Certificate, Message, proposal, empty}
use coded_hotterstuff.Node.{enter_loop}
use coded_hotterstuff.Progress.{BlockRef, broadcast}
use coded_hotterstuff.Program.{
  send_confirmed, dispatch_all, dispatch_message, to_each, up_from, create_array_of_channels,
  create_in_msgs_channel,
}
use coded_hotterstuff.Program.Process.{
  Process, Action, run_start, run_waiting, run_messages, on_messages, on_ready, on_in_msg, run_send,
  run_receive, run_missing, run_tick, proceed, arrive, depart, call, call_step, call_channel, enter,
  act, Runs, stay, then_act,
}
use coded_hotterstuff.Program.Process.Queues.{queue_at}
use coded_hotterstuff.Program.Process.Addressed.{addressed}
use coded_hotterstuff.Program.Process.Order.{under_way, messages_in_order}
use coded_hotterstuff.Program.Process.Stalls.{IsStuck, Runs-IsStuck, IsFull, Runs-IsFull}
use coded_hotterstuff.Examples.Runs.{env, fresh, everything, no_data}

abbrev payload : Types.Data
payload = record { transactions = [] }

abbrev or_here : Process env → Option (Outcome (Process env)) → Process env
or_here p none = p
or_here p (some (crash r)) = p
or_here p (some (ok q)) = q

unfoldable perform : List Action → Process env → Process env
perform [] p = p
perform (a ∷ rest) p = perform rest (or_here p (act env payload 0 a p))

Runs-perform :
    (actions : List Action) (p q : Process env)
    → Runs env payload 0 p q
    → Runs env payload 0 p (perform actions q)
unfolding perform
Runs-perform [] p q r = r
Runs-perform (a ∷ rest) p q r =
    Runs-perform rest p (or_here q (act env payload 0 a q)) (go (act env payload 0 a q) refl)
  where
    go :
        (o : Option (Outcome (Process env)))
        → act env payload 0 a q ≡ o
        → Runs env payload 0 p (or_here q o)
    go none eq = r
    go (some (crash x)) eq = r
    go (some (ok k)) eq = then_act a r eq

one_is_not_zero : ◌≢◌ {A = ℕ} 1 0
one_is_not_zero p = omega arith

fresh_silent : fresh.delivered ≡ []
unfolding enter_loop
fresh_silent = refl

-- The node starts, asks for data and proposes it; entryPoint puts the proposal into the channels, and
-- the connection to node 1 takes it.
abbrev offered : Process env
offered =
    perform
      (proceed
        ∷ run_start
        ∷ run_waiting
        ∷ on_ready
        ∷ proceed
        ∷ run_send
        ∷ run_messages
        ∷ on_messages
        ∷ proceed
        ∷ run_receive
        ∷ proceed
        ∷ proceed
        ∷ proceed
        ∷ proceed
        ∷ depart 1
        ∷ [])
      (enter env fresh)

Runs-offered : Runs env payload 0 (enter env fresh) offered
Runs-offered = Runs-perform _ (enter env fresh) (enter env fresh) stay

offered_taken : length (queue_at 1 offered.taken) ≡ 1
unfolding everything perform act call call_step call_channel enter dispatch_all dispatch_message
    to_each up_from broadcast create_array_of_channels create_in_msgs_channel
offered_taken = refl

messages_in_order_example :
    under_way env payload 0 1 one_is_not_zero offered ≡ addressed 1 offered.node.delivered
messages_in_order_example =
    messages_in_order env payload 0 1 one_is_not_zero fresh offered fresh_silent Runs-offered

-- A proposal with a certificate for a block that the replica has not.
abbrev orphan : Message
orphan = proposal (record {
  header =
      some (record { view = 5; parent = 9 ∷ []; parent_view = 4; data_root = []; state_root = [] });
  payload = no_data;
  sig = 0 ∷ [];
  parent_cert =
      some
        (record { block = 9 ∷ []; sig = some (record { voters = 0 ∷ []; sig = some (0 ∷ []) }) });
  timeout = none;
})

abbrev wanted : List BlockRef
wanted = record { hash = 9 ∷ []; view = 4 } ∷ []

-- It is handled, the missing block goes into the channel, and the loop takes it over again.
abbrev stuck : Process env
stuck =
    perform
      (proceed
        ∷ run_receive
        ∷ arrive orphan
        ∷ on_in_msg
        ∷ proceed
        ∷ run_receive
        ∷ run_missing
        ∷ run_start
        ∷ [])
      (enter env fresh)

stuck-IsStuck : IsStuck env payload 0 wanted [] stuck
unfolding everything perform act call call_step enter create_array_of_channels
    create_in_msgs_channel
stuck-IsStuck = record { full = λ p. cc p; waits = refl; sent_all = refl }

-- The node has messages to send, and they stay where they are.
abbrev later : Process env
later =
    perform (run_start ∷ run_waiting ∷ on_ready ∷ proceed ∷ run_send ∷ run_messages ∷ run_tick ∷ [])
      stuck

Runs-IsStuck_example : IsStuck env payload 0 wanted [] later
Runs-IsStuck_example =
    Runs-IsStuck env payload 0 wanted [] stuck stuck-IsStuck (Runs-perform _ stuck stuck stay)

-- A hundred blocks are confirmed.
abbrev full : Process env
full = record (enter env fresh) { calls = send_confirmed ∷ []; confirmed = 100 }

full-IsFull : IsFull env payload 0 [] full
full-IsFull = record { waits = refl; full = refl }

Runs-IsFull_example :
    IsFull env payload 0 [] (perform (proceed ∷ run_start ∷ run_waiting ∷ on_ready ∷ []) full)
Runs-IsFull_example = Runs-IsFull env payload 0 [] full full-IsFull (Runs-perform _ full full stay)

-- What the connection has taken: the proposal of the block after the genesis block.
abbrev first_header : Header
first_header = record {
  view = 1;
  parent = 34 ∷ 1 ∷ 7 ∷ [];
  parent_view = 0;
  data_root = [];
  state_root = [];
}

abbrev first_parent : Certificate
first_parent = record {
  block = 34 ∷ 1 ∷ 7 ∷ [];
  sig = some (record { voters = 0 ∷ []; sig = some (0 ∷ []) });
}

abbrev first_proposal : Proposal
first_proposal = record {
  header = some first_header;
  payload = some payload;
  sig = 0 ∷ [];
  parent_cert = some first_parent;
  timeout = none;
}

first_taken : queue_at 1 offered.taken ≡ proposal first_proposal ∷ []
unfolding everything perform act call call_step call_channel enter dispatch_all dispatch_message
    to_each up_from broadcast create_array_of_channels create_in_msgs_channel
first_taken = refl

first_header_size : length (marshal_header first_header) < 2 ^ 63
unfolding everything
first_header_size = omega arith

first_parent_size : length (marshal_certificate first_parent) < 2 ^ 63
unfolding everything
first_parent_size = omega arith

first_payload_size : length (marshal_data payload) < 2 ^ 63
unfolding everything
first_payload_size = omega arith

first_proposal_short : length (marshal_message (proposal first_proposal)) < 2 ^ 32
unfolding everything marshal_message marshal_proposal
first_proposal_short = omega arith

first_proposal_size : length (marshal_proposal first_proposal) < 2 ^ 63
unfolding everything marshal_proposal
first_proposal_size = omega arith

first_proposal-IsSendable : IsSendable (proposal first_proposal)
first_proposal-IsSendable = record {
  encodable = record {
    holds = record {
      header = record { view = omega arith; parent_view = omega arith; size = first_header_size };
      payload = record { nonces = tt; size = first_payload_size };
      parent_cert = record {
        sig = record { voters = (omega arith, tt); sig = λ p. cc };
        size = first_parent_size;
      };
      timeout = tt;
      size = first_proposal_size;
    };
    size = omega (arith, first_proposal_short);
  };
  short = first_proposal_short;
}

taken-IsSendable : All IsSendable (queue_at 1 offered.taken)
taken-IsSendable = rw first_taken (first_proposal-IsSendable, tt)

taken_size : length (send_messages (queue_at 1 offered.taken)) ≤ 100
taken_size = rw first_taken (
    unfold everything send_messages send_all augment put_uint32 marshal_message marshal_proposal in
    omega arith)

received_in_order_example :
    (received later : List Message) × (listen_messages 100
        (send_messages (queue_at 1 offered.taken))
      ≡ Exec.ok received)
    × (received ++ later ≡ addressed 1 offered.node.delivered)
received_in_order_example =
    received_in_order env payload 0 1 one_is_not_zero fresh offered 100 fresh_silent Runs-offered
      taken-IsSendable taken_size
