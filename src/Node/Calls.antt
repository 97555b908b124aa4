-- ===== src/Node/Calls.antt =====
-- node.go: the calls of a node's user (Send, Step, Start, Close), beside its loop.
pub mod Stopped
use coded_hotterstuff.Prelude.{
  ◌≡◌, refl, ◌⊎◌, inl, inr, Bool, true, false, if◌then◌else◌, Option, none, some, arith,
}
use coded_hotterstuff.Exec.{Outcome, ok, crash, panic}
use coded_hotterstuff.Types.{Message}
use coded_hotterstuff.Env.{Env}
use coded_hotterstuff.Node.{Node, Event, started, received, proposed, poll, handle}
use coded_hotterstuff.Node.New.{Data}

-- ErrInterrupt and ErrStopped, or nil.
pub data Reply : Type 0 where
  accepted err_interrupt err_stopped : Reply

-- The case that a select takes: the caller's context, the end of the node, or its channel.
pub data Choice : Type 0 where
  by_context by_quit by_channel : Choice

-- `received` and `send` have room for one value; of the others it is known whether they are closed.
pub record Channels : Type 0 where
  pub received : Option Message
  pub send : Option Data
  pub start : Bool
  pub quit : Bool
  pub done : Bool

-- make
unfoldable pub new_channels : Channels
new_channels = record { received = none; send = none; start = false; quit = false; done = false }

-- A case that is not ready is `none`; the call blocks while no case is ready.
abbrev pub put_received : Message → Channels → Option Message → Option (Reply × Channels)
put_received m ch none = some (accepted, record ch { received = some m })
put_received m ch (some _) = none

abbrev pub put_send : Data → Channels → Option Data → Option (Reply × Channels)
put_send x ch none = some (accepted, record ch { send = some x })
put_send x ch (some _) = none

-- Node.Step, where the context may be done.
unfoldable pub step_call : Choice → Bool → Message → Channels → Option (Reply × Channels)
step_call by_context done m ch = if done then some (err_interrupt, ch) else none
step_call by_quit done m ch = if ch.quit then some (err_stopped, ch) else none
step_call by_channel done m ch = put_received m ch ch.received

-- Node.Send
unfoldable pub send_call : Choice → Bool → Data → Channels → Option (Reply × Channels)
send_call by_context done x ch = if done then some (err_interrupt, ch) else none
send_call by_quit done x ch = if ch.quit then some (err_stopped, ch) else none
send_call by_channel done x ch = put_send x ch ch.send

-- Node.Start and the first half of Node.Close: a channel that is closed is not closed again.
unfoldable pub start_call : Channels → Outcome Channels
start_call ch = if ch.start then crash panic else ok (record ch { start = true })

unfoldable pub close_call : Channels → Outcome Channels
close_call ch = if ch.quit then crash panic else ok (record ch { quit = true })

-- The ticker, and what the loop hands out.
abbrev pub is_own : Event → Bool
is_own started = false
is_own (received m) = false
is_own (proposed state root x) = false
is_own _ = true

module _ (env : Env) where
  -- A node with its channels; the loop runs until `done` is closed.
  pub record Served : Type 0 where
    pub node : Node env
    pub channels : Channels

  -- A case of Node.run with a value from a channel, or with what the loop has by itself.
  abbrev with_received : Option Message → Channels → Option (Event × Channels)
  with_received none ch = none
  with_received (some m) ch = some (received m, record ch { received = none })

  abbrev with_send : Option Data → Channels → Option (Event × Channels)
  with_send none ch = none
  with_send (some x) ch = some (proposed x.state x.root x.payload, record ch { send = none })

  -- The event, and the channels after it, if its channel is ready.
  pub data Source : Type 0 where
    from_start from_received from_send : Source
    from_loop : Event → Source

  unfoldable pub next_event : Source → Channels → Option (Event × Channels)
  next_event from_start ch = if ch.start then some (started, ch) else none
  next_event from_received ch = with_received ch.received ch
  next_event from_send ch = with_send ch.send ch
  next_event (from_loop e) ch = if is_own e then some (e, ch) else none

  -- One thing that happens: a call, a round of the loop, or its end.
  pub data Happens (s : Served) : Served → Type 0 where
    stepped :
        (choice : Choice) (ctx : Bool) (m : Message) (r : Reply) (ch : Channels)
        → step_call choice ctx m s.channels ≡ some (r, ch)
        → Happens s (record s { channels = ch })
    sent :
        (choice : Choice) (ctx : Bool) (x : Data) (r : Reply) (ch : Channels)
        → send_call choice ctx x s.channels ≡ some (r, ch)
        → Happens s (record s { channels = ch })
    opened :
        (ch : Channels) → start_call s.channels ≡ ok ch → Happens s (record s { channels = ch })
    closed :
        (ch : Channels) → close_call s.channels ≡ ok ch → Happens s (record s { channels = ch })
    looped :
        (from : Source) (e : Event) (ch : Channels) (n : Node env)
        → s.channels.done ≡ false
        → next_event from s.channels ≡ some (e, ch)
        → handle env e (poll env s.node) ≡ some (ok n)
        → Happens s (record s { node = n; channels = ch })
    -- `case <-n.quit`: the ticker is stopped, and `done` is closed.
    ended :
        s.channels.done ≡ false
        → s.channels.quit ≡ true
        → Happens s (record s { channels = record s.channels { done = true } })

  pub data Serves (s : Served) : Served → Type 0 where
    idle : Serves s s
    then_happens : {t u : Served} → Serves s t → Happens t u → Serves s u
