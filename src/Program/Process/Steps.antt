-- ===== src/Program/Process/Steps.antt =====
-- hotstuff-node/main.go and node.go: the actions of the process that go through, one constructor for
-- each case.
use coded_hotterstuff.Prelude.{
  ℕ, suc, ◌≡◌, refl, ◌<◌, Bool, true, false, if◌then◌else◌, ltb, List, [], ◌∷◌, ◌++◌, length,
  get_elem?, Option, none, some, arith,
}
use coded_hotterstuff.Exec.{Outcome, ok, crash}
use coded_hotterstuff.Types
use coded_hotterstuff.Types.{Message}
use coded_hotterstuff.Env.{Env}
use coded_hotterstuff.Progress.{MsgTo, BlockEvent}
use coded_hotterstuff.Node.{
  Node, Event, started, received, proposed, ticked, took_waiting, took_missing, took_messages,
  took_blocks, poll, handle,
}
use coded_hotterstuff.Program.{
  Call, step_node, send_data, send_channel, send_confirmed, dispatch_all, messages_cap,
  confirmed_cap,
}
use coded_hotterstuff.Program.Process.{
  Process, Action, run_start, run_receive, run_send, run_tick, run_waiting, run_missing,
  run_messages, run_blocks, on_ready, on_messages, on_blocks, on_in_msg, proceed, arrive, depart,
  ran, call, call_channel, call_step, in_select, if_some, if_free, if_first, act, confirm_all, push,
  pop,
}

module _ (env : Env) (payload : Types.Data) (idx : ℕ) where
  -- The node goes round its loop on the event.
  abbrev pub Turns : Event → Node env → Node env → Type 0
  Turns e n m = handle env e (poll env n) ≡ some (ok m)

  pub data Step (p : Process env) : Process env → Type 0 where
    ran_start : (n : Node env) → Turns started p.node n → Step p (record p { node = n })
    ran_receive :
        (m : Message) (n : Node env)
        → p.receive ≡ some m
        → Turns (received m) p.node n
        → Step p (record p { receive = none; node = n })
    ran_send :
        (n : Node env)
        → p.send ≡ true
        → Turns (proposed [] [] (some payload)) p.node n
        → Step p (record p { send = false; node = n })
    ran_tick : (n : Node env) → Turns ticked p.node n → Step p (record p { node = n })
    ran_waiting :
        (n : Node env)
        → p.waiting_data ≡ false
        → Turns took_waiting p.node n
        → Step p (record p { waiting_data = true; node = n })
    ran_missing :
        (n : Node env)
        → p.missing ≡ none
        → Turns took_missing p.node n
        → Step p (record p { missing = (poll env p.node).to_sync; node = n })
    ran_messages :
        (n : Node env)
        → p.deliver ≡ none
        → Turns took_messages p.node n
        → Step p (record p { deliver = (poll env p.node).to_send; node = n })
    ran_blocks :
        (n : Node env)
        → p.blocks ≡ none
        → Turns took_blocks p.node n
        → Step p (record p { blocks = (poll env p.node).to_update; node = n })
    chose_ready :
        p.calls ≡ []
        → p.waiting_data ≡ true
        → Step p (record p { waiting_data = false; calls = send_data ∷ [] })
    chose_messages :
        (ms : List MsgTo)
        → p.calls ≡ []
        → p.deliver ≡ some ms
        → Step p (record p { deliver = none; calls = dispatch_all idx ms })
    chose_blocks :
        (bs : List BlockEvent)
        → p.calls ≡ []
        → p.blocks ≡ some bs
        → Step p (record p { blocks = none; calls = confirm_all bs })
    chose_in_msg :
        (m : Message) (ms : List Message)
        → p.calls ≡ []
        → p.in_msgs ≡ m ∷ ms
        → Step p (record p { in_msgs = ms; calls = step_node m ∷ [] })
    called_step :
        (m : Message) (rest : List Call)
        → p.calls ≡ step_node m ∷ rest
        → p.receive ≡ none
        → Step p (record p { calls = rest; receive = some m })
    called_send :
        (rest : List Call)
        → p.calls ≡ send_data ∷ rest
        → p.send ≡ false
        → Step p (record p { calls = rest; send = true })
    called_channel :
        (rx : ℕ) (m : Message) (rest : List Call) (queue : List Message)
        → p.calls ≡ send_channel rx m ∷ rest
        → get_elem? p.channels rx ≡ some queue
        → length queue < messages_cap
        → Step p (record p { calls = rest; channels = push rx m p.channels })
    called_confirmed :
        (rest : List Call)
        → p.calls ≡ send_confirmed ∷ rest
        → p.confirmed < confirmed_cap
        → Step p (record p { calls = rest; confirmed = suc p.confirmed })
    arrived :
        (m : Message)
        → length p.in_msgs < messages_cap
        → Step p (record p { in_msgs = p.in_msgs ++ m ∷ [] })
    departed :
        (rx : ℕ) (m : Message) (ms : List Message)
        → get_elem? p.channels rx ≡ some (m ∷ ms)
        → Step p (record p { channels = pop rx p.channels; taken = push rx m p.taken })

  ran-inv :
      (q r : Process env) (o : Option (Outcome (Node env)))
      → ran env q o ≡ some (ok r)
      → (n : Node env) × (o ≡ some (ok n)) × (record q { node = n } ≡ r)
  ran-inv q r none h = cc
  ran-inv q r (some (crash x)) h = cc
  ran-inv q r (some (ok n)) h = (n, refl, cc)

  -- A run of the loop, from the process that the action has prepared.
  by_ran :
      (p q r : Process env) (o : Option (Outcome (Node env)))
      → ran env q o ≡ some (ok r)
      → ((n : Node env) → o ≡ some (ok n) → Step p (record q { node = n }))
      → Step p r
  by_ran p q r o h step = let (n, turned, same) = ran-inv q r o h in rw (← same) (step n turned)

  by_some :
      (p r : Process env) {A : Type 0} (o : Option A) (f : A → Option (Outcome (Process env)))
      → if_some o f ≡ some (ok r)
      → ((a : A) → o ≡ some a → f a ≡ some (ok r) → Step p r)
      → Step p r
  by_some p r none f h step = cc
  by_some p r (some a) f h step = step a refl h

  by_free :
      (p r : Process env) {A : Type 0} (o : Option A) (b : Option (Outcome (Process env)))
      → if_free o b ≡ some (ok r)
      → (o ≡ none → b ≡ some (ok r) → Step p r)
      → Step p r
  by_free p r none b h step = step refl h
  by_free p r (some a) b h step = cc

  by_first :
      (p r : Process env) (q : List Message)
      (f : Message → List Message → Option (Outcome (Process env)))
      → if_first q f ≡ some (ok r)
      → ((m : Message) (ms : List Message) → q ≡ m ∷ ms → f m ms ≡ some (ok r) → Step p r)
      → Step p r
  by_first p r [] f h step = cc
  by_first p r (m ∷ ms) f h step = step m ms refl h

  by_select :
      (p r : Process env) (cs : List Call) (b : Option (Outcome (Process env)))
      → in_select cs b ≡ some (ok r)
      → (cs ≡ [] → b ≡ some (ok r) → Step p r)
      → Step p r
  by_select p r [] b h step = step refl h
  by_select p r (c ∷ cs) b h step = cc

  -- A test in front of an action that goes through on one side only.
  by_test :
      (p r : Process env) (b : Bool) (o : Option (Outcome (Process env)))
      → (if b then o else none) ≡ some (ok r)
      → (b ≡ true → o ≡ some (ok r) → Step p r)
      → Step p r
  by_test p r true o h step = step refl h
  by_test p r false o h step = cc

  by_not :
      (p r : Process env) (b : Bool) (o : Option (Outcome (Process env)))
      → (if b then none else o) ≡ some (ok r)
      → (b ≡ false → o ≡ some (ok r) → Step p r)
      → Step p r
  by_not p r true o h step = cc
  by_not p r false o h step = step refl h

  becomes : (p q r : Process env) → some (ok q) ≡ some (ok r) → Step p q → Step p r
  becomes p q r h s = let same : q ≡ r = cc in rw (← same) s

  call_channel-Step :
      (p r : Process env) (m : Message) (rx : ℕ) (rest : List Call) (q : Option (List Message))
      → p.calls ≡ send_channel rx m ∷ rest
      → get_elem? p.channels rx ≡ q
      → call_channel env m rx rest p q ≡ some (ok r)
      → Step p r
  unfolding call_channel
  call_channel-Step p r m rx rest none eq here h = cc
  call_channel-Step p r m rx rest (some queue) eq here h =
      by_test p r (ltb (length queue) messages_cap) _ h
        λ room h'. becomes p _ r h' (called_channel rx m rest queue eq here (ground arith))

  call_step-Step :
      (p r : Process env) (m : Message) (rest : List Call) (o : Option Message)
      → p.calls ≡ step_node m ∷ rest
      → p.receive ≡ o
      → call_step env m rest p o ≡ some (ok r)
      → Step p r
  unfolding call_step
  call_step-Step p r m rest none eq free h = becomes p _ r h (called_step m rest eq free)
  call_step-Step p r m rest (some n) eq free h = cc

  call-Step :
      (cs : List Call) (p r : Process env) → p.calls ≡ cs → call env cs p ≡ some (ok r) → Step p r
  unfolding call
  call-Step [] p r eq h = cc
  call-Step (step_node m ∷ cs) p r eq h = call_step-Step p r m cs p.receive eq refl h
  call-Step (send_data ∷ cs) p r eq h =
      by_not p r p.send _ h λ free h'. becomes p _ r h' (called_send cs eq free)
  call-Step (send_channel rx m ∷ cs) p r eq h =
      call_channel-Step p r m rx cs (get_elem? p.channels rx) eq refl h
  call-Step (send_confirmed ∷ cs) p r eq h =
      by_test p r (ltb p.confirmed confirmed_cap) _ h
        λ room h'. becomes p _ r h' (called_confirmed cs eq (ground arith))

  -- An action that goes through is one of the steps.
  pub act-Step : (a : Action) (p r : Process env) → act env payload idx a p ≡ some (ok r) → Step p r
  unfolding act
  act-Step run_start p r h = by_ran p p r _ h λ n t. ran_start n t
  act-Step run_receive p r h =
      by_some p r p.receive _ h
        λ m got h'. by_ran p (record p { receive = none }) r _ h' λ n t. ran_receive m n got t
  act-Step run_send p r h =
      by_test p r p.send _ h
        λ full h'. by_ran p (record p { send = false }) r _ h' λ n t. ran_send n full t
  act-Step run_tick p r h = by_ran p p r _ h λ n t. ran_tick n t
  act-Step run_waiting p r h =
      by_not p r p.waiting_data _ h
        λ free h'. by_ran p (record p { waiting_data = true }) r _ h' λ n t. ran_waiting n free t
  act-Step run_missing p r h = by_free p r p.missing _ h λ free h'.
      by_ran p (record p { missing = (poll env p.node).to_sync }) r _ h' λ n t. ran_missing n free t
  act-Step run_messages p r h = by_free p r p.deliver _ h λ free h'.
      by_ran p (record p { deliver = (poll env p.node).to_send }) r _ h'
        λ n t. ran_messages n free t
  act-Step run_blocks p r h = by_free p r p.blocks _ h λ free h'.
      by_ran p (record p { blocks = (poll env p.node).to_update }) r _ h' λ n t. ran_blocks n free t
  act-Step on_ready p r h = by_select p r p.calls _ h λ idle h'.
      by_test p r p.waiting_data _ h' λ full h''. becomes p _ r h'' (chose_ready idle full)
  act-Step on_messages p r h = by_select p r p.calls _ h λ idle h'.
      by_some p r p.deliver _ h' λ ms got h''. becomes p _ r h'' (chose_messages ms idle got)
  act-Step on_blocks p r h = by_select p r p.calls _ h λ idle h'.
      by_some p r p.blocks _ h' λ bs got h''. becomes p _ r h'' (chose_blocks bs idle got)
  act-Step on_in_msg p r h = by_select p r p.calls _ h λ idle h'.
      by_first p r p.in_msgs _ h' λ m ms got h''. becomes p _ r h'' (chose_in_msg m ms idle got)
  act-Step proceed p r h = call-Step p.calls p r refl h
  act-Step (arrive m) p r h =
      by_test p r (ltb (length p.in_msgs) messages_cap) _ h
        λ room h'. becomes p _ r h' (arrived m (ground arith))
  act-Step (depart rx) p r h = by_some p r (get_elem? p.channels rx) _ h λ q got h'.
      by_first p r q _ h' λ m ms first h''. becomes p _ r h'' (departed rx m ms (rw (← first) got))
