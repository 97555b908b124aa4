-- ===== src/Program/Process/Order.antt =====
-- hotstuff-node/main.go: what goes out on the channel of each other node, and in which order.
use coded_hotterstuff.Program.Process.Addressed.{
  calls_to-confirm_all, addressed-append, calls_to-dispatch_all, addressed, calls_to,
}
use coded_hotterstuff.Prelude.{
  ℕ, ◌<◌, ◌≡◌, ◌≢◌, refl, ap, sym, ◌∙◌, inl, inr, Bool-cases, ◌==◌, List, [], ◌∷◌, ◌++◌, append-nil,
  append_assoc, length, get_elem?, some, arith,
}
use coded_hotterstuff.Types
use coded_hotterstuff.Types.{Message}
use coded_hotterstuff.Env.{Env}
use coded_hotterstuff.Node.{Node, Event, poll, took_messages}
use coded_hotterstuff.Node.Sends.{pending, handed_out, poll-delivered, handle-Effect}
use coded_hotterstuff.Program.{Call, send_channel, number_of_nodes, create_array_of_channels}
use coded_hotterstuff.Program.Process.{Process, push, pop, enter, Runs, stay, then_act}
use coded_hotterstuff.Program.Process.Queues.{
  queue_at, queue_at-replicate, get_elem?-lt, queue_at-get_elem?, length-push, length-pop,
  queue_at-push_self, queue_at-push_ne, queue_at-pop_self, queue_at-pop_ne,
}
use coded_hotterstuff.Program.Process.Steps

regroup : {A : Type 0} (t c k x : List A) → t ++ (c ++ (k ++ x)) ≡ (t ++ (c ++ (k ++ []))) ++ x
regroup t c k x = simp (append_assoc, append-nil)

module _ (env : Env) (payload : Types.Data) (idx rx : ℕ) (ne : rx ≢ idx) where
  -- The messages for node `rx`: those that its connection has taken, those in its channel, those that
  -- entryPoint is about to put there, and those that the node has handed to entryPoint.
  abbrev pub under_way : Process env → List Message
  under_way p =
      queue_at rx p.taken
      ++ (queue_at rx p.channels ++ (calls_to rx p.calls ++ addressed rx (pending p.deliver)))

  record InOrder (p : Process env) : Type 0 where
    order : under_way p ≡ addressed rx p.node.delivered
    places : length p.taken ≡ length p.channels

  turned :
      (e : Event) (n m : Node env)
      → Steps.Turns env payload idx e n m
      → addressed rx m.delivered
        ≡ addressed rx n.delivered ++ addressed rx (handed_out e (poll env n).to_send)
  turned e n m t =
      let effect = handle-Effect env e (poll env n) m t in
      ap (addressed rx)
        (effect.delivered ∙ ap (λ l. l ++ handed_out e (poll env n).to_send) (poll-delivered env n))
      ∙ addressed-append rx n.delivered (handed_out e (poll env n).to_send)

  -- A round in which nothing is handed out.
  silent :
      (e : Event) (p q : Process env)
      → InOrder p
      → Steps.Turns env payload idx e p.node q.node
      → handed_out e (poll env p.node).to_send ≡ []
      → under_way q ≡ under_way p
      → q.taken ≡ p.taken
      → q.channels ≡ p.channels
      → InOrder q
  unfolding addressed
  silent e p q h t nothing same taken channels = record {
    order =
        same
        ∙ h.order
        ∙ sym (
            turned e p.node q.node t
            ∙ ap (λ l. addressed rx p.node.delivered ++ addressed rx l) nothing
            ∙ append-nil (addressed rx p.node.delivered));
    places = rw taken (rw channels h.places);
  }

  channel-InOrder :
      (p : Process env) (id : ℕ) (m : Message) (rest : List Call) (queue : List Message)
      → InOrder p
      → p.calls ≡ send_channel id m ∷ rest
      → get_elem? p.channels id ≡ some queue
      → InOrder (record p { calls = rest; channels = push id m p.channels })
  unfolding calls_to
  channel-InOrder p id m rest queue h eq there = record {
    order = elim (Bool-cases (id == rx)) [
      | inl hit ↦
          let same : id ≡ rx = ground arith in
          let before = rw hit at (rw eq at h.order) in
          rw same (
            rw (queue_at-push_self rx m p.channels (rw same at (get_elem?-lt id p.channels there)))
              (simp append_assoc before))
      | inr miss ↦
          let other : id ≢ rx = ground arith in
          rw (queue_at-push_ne rx id m p.channels other) (rw miss at (rw eq at h.order))
    ];
    places = h.places ∙ sym (length-push id m p.channels);
  }

  departed-InOrder :
      (p : Process env) (id : ℕ) (m : Message) (ms : List Message)
      → InOrder p
      → get_elem? p.channels id ≡ some (m ∷ ms)
      → InOrder (record p { channels = pop id p.channels; taken = push id m p.taken })
  departed-InOrder p id m ms h there = record {
    order = elim (Bool-cases (id == rx)) [
      | inl hit ↦
          let same : id ≡ rx = ground arith in
          let queue : queue_at rx p.channels ≡ m ∷ ms =
            rw same at (queue_at-get_elem? id p.channels there) in
          let inside : rx < length p.taken =
            ground (arith, h.places, get_elem?-lt id p.channels there) in
          rw same (
            rw (queue_at-push_self rx m p.taken inside, queue_at-pop_self rx p.channels, queue)
              (simp append_assoc (rw queue at h.order)))
      | inr miss ↦
          let other : id ≢ rx = ground arith in
          rw (queue_at-push_ne rx id m p.taken other, queue_at-pop_ne rx id p.channels other)
            h.order
    ];
    places = length-push id m p.taken ∙ h.places ∙ sym (length-pop id p.channels);
  }

  Step-InOrder : (p q : Process env) → InOrder p → Steps.Step env payload idx p q → InOrder q
  unfolding calls_to addressed
  Step-InOrder p _ h (Steps.ran_start n t) = silent _ p _ h t refl refl refl refl
  Step-InOrder p _ h (Steps.ran_receive m n _ t) = silent _ p _ h t refl refl refl refl
  Step-InOrder p _ h (Steps.ran_send n _ t) = silent _ p _ h t refl refl refl refl
  Step-InOrder p _ h (Steps.ran_tick n t) = silent _ p _ h t refl refl refl refl
  Step-InOrder p _ h (Steps.ran_waiting n _ t) = silent _ p _ h t refl refl refl refl
  Step-InOrder p _ h (Steps.ran_missing n _ t) = silent _ p _ h t refl refl refl refl
  Step-InOrder p _ h (Steps.ran_blocks n _ t) = silent _ p _ h t refl refl refl refl
  Step-InOrder p _ h (Steps.ran_messages n free t) =
      let before : queue_at rx p.taken ++ (queue_at rx p.channels ++ (calls_to rx p.calls ++ []))
          ≡ addressed rx p.node.delivered =
        rw free at h.order in
      record {
        order =
            regroup (queue_at rx p.taken) (queue_at rx p.channels) (calls_to rx p.calls)
              (addressed rx (pending (poll env p.node).to_send))
            ∙ ap (λ l. l ++ addressed rx (pending (poll env p.node).to_send)) before
            ∙ sym (turned took_messages p.node n t);
        places = h.places;
      }
  Step-InOrder p _ h (Steps.chose_ready idle full) = record {
    order = rw idle at h.order;
    places = h.places;
  }
  Step-InOrder p _ h (Steps.chose_messages ms idle got) =
      let before : queue_at rx p.taken ++ (queue_at rx p.channels ++ addressed rx ms)
          ≡ addressed rx p.node.delivered =
        rw idle at (rw got at h.order) in
      record {
        order = rw (calls_to-dispatch_all rx idx ms ne, append-nil) before;
        places = h.places;
      }
  Step-InOrder p _ h (Steps.chose_blocks bs idle got) =
      let before : queue_at rx p.taken
            ++ (queue_at rx p.channels ++ addressed rx (pending p.deliver))
          ≡ addressed rx p.node.delivered =
        rw idle at h.order in
      record { order = rw (calls_to-confirm_all rx bs) before; places = h.places }
  Step-InOrder p _ h (Steps.chose_in_msg m ms idle got) = record {
    order = rw idle at h.order;
    places = h.places;
  }
  Step-InOrder p _ h (Steps.called_step m rest eq free) = record {
    order = rw eq at h.order;
    places = h.places;
  }
  Step-InOrder p _ h (Steps.called_send rest eq free) = record {
    order = rw eq at h.order;
    places = h.places;
  }
  Step-InOrder p _ h (Steps.called_channel id m rest queue eq there room) =
      channel-InOrder p id m rest queue h eq there
  Step-InOrder p _ h (Steps.called_confirmed rest eq room) = record {
    order = rw eq at h.order;
    places = h.places;
  }
  Step-InOrder p _ h (Steps.arrived m room) = record { order = h.order; places = h.places }
  Step-InOrder p _ h (Steps.departed id m ms there) = departed-InOrder p id m ms h there

  Runs-InOrder :
      (p : Process env) {q : Process env} → InOrder p → Runs env payload idx p q → InOrder q
  Runs-InOrder p h stay = h
  Runs-InOrder p h (then_act {q = q} {r = r} a runs done) =
      Step-InOrder q r (Runs-InOrder p h runs) (Steps.act-Step env payload idx a q r done)

  queue_at-create : queue_at {A = Message} rx create_array_of_channels ≡ []
  unfolding create_array_of_channels
  queue_at-create = queue_at-replicate rx number_of_nodes

  -- Whatever the goroutines of a process do, and in whichever order: the messages that the connection
  -- to another node has taken, then those in its channel, then those that entryPoint still has to put
  -- there, are the ones that the node has handed out to all nodes or to this one, in their order and
  -- as often; none is lost, repeated or overtaken.
  pub messages_in_order :
      (n : Node env) (q : Process env)
      → n.delivered ≡ []
      → Runs env payload idx (enter env n) q
      → under_way q ≡ addressed rx q.node.delivered
  messages_in_order n q silent runs =
      let start : InOrder (enter env n) =
        unfold enter calls_to addressed in
        record { order = rw (queue_at-create, silent) refl; places = refl } in
      (Runs-InOrder (enter env n) start runs).order
