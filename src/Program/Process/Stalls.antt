-- ===== src/Program/Process/Stalls.antt =====
-- hotstuff-node/main.go and node.go: two channels that nobody reads.
use coded_hotterstuff.Prelude.{
  ℕ, ◌≡◌, ◌≢◌, refl, ap, sym, ◌∙◌, List, ◌∷◌, ◌++◌, append-nil, append_assoc, Option, none, some,
  arith,
}
use coded_hotterstuff.Types
use coded_hotterstuff.Types.{Message}
use coded_hotterstuff.Env.{Env}
use coded_hotterstuff.Progress.{MsgTo, BlockRef}
use coded_hotterstuff.Node.{
  Node, Event, started, received, ticked, took_waiting, took_messages, took_blocks, poll, handle,
  is_idle,
}
use coded_hotterstuff.Node.Sends.{
  pending, handed_out, to_send_after, to_sync_after, poll-busy, handle-Effect, Effect,
}
use coded_hotterstuff.Program.{Call, send_confirmed, confirmed_cap}
use coded_hotterstuff.Program.Process.{Process, Runs, stay, then_act}
use coded_hotterstuff.Program.Process.Steps

module _ (env : Env) (payload : Types.Data) (idx : ℕ) where
  -- The channel `missing` is full, and the loop waits to put blocks there.
  pub record IsStuck (refs : List BlockRef) (sent : List MsgTo) (p : Process env) : Type 0 where
    pub full : p.missing ≢ none
    pub waits : p.node.to_sync ≡ some refs
    pub sent_all : p.node.delivered ++ pending p.node.to_send ≡ sent

  busy : (n : Node env) (refs : List BlockRef) → n.to_sync ≡ some refs → poll env n ≡ n
  busy n refs h = poll-busy env n (unfold is_idle in rw h refl)

  -- A round other than the one that fills `missing`.
  round-IsStuck :
      (refs : List BlockRef) (sent : List MsgTo) (e : Event) (p q : Process env)
      → IsStuck refs sent p
      → Steps.Turns env payload idx e p.node q.node
      → ((o : Option (List BlockRef)) → to_sync_after e o ≡ o)
      → ((o : Option (List MsgTo)) → handed_out e o ++ pending (to_send_after e o) ≡ pending o)
      → q.missing ≡ p.missing
      → IsStuck refs sent q
  round-IsStuck refs sent e p q h t same_sync same_send missing =
      let there : poll env p.node ≡ p.node = busy p.node refs h.waits in
      let effect : Effect env e p.node q.node =
        handle-Effect env e p.node q.node (ap (handle env e) (sym there) ∙ t) in
      record {
        full = rw missing h.full;
        waits = effect.to_sync ∙ same_sync p.node.to_sync ∙ h.waits;
        sent_all =
            rw (effect.delivered, effect.to_send, append_assoc, same_send p.node.to_send)
              h.sent_all;
      }

  moved-IsStuck :
      (refs : List BlockRef) (sent : List MsgTo) (p q : Process env)
      → IsStuck refs sent p
      → q.node ≡ p.node
      → q.missing ≡ p.missing
      → IsStuck refs sent q
  moved-IsStuck refs sent p q h node missing = record {
    full = rw missing h.full;
    waits = rw node h.waits;
    sent_all = rw node h.sent_all;
  }

  Step-IsStuck :
      (refs : List BlockRef) (sent : List MsgTo) (p q : Process env)
      → IsStuck refs sent p
      → Steps.Step env payload idx p q
      → IsStuck refs sent q
  Step-IsStuck refs sent p _ h (Steps.ran_start n t) =
      round-IsStuck refs sent started p _ h t (λ o. refl) (λ o. refl) refl
  Step-IsStuck refs sent p _ h (Steps.ran_receive m n _ t) =
      round-IsStuck refs sent (received m) p _ h t (λ o. refl) (λ o. refl) refl
  Step-IsStuck refs sent p _ h (Steps.ran_send n _ t) =
      round-IsStuck refs sent _ p _ h t (λ o. refl) (λ o. refl) refl
  Step-IsStuck refs sent p _ h (Steps.ran_tick n t) =
      round-IsStuck refs sent ticked p _ h t (λ o. refl) (λ o. refl) refl
  Step-IsStuck refs sent p _ h (Steps.ran_waiting n _ t) =
      round-IsStuck refs sent took_waiting p _ h t (λ o. refl) (λ o. refl) refl
  Step-IsStuck refs sent p _ h (Steps.ran_missing n free t) = absurd (h.full free)
  Step-IsStuck refs sent p _ h (Steps.ran_blocks n _ t) =
      round-IsStuck refs sent took_blocks p _ h t (λ o. refl) (λ o. refl) refl
  Step-IsStuck refs sent p _ h (Steps.ran_messages n free t) =
      round-IsStuck refs sent took_messages p _ h t (λ o. refl) (λ o. append-nil (pending o)) refl
  Step-IsStuck refs sent p _ h _ = moved-IsStuck refs sent p _ h refl refl

  -- The channel `missing` has room for one list of blocks and has no reader. Once it is full and the
  -- loop waits to put a second list there, the node hands out nothing but what it had taken over
  -- before, whatever happens to the process.
  pub Runs-IsStuck :
      (refs : List BlockRef) (sent : List MsgTo) (p : Process env) {q : Process env}
      → IsStuck refs sent p
      → Runs env payload idx p q
      → IsStuck refs sent q
  Runs-IsStuck refs sent p h stay = h
  Runs-IsStuck refs sent p h (then_act {q = q} {r = r} a runs done) =
      Step-IsStuck refs sent q r (Runs-IsStuck refs sent p h runs)
        (Steps.act-Step env payload idx a q r done)

  -- A hundred blocks are confirmed, and entryPoint confirms one more.
  pub record IsFull (calls : List Call) (p : Process env) : Type 0 where
    pub waits : p.calls ≡ send_confirmed ∷ calls
    pub full : p.confirmed ≡ confirmed_cap

  Step-IsFull :
      (calls : List Call) (p q : Process env)
      → IsFull calls p
      → Steps.Step env payload idx p q
      → IsFull calls q
  Step-IsFull calls p _ h (Steps.chose_ready idle full) = absurd (cc (h.waits, idle))
  Step-IsFull calls p _ h (Steps.chose_messages ms idle got) = cc (h.waits)
  Step-IsFull calls p _ h (Steps.chose_blocks bs idle got) = cc (h.waits)
  Step-IsFull calls p _ h (Steps.chose_in_msg m ms idle got) = cc (h.waits)
  Step-IsFull calls p _ h (Steps.called_step m rest eq free) = cc (h.waits)
  Step-IsFull calls p _ h (Steps.called_send rest eq free) = cc (h.waits)
  Step-IsFull calls p _ h (Steps.called_channel id m rest queue eq there room) = cc (h.waits)
  Step-IsFull calls p _ h (Steps.called_confirmed rest eq room) = absurd (ground (arith, h.full))
  Step-IsFull calls p _ h _ = record { waits = h.waits; full = h.full }

  -- The channel that counts confirmed blocks has room for a hundred and has no reader in main: at the
  -- next finalized block entryPoint waits for good, and never comes back to its select.
  pub Runs-IsFull :
      (calls : List Call) (p : Process env) {q : Process env}
      → IsFull calls p
      → Runs env payload idx p q
      → IsFull calls q
  Runs-IsFull calls p h stay = h
  Runs-IsFull calls p h (then_act {q = q} {r = r} a runs done) =
      Step-IsFull calls q r (Runs-IsFull calls p h runs) (Steps.act-Step env payload idx a q r done)
