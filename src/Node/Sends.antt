-- ===== src/Node/Sends.antt =====
-- node.go: what a case of the select changes besides the consensus.
use coded_hotterstuff.Prelude.{
  ◌≡◌, refl, sym, Bool, true, false, Bool-cases, inl, inr, if◌then◌else◌, List, [], ◌∷◌, ◌++◌,
  append-nil, Option, none, some, arith,
}
use coded_hotterstuff.Exec.{Outcome, ok, crash}
use coded_hotterstuff.Env.{Env}
use coded_hotterstuff.Progress.{MsgTo, BlockRef}
use coded_hotterstuff.Consensus.State.{Consensus}
use coded_hotterstuff.Consensus.Machine.{start, step, send, tick}
use coded_hotterstuff.Node.{
  Event, started, received, proposed, ticked, took_waiting, took_missing, took_messages,
  took_blocks, Node, poll, take_progress, is_idle, after, handle, if_any,
}

-- What the loop still has to hand out.
abbrev pub pending : Option (List MsgTo) → List MsgTo
pending none = []
pending (some ms) = ms

pub pending-if_any : (ms : List MsgTo) → pending (if_any ms) ≡ ms
pending-if_any [] = refl
pending-if_any (m ∷ ms) = refl

-- What an event hands out, and what it leaves of the two lists.
abbrev pub handed_out : Event → Option (List MsgTo) → List MsgTo
handed_out took_messages o = pending o
handed_out _ o = []

abbrev pub to_send_after : Event → Option (List MsgTo) → Option (List MsgTo)
to_send_after took_messages o = none
to_send_after _ o = o

abbrev pub to_sync_after : Event → Option (List BlockRef) → Option (List BlockRef)
to_sync_after took_missing o = none
to_sync_after _ o = o

module _ (env : Env) where
  pub record Effect (e : Event) (n k : Node env) : Type 0 where
    pub delivered : k.delivered ≡ n.delivered ++ handed_out e n.to_send
    pub to_send : k.to_send ≡ to_send_after e n.to_send
    pub to_sync : k.to_sync ≡ to_sync_after e n.to_sync

  quiet : (n : Node env) → n.delivered ≡ n.delivered ++ []
  quiet n = sym (append-nil n.delivered)

  -- An action of the consensus.
  after-Effect :
      (e : Event) (n m k : Node env) (o : Outcome (Unit {0} × Consensus env))
      → ((c : Consensus env) → Effect e n (record m { consensus = c }))
      → after env m o ≡ ok k
      → Effect e n k
  after-Effect e n m k (ok (_, c)) h p =
      let same : record m { consensus = c } ≡ k = cc in rw (← same) (h c)
  after-Effect e n m k (crash r) h p = cc

  pub handle-Effect : (e : Event) (n k : Node env) → handle env e n ≡ some (ok k) → Effect e n k
  unfolding handle
  handle-Effect started n k p = elim (Bool-cases n.is_started) [
    | inl b ↦ let p' = rw b at p in cc
    | inr b ↦
        let p' = rw b at p in
        after-Effect started n (record n { is_started = true }) k (start env n.consensus)
          (λ c. record { delivered = quiet n; to_send = refl; to_sync = refl }) cc
  ]
  handle-Effect (received m) n k p =
      after-Effect (received m) n n k (step env m n.consensus)
        (λ c. record { delivered = quiet n; to_send = refl; to_sync = refl }) cc
  handle-Effect (proposed st root x) n k p =
      after-Effect (proposed st root x) n n k (send env st root x n.consensus)
        (λ c. record { delivered = quiet n; to_send = refl; to_sync = refl }) cc
  handle-Effect ticked n k p =
      after-Effect ticked n n k (tick env n.consensus)
        (λ c. record { delivered = quiet n; to_send = refl; to_sync = refl }) cc
  handle-Effect took_waiting n k p = elim (Bool-cases n.waiting) [
    | inl b ↦
        let same : record n { waiting = false } ≡ k = cc (rw b at p) in
        rw (← same) (record { delivered = quiet n; to_send = refl; to_sync = refl })
    | inr b ↦ let p' = rw b at p in cc
  ]
  handle-Effect took_missing n k p =
      let same : record n { to_sync = none } ≡ k = ground arith in
      rw (← same) (record { delivered = quiet n; to_send = refl; to_sync = refl })
  handle-Effect took_messages n k p =
      let same : record n { to_send = none; delivered = n.delivered ++ pending n.to_send } ≡ k =
        ground arith in
      rw (← same) (record { delivered = refl; to_send = refl; to_sync = refl })
  handle-Effect took_blocks n k p =
      let same : record n { to_update = none } ≡ k = ground arith in
      rw (← same) (record { delivered = quiet n; to_send = refl; to_sync = refl })

  pub poll-delivered : (n : Node env) → (poll env n).delivered ≡ n.delivered
  unfolding poll take_progress
  poll-delivered n = go (is_idle env n)
    where
      go : (b : Bool) → (if b then take_progress env n else n).delivered ≡ n.delivered
      go true = refl
      go false = refl

  -- A node with something to hand out is not idle.
  pub poll-busy : (n : Node env) → is_idle env n ≡ false → poll env n ≡ n
  unfolding poll
  poll-busy n h = rw h refl
