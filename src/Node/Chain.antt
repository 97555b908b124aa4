-- ===== src/Node/Chain.antt =====
-- node.go: the remembered blocks (prepare, locked, commit) over a round of the loop.
use coded_hotterstuff.Prelude.{
  if◌then◌else◌, ◌≤◌, ◌≡◌, refl, Bool, true, false, Bool-cases, inl, inr, none, some, arith,
}
use coded_hotterstuff.Exec.{Outcome, ok, crash}
use coded_hotterstuff.Exec.Moves.{After}
use coded_hotterstuff.Env.{Env, IsMap}
use coded_hotterstuff.Consensus.State.{Consensus}
use coded_hotterstuff.Consensus.Machine.{start, step, tick, send}
use coded_hotterstuff.Consensus.Evolves.{Evolves}
use coded_hotterstuff.Consensus.Evolves.Machine.{start-Keeps, step-Keeps, tick-Keeps, send-Keeps}
use coded_hotterstuff.Consensus.Locks.{
  scope_of, scope_of_send, Scope, of_proposal, Follows, Follows-order,
}
use coded_hotterstuff.Consensus.Locks.Update.{follows}
use coded_hotterstuff.Consensus.Locks.Machine.{step-Follows, start-Still, tick-Still, send-Follows}
use coded_hotterstuff.Node.{
  Event, started, received, proposed, ticked, took_waiting, took_missing, took_messages,
  took_blocks, Node, poll, take_progress, is_idle, after, handle,
}

module _ (env : Env) where
  -- What an event brings: the headers and certificates of a message that is handled, or the proposal
  -- that the replica makes itself.
  abbrev pub scope_of_event : Event → Consensus env → Scope
  scope_of_event (received m) c = scope_of env m
  scope_of_event (proposed state root x) c = scope_of_send env state root c
  scope_of_event started c = of_proposal none none
  scope_of_event ticked c = of_proposal none none
  scope_of_event took_waiting c = of_proposal none none
  scope_of_event took_missing c = of_proposal none none
  scope_of_event took_messages c = of_proposal none none
  scope_of_event took_blocks c = of_proposal none none

  -- None of the three moves to an earlier view, and a block is locked or committed by the rules for
  -- two and for three blocks in a row, in the replica's own store.
  pub record ChainRule (scope : Scope) (c d : Consensus env) : Type 1 where
    pub prepare : c.prepare.view ≤ d.prepare.view
    pub locked : c.locked.view ≤ d.locked.view
    pub commit : c.commit.view ≤ d.commit.view
    pub rules : Follows env scope c d

  ChainRule-refl : (scope : Scope) (c : Consensus env) → ChainRule scope c c
  ChainRule-refl scope c = record {
    prepare = omega arith;
    locked = omega arith;
    commit = omega arith;
    rules = (Follows-order env scope).refl_at c;
  }

  after-ChainRule :
      (scope : Scope) (n k : Node env) (o : Outcome (Unit {0} × Consensus env))
      → After o (λ _ c. Evolves env n.consensus c)
      → After o (λ _ c. Follows env scope n.consensus c)
      → after env n o ≡ ok k
      → ChainRule scope n.consensus k.consensus
  after-ChainRule scope n k (ok (u, c)) h f p =
      let same : record n { consensus = c } ≡ k = cc in
      rw (← same) (record { prepare = h.prepare; locked = h.locked; commit = h.commit; rules = f })
  after-ChainRule scope n k (crash r) h f p = cc

  -- An event that does not call the consensus.
  same-ChainRule :
      (scope : Scope) (n m k : Node env)
      → m.consensus ≡ n.consensus
      → m ≡ k
      → ChainRule scope n.consensus k.consensus
  same-ChainRule scope n m k p q = rw (← q) (rw p (ChainRule-refl scope n.consensus))

  -- The loop takes the progress over, and leaves the blocks alone.
  poll-ChainRule :
      (scope : Scope) (n : Node env) (d : Consensus env)
      → ChainRule scope (poll env n).consensus d
      → ChainRule scope n.consensus d
  unfolding poll take_progress
  poll-ChainRule scope n d = go (is_idle env n)
    where
      go :
          (b : Bool)
          → ChainRule scope (if b then take_progress env n else n).consensus d
          → ChainRule scope n.consensus d
      go true h = record {
        prepare = h.prepare;
        locked = h.locked;
        commit = h.commit;
        rules = record {
          grown = h.rules.grown;
          lock_rule = h.rules.lock_rule;
          commit_rule = h.rules.commit_rule;
        };
      }
      go false h = h

module _ (env : Env) (map : IsMap env) where
  handle-ChainRule :
      (e : Event) (n k : Node env)
      → handle env e n ≡ some (ok k)
      → ChainRule env (scope_of_event env e n.consensus) n.consensus k.consensus
  unfolding handle
  handle-ChainRule started n k p = elim (Bool-cases n.is_started) [
    | inl b ↦ let p' = rw b at p in cc
    | inr b ↦
        let p' = rw b at p in
        after-ChainRule env (of_proposal none none) (record n { is_started = true }) k
          (start env n.consensus) ((start-Keeps env map).from n.consensus)
          ((follows env (of_proposal none none) (start-Still env map)).from n.consensus) cc
  ]
  handle-ChainRule (received m) n k p =
      after-ChainRule env (scope_of env m) n k (step env m n.consensus)
        ((step-Keeps env map m).from n.consensus) ((step-Follows env map m).from n.consensus) cc
  handle-ChainRule (proposed st root x) n k p =
      after-ChainRule env (scope_of_send env st root n.consensus) n k
        (send env st root x n.consensus) ((send-Keeps env map st root x).from n.consensus)
        (send-Follows env map st root x n.consensus) cc
  handle-ChainRule ticked n k p =
      after-ChainRule env (of_proposal none none) n k (tick env n.consensus)
        ((tick-Keeps env map).from n.consensus)
        ((follows env (of_proposal none none) (tick-Still env map)).from n.consensus) cc
  handle-ChainRule took_waiting n k p = elim (Bool-cases n.waiting) [
    | inl b ↦
        same-ChainRule env (of_proposal none none) n (record n { waiting = false }) k refl
          (cc (rw b at p))
    | inr b ↦ let p' = rw b at p in cc
  ]
  handle-ChainRule took_missing n k p =
      same-ChainRule env (of_proposal none none) n (record n { to_sync = none }) k refl
        (ground arith)
  handle-ChainRule took_messages n k p =
      let same : k.consensus ≡ n.consensus = ground arith in
      same-ChainRule env (of_proposal none none) n k k same refl
  handle-ChainRule took_blocks n k p =
      same-ChainRule env (of_proposal none none) n (record n { to_update = none }) k refl
        (ground arith)

  -- A round of the loop moves none of the three remembered blocks to an earlier view. The replica's
  -- store grows only by headers of the message that the event brings or makes the replica propose
  -- (by none, if there is none). The locked block changes only to what that store, somewhere on the way from before to
  -- after, holds as the parent of a certified header. The committed block changes only to the last of
  -- three headers that such a store links, whose views follow each other without a gap, and the first
  -- of which is certified. Certified means that VerifyAggregated accepts, for the header's hash or for
  -- a block under which the store holds it, the signature of a certificate that the message carries.
  -- So an event without such a message moves neither.
  pub chain_rule :
      (e : Event) (n k : Node env)
      → handle env e (poll env n) ≡ some (ok k)
      → ChainRule env (scope_of_event env e (poll env n).consensus) n.consensus k.consensus
  chain_rule e n k p = poll-ChainRule env _ n k.consensus (handle-ChainRule e (poll env n) k p)
