-- ===== src/Node/VoteOnce.antt =====
-- node.go: the votes that the loop hands out, over rounds and restarts.
use coded_hotterstuff.Consensus.Restart.{new_consensus-IsLoaded, IsLoaded}
use coded_hotterstuff.Consensus.Evolves.Machine.{tick-Keeps, send-Keeps, step-Keeps, start-Keeps}
use coded_hotterstuff.Consensus.Machine.{tick, send, step, start}
use coded_hotterstuff.Consensus.State.{Consensus}
use coded_hotterstuff.Consensus.Evolves.{
  Between-append, vote_views-append, Evolves, IsDurable, vote_views, Between-le, Between,
}
use coded_hotterstuff.Node.{
  round, here, restart, enter_loop, Reaches, took_blocks, took_messages, took_missing, took_waiting,
  ticked, started, proposed, received, Event, handle, after, is_idle, take_progress, Node, poll,
}
use coded_hotterstuff.Node.Sends.{pending, pending-if_any}
use coded_hotterstuff.Prelude.{
  ℕ, ◌≡◌, true, false, Bool-cases, inl, inr, List, [], ◌∷◌, ◌++◌, append-nil, append_assoc, none,
  some, arith,
}
use coded_hotterstuff.Exec.{Outcome, ok, crash}
use coded_hotterstuff.Exec.Moves.{After}
use coded_hotterstuff.Env.{Env, IsMap}
use coded_hotterstuff.Progress.{reset, MsgTo}

Between-prefix : (lo hi : ℕ) (xs ys : List ℕ) → Between lo (xs ++ ys) hi → Between lo xs hi
Between-prefix lo hi [] ys h = Between-le lo hi ys h
Between-prefix lo hi (x ∷ xs) ys h = (h.0, Between-prefix x hi xs ys h.1)

module _ (env : Env) where
  -- Every message handed out or still to be handed out, in order.
  abbrev outgoing : Node env → List MsgTo
  outgoing n = n.delivered ++ (pending n.to_send ++ n.consensus.progress.messages)

  record VotesRise (lo : ℕ) (n : Node env) : Type 0 where
    rising : Between lo (vote_views (outgoing n)) n.consensus.voted
    durable : IsDurable env n.consensus

  take_progress-VotesRise :
      (lo : ℕ) (n : Node env)
      → n.to_send ≡ none
      → VotesRise lo n
      → VotesRise lo (take_progress env n)
  unfolding take_progress reset
  take_progress-VotesRise lo n idle h = record {
    rising = rw (pending-if_any n.consensus.progress.messages, append-nil) (rw idle at h.rising);
    durable = record {
      view_range = h.durable.view_range;
      voted_range = h.durable.voted_range;
      view_saved = h.durable.view_saved;
      voted_saved = h.durable.voted_saved;
    };
  }

  poll-VotesRise : (lo : ℕ) (n : Node env) → VotesRise lo n → VotesRise lo (poll env n)
  unfolding poll
  poll-VotesRise lo n h = elim (Bool-cases (is_idle env n)) [
    | inl idle ↦ rw idle (take_progress-VotesRise lo n (unfold is_idle in ground arith) h)
    | inr busy ↦ rw busy h
  ]

  -- One action of the consensus.
  Evolves-VotesRise :
      (lo : ℕ) (n : Node env) (c : Consensus env)
      → VotesRise lo n
      → Evolves env n.consensus c
      → VotesRise lo (record n { consensus = c })
  Evolves-VotesRise lo n c h e = record {
    rising = rw outgoing_more (
        rw (vote_views-append (outgoing n) e.sent.new) (
          Between-append lo n.consensus.voted c.voted (vote_views (outgoing n))
            (vote_views e.sent.new) h.rising e.sent.rising));
    durable = e.durable h.durable;
  }
    where
      outgoing_more :
          n.delivered ++ (pending n.to_send ++ c.progress.messages) ≡ outgoing n ++ e.sent.new
      outgoing_more = rw e.sent.appended (simp append_assoc)

  after-VotesRise :
      (lo : ℕ) (n k : Node env) (o : Outcome (Unit {0} × Consensus env))
      → VotesRise lo n
      → After o (λ _ c. Evolves env n.consensus c)
      → after env n o ≡ ok k
      → VotesRise lo k
  after-VotesRise lo n k (ok (u, c)) h e p =
      let same : record n { consensus = c } ≡ k = cc in rw (← same) (Evolves-VotesRise lo n c h e)
  after-VotesRise lo n k (crash r) h e p = cc

module _ (env : Env) (map : IsMap env) where
  handle-VotesRise :
      (lo : ℕ) (e : Event) (n k : Node env)
      → VotesRise env lo n
      → handle env e n ≡ some (ok k)
      → VotesRise env lo k
  unfolding handle
  handle-VotesRise lo started n k h p = elim (Bool-cases n.is_started) [
    | inl b ↦ let p' = rw b at p in cc
    | inr b ↦
        let p' = rw b at p in
        after-VotesRise env lo (record n { is_started = true }) k (start env n.consensus)
          (record { rising = h.rising; durable = h.durable })
          ((start-Keeps env map).from n.consensus) (cc)
  ]
  handle-VotesRise lo (received m) n k h p =
      after-VotesRise env lo n k (step env m n.consensus) h
        ((step-Keeps env map m).from n.consensus) (cc)
  handle-VotesRise lo (proposed st root x) n k h p =
      after-VotesRise env lo n k (send env st root x n.consensus) h
        ((send-Keeps env map st root x).from n.consensus) (cc)
  handle-VotesRise lo ticked n k h p =
      after-VotesRise env lo n k (tick env n.consensus) h ((tick-Keeps env map).from n.consensus)
        (cc)
  handle-VotesRise lo took_waiting n k h p = elim (Bool-cases n.waiting) [
    | inl b ↦
        let same : record n { waiting = false } ≡ k = cc (rw b at p) in
        rw (← same) (record { rising = h.rising; durable = h.durable })
    | inr b ↦ let p' = rw b at p in cc
  ]
  handle-VotesRise lo took_missing n k h p =
      let same : record n { to_sync = none } ≡ k = ground arith in
      rw (← same) (record { rising = h.rising; durable = h.durable })
  handle-VotesRise lo took_messages n k h p =
      let same : record n { to_send = none; delivered = n.delivered ++ pending n.to_send } ≡ k =
        ground arith in
      rw (← same) (record {
        rising =
            rw (append_assoc n.delivered (pending n.to_send) n.consensus.progress.messages)
              h.rising;
        durable = h.durable;
      })
  handle-VotesRise lo took_blocks n k h p =
      let same : record n { to_update = none } ≡ k = ground arith in
      rw (← same) (record { rising = h.rising; durable = h.durable })

  restart-VotesRise :
      (lo : ℕ) (n : Node env) (c : Consensus env)
      → VotesRise env lo n
      → IsLoaded env n.consensus.store c
      → VotesRise env lo (enter_loop env c n.delivered)
  unfolding enter_loop
  restart-VotesRise lo n c h l =
      let same_voted : c.voted ≡ n.consensus.voted = cc (l.voted, h.durable.voted_saved) in
      let same_view : c.view ≡ n.consensus.view = cc (l.view, h.durable.view_saved) in
      let prefix =
        Between-prefix lo n.consensus.voted (vote_views n.delivered)
          (vote_views (pending n.to_send ++ n.consensus.progress.messages))
          (rw vote_views-append at h.rising) in
      record {
        rising = rw (l.silent, append-nil, same_voted) prefix;
        durable = record {
          view_range = rw same_view h.durable.view_range;
          voted_range = rw same_voted h.durable.voted_range;
          view_saved = rw l.same_store l.view;
          voted_saved = rw l.same_store l.voted;
        };
      }

  Reaches-VotesRise :
      (lo : ℕ) {n m : Node env} → VotesRise env lo n → Reaches env n m → VotesRise env lo m
  Reaches-VotesRise lo h here = h
  Reaches-VotesRise lo h (round {m = m} {k = k} e r p) =
      handle-VotesRise lo e (poll env m) k (poll-VotesRise env lo m (Reaches-VotesRise lo h r)) p
  Reaches-VotesRise lo h (restart {m = m} c id replicas r p) =
      restart-VotesRise lo m c (Reaches-VotesRise lo h r)
        (new_consensus-IsLoaded env m.consensus.store id replicas c p)

  -- From a replica whose counters are stored, whatever events and restarts follow: the votes that
  -- the loop hands out are for strictly rising views after the last vote before, so no two of them
  -- are for one view; the last vote that the replica keeps, in memory and in the store, is no
  -- earlier than any of them.
  pub vote_once :
      (c : Consensus env) (m : Node env)
      → IsDurable env c
      → c.progress.messages ≡ []
      → Reaches env (enter_loop env c []) m
      → Between c.voted (vote_views m.delivered) m.consensus.voted × IsDurable env m.consensus
  vote_once c m d silent r =
      let start : VotesRise env c.voted (enter_loop env c []) = record {
        rising = unfold enter_loop vote_views in rw silent (omega arith);
        durable = unfold enter_loop in d;
      } in
      let end = Reaches-VotesRise c.voted start r in
      (
        Between-prefix c.voted m.consensus.voted (vote_views m.delivered)
            (vote_views (pending m.to_send ++ m.consensus.progress.messages))
            (rw vote_views-append at end.rising),
        end.durable,
      )
