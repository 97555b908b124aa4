-- ===== src/Consensus/Locks/Machine.antt =====
-- consensus.go, onSync, Step, Start, Tick and Send: the locked and the committed block.
use coded_hotterstuff.Progress.{add_message}
use coded_hotterstuff.Consensus.Chain.{update, update_prepare}
use coded_hotterstuff.Store.{save_block, header_hash}
use coded_hotterstuff.Consensus.Round.{deliver, send_msg}
use coded_hotterstuff.Exec.Moves.{
  moves_rules, After-then, After-weaken, After-bind, After-moves, lift-then, After, IsPreorder,
  Moves-pure, Moves,
}
use coded_hotterstuff.Consensus.State.{when, persist, Consensus}
use coded_hotterstuff.Prelude.Bytes.{Bytes}
use coded_hotterstuff.Consensus.Handlers.{sync_parts, sync_block, sync_blocks, on_sync, sync_full}
use coded_hotterstuff.Consensus.Machine.{
  new_header, propose, on_timeout, dispatch, start, step, tick, step_within, send,
}
use coded_hotterstuff.Prelude.{
  ◌∷◌, [], arith, true, not, inl, inr, refl, if◌then◌else◌, leb, ◌+◌, Bool-cases, Bool, false,
  Option, ◌≡◌, zero, get_elem?, suc, ℕ, some, none, List,
}
use coded_hotterstuff.Env.{IsMap, Env}
use coded_hotterstuff.Exec.{ok, pure, modify, ◌>>=◌, ◌>>◌}
use coded_hotterstuff.Types.{
  Data, Sync, Certificate, Header, Block, Message, proposal, newview, vote, sync, empty, Vote,
  NewView,
}
use coded_hotterstuff.Consensus.Locks.{
  scope_of, scope_of_send, Scope, Follows, Follows-order, of_proposal, of_sync,
}
use coded_hotterstuff.Consensus.Locks.Still.{
  modify-Still, update_prepare-Still, save_view-Still, next_round-Still, next_round_late-Still,
  Still, Still-Follows, still_rules,
}
use coded_hotterstuff.Consensus.Locks.Update.{follows}
use coded_hotterstuff.Consensus.Locks.Steps.{
  on_vote-Still, on_new_view-Still, save_block-Follows, update_later,
}
use coded_hotterstuff.Consensus.Locks.Proposals.{on_proposal-Follows}

module _ (env : Env) (map : IsMap env) (scope : Scope) where
  -- A block with a checked certificate for itself.
  synced-Follows :
      (c : Consensus env) (h : Header) (cert : Certificate) (x : Data)
      → scope.own h
      → scope.shown (header_hash env h) cert.sig
      → (valid : Bool) → env.verifier.verify_aggregated (header_hash env h) cert.sig ≡ ok valid
      → After
          ((if not valid then pure false else do
            persist env (λ d. save_block env d h cert x)
            update_prepare env h cert
            update env h
            pure true)
            c)
          (λ _ d. Follows env scope c d)
  synced-Follows c h cert x own shown false checked =
      unfold pure in (Follows-order env scope).refl_at c
  synced-Follows c h cert x own shown true checked =
      let order = Follows-order env scope in
      After-moves order (λ _ d. Follows env scope c d)
        (persist env (λ d. save_block env d h cert x)) _ c c
        (save_block-Follows env map scope h cert x own) (order.refl_at c)
        λ _ d p.
          After-moves order (λ _ d. Follows env scope c d) (update_prepare env h cert) _ c d
            (follows env scope (update_prepare-Still env map h cert)) p
            λ _ e q.
              After-bind (λ _ d. Follows env scope c d) (update env h) (λ _. pure true) e
                (After-weaken (λ _ f. Follows env scope c f)
                  (λ _ f. After (pure true f) (λ _ d. Follows env scope c d)) (update env h e)
                  (update_later env map scope c e h q (record {
                    block = header_hash env h;
                    sig = cert.sig;
                    shown = shown;
                    checked = checked;
                    found = inl refl;
                  }))
                  λ _ f r. unfold pure in r)

  sync_full-Follows :
      (h : Header) (cert : Certificate) (x : Data)
      → scope.own h
      → scope.shown (header_hash env h) cert.sig
      → Moves (Follows env scope) (sync_full env h cert x)
  unfolding sync_full ◌>>=◌ pure
  sync_full-Follows h cert x own shown = record {
    from = λ c. elim (Bool-cases (leb h.view c.commit.view)) [
      | inl old ↦ rw old ((Follows-order env scope).refl_at c)
      | inr fresh ↦ rw fresh (
          lift-then (λ _ d. Follows env scope c d)
            (env.verifier.verify_aggregated (header_hash env h) cert.sig) c _
            λ valid checked. synced-Follows c h cert x own shown valid checked)
    ];
  }

module _ (env : Env) (map : IsMap env) (blocks : List Block) where
  abbrev Rule : Consensus env → Consensus env → Type 0
  Rule = Follows env (of_sync env blocks)

  order : IsPreorder Rule
  order = Follows-order env (of_sync env blocks)

  sync_block-Follows :
      (i : ℕ) (b : Block) → get_elem? blocks i ≡ some b → Moves Rule (sync_block env b)
  unfolding sync_block sync_parts
  sync_block-Follows i b at_i = parts b.header b.cert b.payload refl refl
    where
      parts :
          (h : Option Header) (cert : Option Certificate) (x : Option Data)
          → b.header ≡ h
          → b.cert ≡ cert
          → Moves (Follows env (of_sync env blocks)) (sync_parts env h cert x)
      parts none cert x p q = Moves-pure (Follows-order env (of_sync env blocks)) false
      parts (some h) none x p q = Moves-pure (Follows-order env (of_sync env blocks)) false
      parts (some h) (some cert) none p q =
          Moves-pure (Follows-order env (of_sync env blocks)) false
      parts (some h) (some cert) (some x) p q =
          sync_full-Follows env map (of_sync env blocks) h cert x (i, b, at_i, p)
            (i, b, h, cert, at_i, p, q, refl, refl)

  -- The blocks from the one with index `i` on.
  sync_blocks-Follows :
      (i : ℕ) (bs : List Block)
      → ((j : ℕ) (b : Block) → get_elem? bs j ≡ some b → get_elem? blocks (i + j) ≡ some b)
      → Moves Rule (sync_blocks env bs)
  unfolding sync_blocks
  sync_blocks-Follows i [] there = Moves-pure order tt
  sync_blocks-Follows i (b ∷ bs) there =
      let first : i + 0 ≡ i = omega arith in
      let here = sync_block-Follows i b (rw (← first) (there 0 b refl)) in
      let rest =
        sync_blocks-Follows (suc i) bs
          λ j x p. let next : suc i + j ≡ i + suc j = omega arith in rw next (there (suc j) x p) in
      search (moves_rules, order) depth 9

  pub on_sync-Follows : (msg : Sync) → msg.blocks ≡ blocks → Moves Rule (on_sync env msg)
  unfolding on_sync
  on_sync-Follows msg same =
      rw same
        (sync_blocks-Follows 0 blocks λ j b p. let same : 0 + j ≡ j = omega arith in rw same p)

module _ (env : Env) (map : IsMap env) where
  vote-Still : (fuel : ℕ) (v : Vote) → Moves (Still env) (step_within env fuel (vote v))
  unfolding step_within dispatch
  vote-Still zero v = search still_rules
  vote-Still (suc fuel) v = on_vote-Still env map (step_within env fuel) v

  newview-Still : (fuel : ℕ) (n : NewView) → Moves (Still env) (step_within env fuel (newview n))
  unfolding step_within dispatch
  newview-Still zero n = search still_rules
  newview-Still (suc fuel) n = on_new_view-Still env map (step_within env fuel) n

  pub step-Follows : (m : Message) → Moves (Follows env (scope_of env m)) (step env m)
  unfolding step step_within dispatch
  step-Follows (proposal m) = on_proposal-Follows env map (step_within env 1) (vote-Still 1) m
  step-Follows (sync m) = on_sync-Follows env map m.blocks m refl
  step-Follows (newview n) =
      follows env (of_proposal none none) (on_new_view-Still env map (step_within env 1) n)
  step-Follows (vote v) =
      follows env (of_proposal none none) (on_vote-Still env map (step_within env 1) v)
  step-Follows empty = Moves-pure (Follows-order env (of_proposal none none)) tt

  pub start-Still : Moves (Still env) (start env)
  unfolding start
  start-Still = next_round-Still env map (step env)

  pub tick-Still : Moves (Still env) (tick env)
  unfolding tick on_timeout step
  tick-Still =
      let late = next_round_late-Still env map (step_within env 2) (newview-Still 2) in
      let saved = save_view-Still env map in search (still_rules, saved) depth 16

  -- To all, the sender included.
  send_all-Follows :
      (scope : Scope) (m : Message)
      → Moves (Follows env scope) (step env m)
      → Moves (Follows env scope) (send_msg env (step env) m [])
  unfolding send_msg deliver
  send_all-Follows scope m here =
      let order = Follows-order env scope in
      let added = follows env scope (
        modify-Still env (λ c. record c { progress = add_message m [] c.progress }) (λ c. refl)
          (λ c. refl) λ c. refl) in
      search (moves_rules, order) depth 12

  pub send-Follows :
      (state root : Bytes) (x : Option Data) (c : Consensus env)
      → After (send env state root x c) (λ _ d. Follows env (scope_of_send env state root c) c d)
  unfolding send propose new_header modify ◌>>=◌ pure
  send-Follows state root x c = go c.waiting_data
    where
      go :
          (b : Bool)
          → After
              (when env b
                (do modify (λ c. record c { waiting_data = false }); propose env state root x)
                c)
              (λ _ d. Follows env (scope_of_send env state root c) c d)
      go false = (Follows-order env (scope_of_send env state root c)).refl_at c
      go true =
          lift-then (λ _ d. Follows env (scope_of_send env state root c) c d)
            (env.signer.sign (header_hash env (new_header env state root c)))
            (record c { waiting_data = false }) _
            λ sig signed.
              After-then (Follows-order env (scope_of_send env state root c)) c
                (record c { waiting_data = false }) _
                (Still-Follows env (scope_of_send env state root c)
                  (record { headers = λ k. refl; locked = refl; commit = refl }))
                (send_all-Follows (scope_of_send env state root c) _ (step-Follows (proposal _)))
