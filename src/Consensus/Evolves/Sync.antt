-- ===== src/Consensus/Evolves/Sync.antt =====
-- consensus.go, onSync: `Evolves` for the handler of blocks that were asked for.
use coded_hotterstuff.Store.Laws.{save_block-SameCounters}
use coded_hotterstuff.Store.{save_block}
use coded_hotterstuff.Consensus.Handlers.{sync_parts, sync_block, sync_full, on_sync, sync_blocks}
use coded_hotterstuff.Consensus.Evolves.Frame.{persist-Keeps, Keeps}
use coded_hotterstuff.Types.{Block, Sync, Certificate, Data, Header}
use coded_hotterstuff.Env.{IsMap, Env}
use coded_hotterstuff.Prelude.{false, List, [], ◌∷◌, Option, none, some}
use coded_hotterstuff.Exec.Moves.{Moves-pure}
use coded_hotterstuff.Consensus.Evolves.{Evolves-order}
use coded_hotterstuff.Consensus.Evolves.Blocks.{update-Keeps, evolves_rules}

module _ (env : Env) (map : IsMap env) where
  sync_full-Keeps :
      (h : Header) (cert : Certificate) (x : Data) → Keeps env map (sync_full env h cert x)
  unfolding sync_full
  sync_full-Keeps h cert x =
      let save =
        persist-Keeps env map (λ d. save_block env d h cert x)
          (λ d e p. save_block-SameCounters env map d h cert x e p) in
      search (evolves_rules, update-Keeps) depth 12

  sync_block-Keeps : (b : Block) → Keeps env map (sync_block env b)
  unfolding sync_block
  sync_block-Keeps b = parts b.header b.cert b.payload
    where
      parts :
          (h : Option Header) (c : Option Certificate) (x : Option Data)
          → Keeps env map (sync_parts env h c x)
      parts none c x = Moves-pure (Evolves-order env) false
      parts (some h) none x = Moves-pure (Evolves-order env) false
      parts (some h) (some c) none = Moves-pure (Evolves-order env) false
      parts (some h) (some c) (some x) = sync_full-Keeps h c x

  sync_blocks-Keeps : (bs : List Block) → Keeps env map (sync_blocks env bs)
  unfolding sync_blocks
  sync_blocks-Keeps [] = search evolves_rules
  sync_blocks-Keeps (b ∷ bs) =
      let later = sync_blocks-Keeps bs in search (evolves_rules, sync_block-Keeps)

  pub on_sync-Keeps : (msg : Sync) → Keeps env map (on_sync env msg)
  unfolding on_sync
  on_sync-Keeps msg = sync_blocks-Keeps msg.blocks
