-- ===== src/Wire/Sync/Size.antt =====
-- types/types.pb.go: Marshal and Size of Sync.
use coded_hotterstuff.Wire.Fields.Written.{All-map}
use coded_hotterstuff.Wire.Block.Size.{marshal_block-HasSize}
use coded_hotterstuff.Wire.Block.{size_block, marshal_block}
use coded_hotterstuff.Wire.Fields.Sized.{messages-IsSized, HasSize}
use coded_hotterstuff.Types.{Sync}
use coded_hotterstuff.Wire.Sync.{size_sync, marshal_sync}
use coded_hotterstuff.Wire.Sync.RoundTrip.{IsEncodable}

pub marshal_sync-HasSize : (v : Sync) → IsEncodable v → HasSize marshal_sync size_sync v
unfolding marshal_sync size_sync
marshal_sync-HasSize v e =
    messages-IsSized 0x0a v.blocks marshal_block size_block
      (All-map v.blocks marshal_block-HasSize e.blocks)
