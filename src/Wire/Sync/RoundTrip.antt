-- ===== src/Wire/Sync/RoundTrip.antt =====
-- types/types.pb.go: Marshal and Unmarshal of Sync, one after the other.
use coded_hotterstuff.Wire.Block.{unmarshal_block, marshal_block}
use coded_hotterstuff.Wire.Fields.Written.{All-map, messages_read, ReadsIn, unmarshal_read}
use coded_hotterstuff.Types.{Sync}
use coded_hotterstuff.Wire.Sync.{empty_sync, marshal_sync, sync_field, unmarshal_sync}
use coded_hotterstuff.Prelude.{[], refl, ◌^◌, ◌<◌, ℕ, length, ◌≡◌, All}
use coded_hotterstuff.Wire.Block.RoundTrip as BlockRoundTrip
use coded_hotterstuff.Wire.Varint.{ok}

-- What Go's types and memory grant.
pub record IsEncodable (v : Sync) : Type 0 where
  pub blocks : All BlockRoundTrip.IsEncodable v.blocks
  pub size : length (marshal_sync v) < 2 ^ 63

read_sync :
    (l : ℕ) (small : l < 2 ^ 63) (v : Sync)
    → IsEncodable v
    → ReadsIn sync_field l small empty_sync (marshal_sync v) v
unfolding sync_field marshal_sync
read_sync l small v e =
    messages_read sync_field l small 0x0a v.blocks [] marshal_block unmarshal_block
      (λ xs. record { blocks = xs }) refl refl (λ ys x bs inner behind from p q. rw p (rw q refl))
      (All-map v.blocks BlockRoundTrip.unmarshal_block-marshal_block e.blocks)

pub unmarshal_sync-marshal_sync :
    (v : Sync) → IsEncodable v → unmarshal_sync (marshal_sync v) ≡ ok v
unfolding unmarshal_sync
unmarshal_sync-marshal_sync v e =
    unmarshal_read sync_field (length (marshal_sync v)) e.size empty_sync v (marshal_sync v) refl
      (read_sync (length (marshal_sync v)) e.size v e)
