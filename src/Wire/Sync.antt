-- ===== src/Wire/Sync.antt =====
-- types/types.pb.go: Marshal, Size and Unmarshal of Sync.
pub mod RoundTrip
pub mod Size
use coded_hotterstuff.Wire.Block.{unmarshal_block, marshal_block, size_block}
use coded_hotterstuff.Wire.Fields.{
  skip_field, unmarshal, read_bytes_field, messages_field, messages_size,
}
use coded_hotterstuff.Prelude.Bytes.{Bytes}
use coded_hotterstuff.Types.{Sync}
use coded_hotterstuff.Prelude.{ℕ, ◌==◌, if◌then◌else◌, [], ◌∷◌, ◌++◌}
use coded_hotterstuff.Wire.Varint.{Result, ◌>>=◌, ok}

unfoldable pub marshal_sync : Sync → Bytes
marshal_sync v = messages_field 0x0a marshal_block v.blocks []

unfoldable pub size_sync : Sync → ℕ
size_sync v = messages_size size_block v.blocks

-- &types.Sync{}
abbrev pub empty_sync : Sync
empty_sync = record { blocks = [] }

unfoldable pub sync_field : Sync → ℕ → ℕ → ℕ → Bytes → Bytes → Result (Sync × Bytes)
sync_field m l num wt bs from_tag =
    if num == 1
    then (do
      (b, rest) ← read_bytes_field l wt bs
      x ← unmarshal_block b
      ok (record { blocks = m.blocks ++ x ∷ [] }, rest))
    else (do rest ← skip_field l from_tag; ok (m, rest))

unfoldable pub unmarshal_sync : Bytes → Result Sync
unfolding sync_field
unmarshal_sync bs = unmarshal sync_field empty_sync bs
