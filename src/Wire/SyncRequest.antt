-- ===== src/Wire/SyncRequest.antt =====
-- types/types.pb.go: Marshal, Size and Unmarshal of SyncRequest.
pub mod RoundTrip
pub mod Size
use coded_hotterstuff.Wire.Header.{empty_header, size_header, header_field, marshal_header}
use coded_hotterstuff.Wire.Fields.{
  skip_field, read_uint_field, uint_size, or_new, uint_field, read_bytes_field, unmarshal,
  message_size, message_field,
}
use coded_hotterstuff.Prelude.Bytes.{Bytes}
use coded_hotterstuff.Types.{SyncRequest}
use coded_hotterstuff.Wire.Varint.{Result, ◌>>=◌, ok}
use coded_hotterstuff.Prelude.{some, ◌+◌, [], ℕ, none, ◌==◌, if◌then◌else◌}
use mathlib.Core.Option

unfoldable pub marshal_sync_request : SyncRequest → Bytes
marshal_sync_request v =
    message_field 0x0a (Option.map marshal_header v.from) (uint_field 0x10 v.limit [])

unfoldable pub size_sync_request : SyncRequest → ℕ
size_sync_request v = message_size (Option.map size_header v.from) + uint_size v.limit

-- &types.SyncRequest{}
abbrev pub empty_sync_request : SyncRequest
empty_sync_request = record { from = none; limit = 0 }

unfoldable pub sync_request_field :
    SyncRequest → ℕ → ℕ → ℕ → Bytes → Bytes → Result (SyncRequest × Bytes)
sync_request_field m l num wt bs from_tag =
    if num == 1
    then (do
      (b, rest) ← read_bytes_field l wt bs
      x ← unmarshal header_field (or_new empty_header m.from) b
      ok (record m { from = some x }, rest))
    else if num == 2
    then (do (v, rest) ← read_uint_field wt bs; ok (record m { limit = v }, rest))
    else (do rest ← skip_field l from_tag; ok (m, rest))

unfoldable pub unmarshal_sync_request : Bytes → Result SyncRequest
unfolding sync_request_field
unmarshal_sync_request bs = unmarshal sync_request_field empty_sync_request bs
