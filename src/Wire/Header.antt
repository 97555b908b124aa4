-- ===== src/Wire/Header.antt =====
-- types/types.pb.go: Marshal, Size and Unmarshal of Header.
pub mod RoundTrip
pub mod Size
pub mod Yields
use coded_hotterstuff.Prelude.{ℕ, ◌+◌, ◌==◌, if◌then◌else◌, List, [], length}
use coded_hotterstuff.Prelude.Bytes.{Bytes}
use coded_hotterstuff.Types.{Header}
use coded_hotterstuff.Wire.Varint.{Result, ok, ◌>>=◌}
use coded_hotterstuff.Wire.Fields.{
  uint_field, bytes_field, uint_size, bytes_size, read_uint_field, read_bytes_field, skip_field,
  unmarshal,
}

unfoldable pub marshal_header : Header → Bytes
marshal_header h = uint_field 0x08 h.view (
    bytes_field 0x12 h.parent (
      uint_field 0x18 h.parent_view
        (bytes_field 0x22 h.data_root (bytes_field 0x2a h.state_root []))))

unfoldable pub size_header : Header → ℕ
size_header h =
    uint_size h.view
    + bytes_size (length h.parent)
    + uint_size h.parent_view
    + bytes_size (length h.data_root)
    + bytes_size (length h.state_root)

-- &types.Header{}
abbrev pub empty_header : Header
empty_header = record { view = 0; parent = []; parent_view = 0; data_root = []; state_root = [] }

-- The switch on the field's number.
unfoldable pub header_field : Header → ℕ → ℕ → ℕ → Bytes → Bytes → Result (Header × Bytes)
header_field m l num wt bs from_tag =
    if num == 1
    then (do (v, rest) ← read_uint_field wt bs; ok (record m { view = v }, rest))
    else if num == 2
    then (do (b, rest) ← read_bytes_field l wt bs; ok (record m { parent = b }, rest))
    else if num == 3
    then (do (v, rest) ← read_uint_field wt bs; ok (record m { parent_view = v }, rest))
    else if num == 4
    then (do (b, rest) ← read_bytes_field l wt bs; ok (record m { data_root = b }, rest))
    else if num == 5
    then (do (b, rest) ← read_bytes_field l wt bs; ok (record m { state_root = b }, rest))
    else (do rest ← skip_field l from_tag; ok (m, rest))

unfoldable pub unmarshal_header : Bytes → Result Header
unfolding header_field
unmarshal_header bs = unmarshal header_field empty_header bs
