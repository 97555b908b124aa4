-- ===== src/Wire/Block.antt =====
-- types/types.pb.go: Marshal, Size and Unmarshal of Block.
pub mod RoundTrip
pub mod Size
use coded_hotterstuff.Wire.Certificate.{
  empty_certificate, certificate_field, size_certificate, marshal_certificate,
}
use coded_hotterstuff.Wire.Data.{empty_data, data_field, size_data, marshal_data}
use coded_hotterstuff.Wire.Header.{empty_header, header_field, size_header, marshal_header}
use coded_hotterstuff.Wire.Fields.{
  skip_field, or_new, message_size, unmarshal, read_bytes_field, message_field,
}
use coded_hotterstuff.Types.{Block}
use coded_hotterstuff.Prelude.Bytes.{Bytes}
use coded_hotterstuff.Wire.Varint.{Result, ◌>>=◌, ok}
use coded_hotterstuff.Prelude.{some, [], ◌+◌, none, ℕ, ◌==◌, if◌then◌else◌}
use mathlib.Core.Option

unfoldable pub marshal_block : Block → Bytes
marshal_block v = message_field 0x0a (Option.map marshal_header v.header) (
    message_field 0x12 (Option.map marshal_data v.payload)
      (message_field 0x1a (Option.map marshal_certificate v.cert) []))

unfoldable pub size_block : Block → ℕ
size_block v =
    message_size (Option.map size_header v.header)
    + message_size (Option.map size_data v.payload)
    + message_size (Option.map size_certificate v.cert)

-- &types.Block{}
abbrev pub empty_block : Block
empty_block = record { header = none; payload = none; cert = none }

unfoldable pub block_field : Block → ℕ → ℕ → ℕ → Bytes → Bytes → Result (Block × Bytes)
block_field m l num wt bs from_tag =
    if num == 1
    then (do
      (b, rest) ← read_bytes_field l wt bs
      x ← unmarshal header_field (or_new empty_header m.header) b
      ok (record m { header = some x }, rest))
    else if num == 2
    then (do
      (b, rest) ← read_bytes_field l wt bs
      x ← unmarshal data_field (or_new empty_data m.payload) b
      ok (record m { payload = some x }, rest))
    else if num == 3
    then (do
      (b, rest) ← read_bytes_field l wt bs
      x ← unmarshal certificate_field (or_new empty_certificate m.cert) b
      ok (record m { cert = some x }, rest))
    else (do rest ← skip_field l from_tag; ok (m, rest))

unfoldable pub unmarshal_block : Bytes → Result Block
unfolding block_field
unmarshal_block bs = unmarshal block_field empty_block bs
