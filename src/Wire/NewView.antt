-- ===== src/Wire/NewView.antt =====
-- types/types.pb.go: Marshal, Size and Unmarshal of NewView.
pub mod RoundTrip
pub mod Size
use coded_hotterstuff.Wire.Certificate.{
  size_certificate, empty_certificate, marshal_certificate, certificate_field,
}
use coded_hotterstuff.Wire.Fields.{
  skip_field, message_size, or_new, bytes_size, read_bytes_field, message_field, bytes_field,
  unmarshal, read_uint_field, uint_size, uint_field,
}
use coded_hotterstuff.Types.{NewView}
use coded_hotterstuff.Prelude.Bytes.{Bytes}
use coded_hotterstuff.Wire.Varint.{Result, ◌>>=◌, ok}
use coded_hotterstuff.Prelude.{some, length, ◌+◌, none, ℕ, [], ◌==◌, if◌then◌else◌}
use mathlib.Core.Option

unfoldable pub marshal_newview : NewView → Bytes
marshal_newview v = uint_field 0x08 v.view (
    uint_field 0x10 v.voter
      (bytes_field 0x1a v.sig (message_field 0x22 (Option.map marshal_certificate v.cert) [])))

unfoldable pub size_newview : NewView → ℕ
size_newview v =
    uint_size v.view
    + uint_size v.voter
    + bytes_size (length v.sig)
    + message_size (Option.map size_certificate v.cert)

-- &types.NewView{}
abbrev pub empty_newview : NewView
empty_newview = record { view = 0; voter = 0; sig = []; cert = none }

unfoldable pub newview_field : NewView → ℕ → ℕ → ℕ → Bytes → Bytes → Result (NewView × Bytes)
newview_field m l num wt bs from_tag =
    if num == 1
    then (do (v, rest) ← read_uint_field wt bs; ok (record m { view = v }, rest))
    else if num == 2
    then (do (v, rest) ← read_uint_field wt bs; ok (record m { voter = v }, rest))
    else if num == 3
    then (do (b, rest) ← read_bytes_field l wt bs; ok (record m { sig = b }, rest))
    else if num == 4
    then (do
      (b, rest) ← read_bytes_field l wt bs
      x ← unmarshal certificate_field (or_new empty_certificate m.cert) b
      ok (record m { cert = some x }, rest))
    else (do rest ← skip_field l from_tag; ok (m, rest))

unfoldable pub unmarshal_newview : Bytes → Result NewView
unfolding newview_field
unmarshal_newview bs = unmarshal newview_field empty_newview bs
