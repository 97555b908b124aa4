-- ===== src/Wire/Timeout.antt =====
-- types/types.pb.go: Marshal, Size and Unmarshal of TimeoutCertificate.
pub mod RoundTrip
pub mod Size
use coded_hotterstuff.Wire.Signature.{
  empty_signature, size_signature, unmarshal_signature, marshal_signature,
}
use coded_hotterstuff.Wire.Fields.{
  skip_field, or_new, message_size, read_bytes_field, message_field, read_uint_field, uint_size,
  unmarshal, uint_field,
}
use coded_hotterstuff.Prelude.Bytes.{Bytes}
use coded_hotterstuff.Types.{TimeoutCertificate}
use coded_hotterstuff.Wire.Varint.{Result, ◌>>=◌, ok}
use coded_hotterstuff.Prelude.{some, [], ◌+◌, ℕ, none, ◌==◌, if◌then◌else◌}
use mathlib.Core.Option

unfoldable pub marshal_timeout : TimeoutCertificate → Bytes
marshal_timeout v =
    uint_field 0x08 v.view (message_field 0x12 (Option.map marshal_signature v.sig) [])

unfoldable pub size_timeout : TimeoutCertificate → ℕ
size_timeout v = uint_size v.view + message_size (Option.map size_signature v.sig)

-- &types.TimeoutCertificate{}
abbrev pub empty_timeout : TimeoutCertificate
empty_timeout = record { view = 0; sig = none }

unfoldable pub timeout_field :
    TimeoutCertificate → ℕ → ℕ → ℕ → Bytes → Bytes → Result (TimeoutCertificate × Bytes)
timeout_field m l num wt bs from_tag =
    if num == 1
    then (do (v, rest) ← read_uint_field wt bs; ok (record m { view = v }, rest))
    else if num == 2
    then (do
      (b, rest) ← read_bytes_field l wt bs
      x ← unmarshal_signature (or_new empty_signature m.sig) b
      ok (record m { sig = some x }, rest))
    else (do rest ← skip_field l from_tag; ok (m, rest))

unfoldable pub unmarshal_timeout : Bytes → Result TimeoutCertificate
unfolding timeout_field
unmarshal_timeout bs = unmarshal timeout_field empty_timeout bs
