-- ===== src/Wire/Certificate.antt =====
-- types/types.pb.go: Marshal, Size and Unmarshal of Certificate.
pub mod RoundTrip
pub mod Size
pub mod Yields
use coded_hotterstuff.Prelude.{ℕ, ◌+◌, ◌==◌, if◌then◌else◌, List, [], length, Option, none, some}
use coded_hotterstuff.Prelude.Bytes.{Bytes}
use coded_hotterstuff.Types.{Certificate, AggregatedSignature}
use coded_hotterstuff.Wire.Varint.{Result, ok, ◌>>=◌}
use coded_hotterstuff.Wire.Fields.{
  bytes_field, message_field, bytes_size, message_size, read_bytes_field, skip_field, unmarshal,
}
use coded_hotterstuff.Wire.Signature.{
  marshal_signature, size_signature, empty_signature, unmarshal_signature,
}
use mathlib.Core.Option

unfoldable pub marshal_certificate : Certificate → Bytes
marshal_certificate c =
    bytes_field 0x0a c.block (message_field 0x12 (Option.map marshal_signature c.sig) [])

unfoldable pub size_certificate : Certificate → ℕ
size_certificate c = bytes_size (length c.block) + message_size (Option.map size_signature c.sig)

-- `if m.Sig == nil { m.Sig = &AggregatedSignature{} }`
abbrev pub signature_or_new : Option AggregatedSignature → AggregatedSignature
signature_or_new none = empty_signature
signature_or_new (some s) = s

unfoldable pub certificate_field :
    Certificate → ℕ → ℕ → ℕ → Bytes → Bytes → Result (Certificate × Bytes)
certificate_field m l num wt bs from_tag =
    if num == 1
    then (do (b, rest) ← read_bytes_field l wt bs; ok (record m { block = b }, rest))
    else if num == 2
    then (do
      (b, rest) ← read_bytes_field l wt bs
      s ← unmarshal_signature (signature_or_new m.sig) b
      ok (record m { sig = some s }, rest))
    else (do rest ← skip_field l from_tag; ok (m, rest))

-- &types.Certificate{}
abbrev pub empty_certificate : Certificate
empty_certificate = record { block = []; sig = none }

unfoldable pub unmarshal_certificate : Bytes → Result Certificate
unfolding certificate_field
unmarshal_certificate bs = unmarshal certificate_field empty_certificate bs
