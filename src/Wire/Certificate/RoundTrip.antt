-- ===== src/Wire/Certificate/RoundTrip.antt =====
-- types/types.pb.go: Marshal and Unmarshal of Certificate, one after the other.
use coded_hotterstuff.Wire.Fields.Sized.{message_field-length}
use coded_hotterstuff.Wire.Fields.Written.{
  end_read, message_read, bytes_read, ReadsIn, unmarshal_read, OrNil, ReadsBack,
}
use mathlib.Core.Option
use coded_hotterstuff.Prelude.{ℕ, ◌<◌, ◌^◌, ◌≡◌, refl, [], length, Option, none, some, arith}
use coded_hotterstuff.Prelude.Bytes.{Bytes}
use coded_hotterstuff.Types.{AggregatedSignature, Certificate}
use coded_hotterstuff.Wire.Varint.{ok}
use coded_hotterstuff.Wire.Fields.{message_field, unmarshal}
use coded_hotterstuff.Wire.Fields.RoundTrip.{bytes_field-length}
use coded_hotterstuff.Wire.Signature.{empty_signature, unmarshal_signature, marshal_signature}
use coded_hotterstuff.Wire.Signature.RoundTrip.{
  marshal_signature-ReadsBack, unmarshal_signature-marshal_signature,
}
use coded_hotterstuff.Wire.Signature.RoundTrip
use coded_hotterstuff.Wire.Certificate.{
  marshal_certificate, certificate_field, empty_certificate, unmarshal_certificate,
}

abbrev pub SigEncodable : Option AggregatedSignature → Type 0
SigEncodable none = Unit {0}
SigEncodable (some s) = RoundTrip.IsEncodable s

pub record IsEncodable (c : Certificate) : Type 0 where
  pub sig : SigEncodable c.sig
  pub size : length (marshal_certificate c) < 2 ^ 63

-- Unmarshal of the signature gives it back when it fits into the buffer.
sig-ReadsBack :
    (sig : Option AggregatedSignature) (rest : Bytes)
    → SigEncodable sig
    → length (message_field 0x12 (Option.map marshal_signature sig) rest) < 2 ^ 63
    → OrNil (ReadsBack marshal_signature (unmarshal_signature empty_signature)) sig
sig-ReadsBack none rest e small = tt
sig-ReadsBack (some s) rest e small =
    marshal_signature-ReadsBack s
      (e, omega (arith, message_field-length 0x12 (marshal_signature s) rest, small))

read_certificate :
    (l : ℕ) (small : l < 2 ^ 63) (c : Certificate)
    → SigEncodable c.sig
    → ReadsIn certificate_field l small empty_certificate (marshal_certificate c) c
unfolding certificate_field marshal_certificate
read_certificate l small c e within =
    let long =
      bytes_field-length 0x0a c.block
        (message_field 0x12 (Option.map marshal_signature c.sig) []) in
    bytes_read certificate_field l small 0x0a c.block (λ x. record { block = x; sig = none }) c _
      refl refl (λ x bs behind from p. rw p refl)
      (message_read certificate_field l small 0x12 c.sig marshal_signature
        (unmarshal_signature empty_signature) (λ x. record { block = c.block; sig = x }) c [] refl
        refl (λ x bs inner behind from p q. rw p (rw q refl))
        (sig-ReadsBack c.sig [] e (omega (arith, long, within, small)))
        (end_read certificate_field l small c))
      within

-- Unmarshal gives back every certificate that Marshal wrote, if the encoding is shorter than
-- 2^63 bytes, its voters are uint64s, and its signature's bytes are nil or not empty.
pub unmarshal_certificate-marshal_certificate :
    (c : Certificate) → IsEncodable c → unmarshal_certificate (marshal_certificate c) ≡ ok c
unfolding unmarshal_certificate
unmarshal_certificate-marshal_certificate c e =
    unmarshal_read certificate_field (length (marshal_certificate c)) e.size empty_certificate c
      (marshal_certificate c) refl
      (read_certificate (length (marshal_certificate c)) e.size c e.sig)

pub marshal_certificate-ReadsBack :
    (v : Certificate)
    → IsEncodable v
    → ReadsBack marshal_certificate (unmarshal certificate_field empty_certificate) v
marshal_certificate-ReadsBack v e =
    unfold unmarshal_certificate in unmarshal_certificate-marshal_certificate v e
