-- ===== src/Wire/Timeout/RoundTrip.antt =====
-- types/types.pb.go: Marshal and Unmarshal of TimeoutCertificate, one after the other.
use coded_hotterstuff.Wire.Signature.RoundTrip.{marshal_signature-ReadsBack}
use coded_hotterstuff.Wire.Signature.{empty_signature, unmarshal_signature, marshal_signature}
use coded_hotterstuff.Wire.Fields.{unmarshal}
use coded_hotterstuff.Prelude.Bytes.{IsU64}
use coded_hotterstuff.Wire.Fields.Written.{
  end_read, OrNil-map, message_read, uint_read, ReadsIn, unmarshal_read, OrNil, ReadsBack,
}
use coded_hotterstuff.Wire.Timeout.{
  empty_timeout, timeout_field, marshal_timeout, unmarshal_timeout,
}
use coded_hotterstuff.Prelude.{none, refl, length, ◌^◌, ◌≡◌, ◌<◌, ℕ}
use coded_hotterstuff.Types.{TimeoutCertificate}
use coded_hotterstuff.Wire.Varint.{ok}
use coded_hotterstuff.Wire.Signature.RoundTrip as SignatureRoundTrip

-- What Go's types and memory grant.
pub record IsEncodable (v : TimeoutCertificate) : Type 0 where
  pub view : IsU64 v.view
  pub sig : OrNil SignatureRoundTrip.IsSmall v.sig
  pub size : length (marshal_timeout v) < 2 ^ 63

module _ (l : ℕ) (small : l < 2 ^ 63) where
  read_timeout :
      (v : TimeoutCertificate)
      → IsEncodable v
      → ReadsIn timeout_field l small empty_timeout (marshal_timeout v) v
  unfolding timeout_field marshal_timeout
  read_timeout v e =
      uint_read timeout_field l small 0x08 v.view (λ x. record { view = x; sig = none }) v _ refl
        refl (λ x bs behind from p. rw p refl) e.view
        (message_read timeout_field l small 0x12 v.sig marshal_signature
          (unmarshal_signature empty_signature) (λ x. record { view = v.view; sig = x }) v _ refl
          refl (λ x bs inner behind from p q. rw p (rw q refl))
          (OrNil-map v.sig e.sig marshal_signature-ReadsBack) (end_read timeout_field l small v))

pub unmarshal_timeout-marshal_timeout :
    (v : TimeoutCertificate) → IsEncodable v → unmarshal_timeout (marshal_timeout v) ≡ ok v
unfolding unmarshal_timeout
unmarshal_timeout-marshal_timeout v e =
    unmarshal_read timeout_field (length (marshal_timeout v)) e.size empty_timeout v
      (marshal_timeout v) refl (read_timeout (length (marshal_timeout v)) e.size v e)

pub marshal_timeout-ReadsBack :
    (v : TimeoutCertificate)
    → IsEncodable v
    → ReadsBack marshal_timeout (unmarshal timeout_field empty_timeout) v
marshal_timeout-ReadsBack v e = unfold unmarshal_timeout in unmarshal_timeout-marshal_timeout v e
