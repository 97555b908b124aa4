-- ===== src/Wire/NewView/RoundTrip.antt =====
-- types/types.pb.go: Marshal and Unmarshal of NewView, one after the other.
use coded_hotterstuff.Wire.Certificate.RoundTrip.{marshal_certificate-ReadsBack}
use coded_hotterstuff.Wire.Fields.{unmarshal}
use coded_hotterstuff.Wire.Certificate.{empty_certificate, certificate_field, marshal_certificate}
use coded_hotterstuff.Wire.Fields.Written.{
  end_read, OrNil-map, message_read, bytes_read, uint_read, ReadsIn, unmarshal_read, OrNil,
}
use coded_hotterstuff.Prelude.Bytes.{IsU64}
use coded_hotterstuff.Prelude.{none, [], refl, length, ◌≡◌, ◌^◌, ◌<◌, ℕ}
use coded_hotterstuff.Wire.NewView.{
  empty_newview, newview_field, marshal_newview, unmarshal_newview,
}
use coded_hotterstuff.Types.{NewView}
use coded_hotterstuff.Wire.Varint.{ok}
use coded_hotterstuff.Wire.Certificate.RoundTrip as CertificateRoundTrip

-- What Go's types and memory grant.
pub record IsEncodable (v : NewView) : Type 0 where
  pub view : IsU64 v.view
  pub voter : IsU64 v.voter
  pub cert : OrNil CertificateRoundTrip.IsEncodable v.cert
  pub size : length (marshal_newview v) < 2 ^ 63

module _ (l : ℕ) (small : l < 2 ^ 63) where
  read_newview :
      (v : NewView)
      → IsEncodable v
      → ReadsIn newview_field l small empty_newview (marshal_newview v) v
  unfolding newview_field marshal_newview
  read_newview v e =
      uint_read newview_field l small 0x08 v.view
        (λ x. record { view = x; voter = 0; sig = []; cert = none }) v _ refl refl
        (λ x bs behind from p. rw p refl) e.view
        (uint_read newview_field l small 0x10 v.voter
          (λ x. record { view = v.view; voter = x; sig = []; cert = none }) v _ refl refl
          (λ x bs behind from p. rw p refl) e.voter
          (bytes_read newview_field l small 0x1a v.sig
            (λ x. record { view = v.view; voter = v.voter; sig = x; cert = none }) v _ refl refl
            (λ x bs behind from p. rw p refl)
            (message_read newview_field l small 0x22 v.cert marshal_certificate
              (unmarshal certificate_field empty_certificate)
              (λ x. record { view = v.view; voter = v.voter; sig = v.sig; cert = x }) v _ refl refl
              (λ x bs inner behind from p q. rw p (rw q refl))
              (OrNil-map v.cert e.cert marshal_certificate-ReadsBack)
              (end_read newview_field l small v))))

pub unmarshal_newview-marshal_newview :
    (v : NewView) → IsEncodable v → unmarshal_newview (marshal_newview v) ≡ ok v
unfolding unmarshal_newview
unmarshal_newview-marshal_newview v e =
    unmarshal_read newview_field (length (marshal_newview v)) e.size empty_newview v
      (marshal_newview v) refl (read_newview (length (marshal_newview v)) e.size v e)
