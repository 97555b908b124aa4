-- ===== src/Wire/Proposal/RoundTrip.antt =====
-- types/types.pb.go: Marshal and Unmarshal of Proposal, one after the other.
use coded_hotterstuff.Wire.Timeout.RoundTrip.{marshal_timeout-ReadsBack}
use coded_hotterstuff.Wire.Timeout.{empty_timeout, timeout_field, marshal_timeout}
use coded_hotterstuff.Wire.Certificate.RoundTrip.{marshal_certificate-ReadsBack}
use coded_hotterstuff.Wire.Certificate.{empty_certificate, certificate_field, marshal_certificate}
use coded_hotterstuff.Wire.Data.RoundTrip.{marshal_data-ReadsBack}
use coded_hotterstuff.Wire.Data.{empty_data, data_field, marshal_data}
use coded_hotterstuff.Wire.Header.RoundTrip.{marshal_header-ReadsBack}
use coded_hotterstuff.Wire.Fields.{unmarshal}
use coded_hotterstuff.Wire.Header.{empty_header, header_field, marshal_header}
use coded_hotterstuff.Wire.Fields.Written.{
  end_read, bytes_read, OrNil-map, message_read, ReadsIn, unmarshal_read, OrNil,
}
use coded_hotterstuff.Types.{Proposal}
use coded_hotterstuff.Prelude.{[], none, refl, length, ◌≡◌, ◌^◌, ◌<◌, ℕ}
use coded_hotterstuff.Wire.Proposal.{
  empty_proposal, proposal_field, marshal_proposal, unmarshal_proposal,
}
use coded_hotterstuff.Wire.Varint.{ok}
use coded_hotterstuff.Wire.Header.RoundTrip as HeaderRoundTrip
use coded_hotterstuff.Wire.Data.RoundTrip as DataRoundTrip
use coded_hotterstuff.Wire.Certificate.RoundTrip as CertificateRoundTrip
use coded_hotterstuff.Wire.Timeout.RoundTrip as TimeoutRoundTrip

-- What Go's types and memory grant.
pub record IsEncodable (v : Proposal) : Type 0 where
  pub header : OrNil HeaderRoundTrip.IsEncodable v.header
  pub payload : OrNil DataRoundTrip.IsEncodable v.payload
  pub parent_cert : OrNil CertificateRoundTrip.IsEncodable v.parent_cert
  pub timeout : OrNil TimeoutRoundTrip.IsEncodable v.timeout
  pub size : length (marshal_proposal v) < 2 ^ 63

module _ (l : ℕ) (small : l < 2 ^ 63) where
  read_proposal :
      (v : Proposal)
      → IsEncodable v
      → ReadsIn proposal_field l small empty_proposal (marshal_proposal v) v
  unfolding proposal_field marshal_proposal
  read_proposal v e =
      message_read proposal_field l small 0x0a v.header marshal_header
        (unmarshal header_field empty_header)
        (λ x. record { header = x; payload = none; sig = []; parent_cert = none; timeout = none }) v
        _ refl refl (λ x bs inner behind from p q. rw p (rw q refl))
        (OrNil-map v.header e.header marshal_header-ReadsBack)
        (message_read proposal_field l small 0x12 v.payload marshal_data
          (unmarshal data_field empty_data)
          (λ x. record {
            header = v.header;
            payload = x;
            sig = [];
            parent_cert = none;
            timeout = none;
          })
          v _ refl refl (λ x bs inner behind from p q. rw p (rw q refl))
          (OrNil-map v.payload e.payload marshal_data-ReadsBack)
          (bytes_read proposal_field l small 0x1a v.sig
            (λ x. record {
              header = v.header;
              payload = v.payload;
              sig = x;
              parent_cert = none;
              timeout = none;
            })
            v _ refl refl (λ x bs behind from p. rw p refl)
            (message_read proposal_field l small 0x22 v.parent_cert marshal_certificate
              (unmarshal certificate_field empty_certificate)
              (λ x. record {
                header = v.header;
                payload = v.payload;
                sig = v.sig;
                parent_cert = x;
                timeout = none;
              })
              v _ refl refl (λ x bs inner behind from p q. rw p (rw q refl))
              (OrNil-map v.parent_cert e.parent_cert marshal_certificate-ReadsBack)
              (message_read proposal_field l small 0x2a v.timeout marshal_timeout
                (unmarshal timeout_field empty_timeout)
                (λ x. record {
                  header = v.header;
                  payload = v.payload;
                  sig = v.sig;
                  parent_cert = v.parent_cert;
                  timeout = x;
                })
                v _ refl refl (λ x bs inner behind from p q. rw p (rw q refl))
                (OrNil-map v.timeout e.timeout marshal_timeout-ReadsBack)
                (end_read proposal_field l small v)))))

pub unmarshal_proposal-marshal_proposal :
    (v : Proposal) → IsEncodable v → unmarshal_proposal (marshal_proposal v) ≡ ok v
unfolding unmarshal_proposal
unmarshal_proposal-marshal_proposal v e =
    unmarshal_read proposal_field (length (marshal_proposal v)) e.size empty_proposal v
      (marshal_proposal v) refl (read_proposal (length (marshal_proposal v)) e.size v e)
