-- ===== src/Wire/Block/RoundTrip.antt =====
-- types/types.pb.go: Marshal and Unmarshal of Block, one after the other.
use coded_hotterstuff.Wire.Certificate.RoundTrip.{marshal_certificate-ReadsBack}
use coded_hotterstuff.Wire.Certificate.{empty_certificate, certificate_field, marshal_certificate}
use coded_hotterstuff.Wire.Data.RoundTrip.{marshal_data-ReadsBack}
use coded_hotterstuff.Wire.Data.{empty_data, data_field, marshal_data}
use coded_hotterstuff.Wire.Header.RoundTrip.{marshal_header-ReadsBack}
use coded_hotterstuff.Wire.Fields.{unmarshal}
use coded_hotterstuff.Wire.Header.{empty_header, header_field, marshal_header}
use coded_hotterstuff.Wire.Fields.Written.{
  end_read, OrNil-map, message_read, ReadsIn, unmarshal_read, OrNil,
}
use coded_hotterstuff.Prelude.{none, refl, ◌^◌, length, ◌≡◌, ◌<◌, ℕ}
use coded_hotterstuff.Types.{Block}
use coded_hotterstuff.Wire.Block.{empty_block, block_field, marshal_block, unmarshal_block}
use coded_hotterstuff.Wire.Varint.{ok}
use coded_hotterstuff.Wire.Header.RoundTrip as HeaderRoundTrip
use coded_hotterstuff.Wire.Data.RoundTrip as DataRoundTrip
use coded_hotterstuff.Wire.Certificate.RoundTrip as CertificateRoundTrip

-- What Go's types and memory grant.
pub record IsEncodable (v : Block) : Type 0 where
  pub header : OrNil HeaderRoundTrip.IsEncodable v.header
  pub payload : OrNil DataRoundTrip.IsEncodable v.payload
  pub cert : OrNil CertificateRoundTrip.IsEncodable v.cert
  pub size : length (marshal_block v) < 2 ^ 63

module _ (l : ℕ) (small : l < 2 ^ 63) where
  read_block :
      (v : Block) → IsEncodable v → ReadsIn block_field l small empty_block (marshal_block v) v
  unfolding block_field marshal_block
  read_block v e =
      message_read block_field l small 0x0a v.header marshal_header
        (unmarshal header_field empty_header)
        (λ x. record { header = x; payload = none; cert = none }) v _ refl refl
        (λ x bs inner behind from p q. rw p (rw q refl))
        (OrNil-map v.header e.header marshal_header-ReadsBack)
        (message_read block_field l small 0x12 v.payload marshal_data
          (unmarshal data_field empty_data)
          (λ x. record { header = v.header; payload = x; cert = none }) v _ refl refl
          (λ x bs inner behind from p q. rw p (rw q refl))
          (OrNil-map v.payload e.payload marshal_data-ReadsBack)
          (message_read block_field l small 0x1a v.cert marshal_certificate
            (unmarshal certificate_field empty_certificate)
            (λ x. record { header = v.header; payload = v.payload; cert = x }) v _ refl refl
            (λ x bs inner behind from p q. rw p (rw q refl))
            (OrNil-map v.cert e.cert marshal_certificate-ReadsBack)
            (end_read block_field l small v)))

pub unmarshal_block-marshal_block :
    (v : Block) → IsEncodable v → unmarshal_block (marshal_block v) ≡ ok v
unfolding unmarshal_block
unmarshal_block-marshal_block v e =
    unmarshal_read block_field (length (marshal_block v)) e.size empty_block v (marshal_block v)
      refl (read_block (length (marshal_block v)) e.size v e)
