-- ===== src/Wire/SyncRequest/RoundTrip.antt =====
-- types/types.pb.go: Marshal and Unmarshal of SyncRequest, one after the other.
use coded_hotterstuff.Wire.Header.RoundTrip.{marshal_header-ReadsBack}
use coded_hotterstuff.Wire.Fields.{unmarshal}
use coded_hotterstuff.Wire.Header.{empty_header, header_field, marshal_header}
use coded_hotterstuff.Prelude.Bytes.{IsU64}
use coded_hotterstuff.Wire.Fields.Written.{
  end_read, uint_read, OrNil-map, message_read, ReadsIn, unmarshal_read, OrNil,
}
use coded_hotterstuff.Types.{SyncRequest}
use coded_hotterstuff.Prelude.{refl, length, ◌≡◌, ◌^◌, ◌<◌, ℕ}
use coded_hotterstuff.Wire.SyncRequest.{
  empty_sync_request, sync_request_field, marshal_sync_request, unmarshal_sync_request,
}
use coded_hotterstuff.Wire.Varint.{ok}
use coded_hotterstuff.Wire.Header.RoundTrip as HeaderRoundTrip

-- What Go's types and memory grant.
pub record IsEncodable (v : SyncRequest) : Type 0 where
  pub from : OrNil HeaderRoundTrip.IsEncodable v.from
  pub limit : IsU64 v.limit
  pub size : length (marshal_sync_request v) < 2 ^ 63

module _ (l : ℕ) (small : l < 2 ^ 63) where
  read_sync_request :
      (v : SyncRequest)
      → IsEncodable v
      → ReadsIn sync_request_field l small empty_sync_request (marshal_sync_request v) v
  unfolding sync_request_field marshal_sync_request
  read_sync_request v e =
      message_read sync_request_field l small 0x0a v.from marshal_header
        (unmarshal header_field empty_header) (λ x. record { from = x; limit = 0 }) v _ refl refl
        (λ x bs inner behind from p q. rw p (rw q refl))
        (OrNil-map v.from e.from marshal_header-ReadsBack)
        (uint_read sync_request_field l small 0x10 v.limit
          (λ x. record { from = v.from; limit = x }) v _ refl refl (λ x bs behind from p. rw p refl)
          e.limit (end_read sync_request_field l small v))

pub unmarshal_sync_request-marshal_sync_request :
    (v : SyncRequest) → IsEncodable v → unmarshal_sync_request (marshal_sync_request v) ≡ ok v
unfolding unmarshal_sync_request
unmarshal_sync_request-marshal_sync_request v e =
    unmarshal_read sync_request_field (length (marshal_sync_request v)) e.size empty_sync_request v
      (marshal_sync_request v) refl (read_sync_request (length (marshal_sync_request v)) e.size v e)
