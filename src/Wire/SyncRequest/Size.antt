-- ===== src/Wire/SyncRequest/Size.antt =====
-- types/types.pb.go: Marshal and Size of SyncRequest.
use coded_hotterstuff.Prelude.{arith}
use coded_hotterstuff.Wire.Header.Size.{marshal_header-HasSize}
use coded_hotterstuff.Wire.Fields.Written.{OrNil-map}
use coded_hotterstuff.Wire.Header.{size_header, marshal_header}
use coded_hotterstuff.Wire.Fields.Sized.{end-IsSized, uint-IsSized, message-IsSized, HasSize}
use coded_hotterstuff.Types.{SyncRequest}
use coded_hotterstuff.Wire.SyncRequest.{size_sync_request, marshal_sync_request}
use coded_hotterstuff.Wire.SyncRequest.RoundTrip.{IsEncodable}

pub marshal_sync_request-HasSize :
    (v : SyncRequest) → IsEncodable v → HasSize marshal_sync_request size_sync_request v
unfolding marshal_sync_request size_sync_request
marshal_sync_request-HasSize v e small =
    let whole =
      (message-IsSized 0x0a v.from marshal_header size_header _ _
          (OrNil-map v.from e.from marshal_header-HasSize)
          (uint-IsSized 0x10 v.limit _ _ e.limit end-IsSized))
        small in
    omega (arith, whole)
