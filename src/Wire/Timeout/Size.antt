-- ===== src/Wire/Timeout/Size.antt =====
-- types/types.pb.go: Marshal and Size of TimeoutCertificate.
use coded_hotterstuff.Prelude.{arith}
use coded_hotterstuff.Wire.Signature.Size.{marshal_signature-HasSize}
use coded_hotterstuff.Wire.Fields.Written.{OrNil-map}
use coded_hotterstuff.Wire.Signature.{size_signature, marshal_signature}
use coded_hotterstuff.Wire.Fields.Sized.{end-IsSized, message-IsSized, uint-IsSized, HasSize}
use coded_hotterstuff.Types.{TimeoutCertificate}
use coded_hotterstuff.Wire.Timeout.{size_timeout, marshal_timeout}
use coded_hotterstuff.Wire.Timeout.RoundTrip.{IsEncodable}

pub marshal_timeout-HasSize :
    (v : TimeoutCertificate) → IsEncodable v → HasSize marshal_timeout size_timeout v
unfolding marshal_timeout size_timeout
marshal_timeout-HasSize v e small =
    let whole =
      (uint-IsSized 0x08 v.view _ _ e.view (
          message-IsSized 0x12 v.sig marshal_signature size_signature _ _
            (OrNil-map v.sig e.sig λ a h. marshal_signature-HasSize a h.0) end-IsSized))
        small in
    omega (arith, whole)
