-- ===== src/Wire/Proposal/Size.antt =====
-- types/types.pb.go: Marshal and Size of Proposal.
use coded_hotterstuff.Prelude.{arith}
use coded_hotterstuff.Wire.Timeout.Size.{marshal_timeout-HasSize}
use coded_hotterstuff.Wire.Timeout.{size_timeout, marshal_timeout}
use coded_hotterstuff.Wire.Certificate.Size.{marshal_certificate-HasSize}
use coded_hotterstuff.Wire.Certificate.{size_certificate, marshal_certificate}
use coded_hotterstuff.Wire.Data.Size.{marshal_data-HasSize}
use coded_hotterstuff.Wire.Data.{size_data, marshal_data}
use coded_hotterstuff.Wire.Header.Size.{marshal_header-HasSize}
use coded_hotterstuff.Wire.Fields.Written.{OrNil-map}
use coded_hotterstuff.Wire.Header.{size_header, marshal_header}
use coded_hotterstuff.Wire.Fields.Sized.{end-IsSized, bytes-IsSized, message-IsSized, HasSize}
use coded_hotterstuff.Types.{Proposal}
use coded_hotterstuff.Wire.Proposal.{size_proposal, marshal_proposal}
use coded_hotterstuff.Wire.Proposal.RoundTrip.{IsEncodable}

pub marshal_proposal-HasSize :
    (v : Proposal) → IsEncodable v → HasSize marshal_proposal size_proposal v
unfolding marshal_proposal size_proposal
marshal_proposal-HasSize v e small =
    let whole =
      (message-IsSized 0x0a v.header marshal_header size_header _ _
          (OrNil-map v.header e.header marshal_header-HasSize)
          (message-IsSized 0x12 v.payload marshal_data size_data _ _
            (OrNil-map v.payload e.payload marshal_data-HasSize)
            (bytes-IsSized 0x1a v.sig _ _ (
              message-IsSized 0x22 v.parent_cert marshal_certificate size_certificate _ _
                (OrNil-map v.parent_cert e.parent_cert marshal_certificate-HasSize)
                (message-IsSized 0x2a v.timeout marshal_timeout size_timeout _ _
                  (OrNil-map v.timeout e.timeout marshal_timeout-HasSize) end-IsSized)))))
        small in
    omega (arith, whole)
