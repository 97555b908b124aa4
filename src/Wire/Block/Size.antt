-- ===== src/Wire/Block/Size.antt =====
-- types/types.pb.go: Marshal and Size of Block.
use coded_hotterstuff.Prelude.{arith}
use coded_hotterstuff.Wire.Certificate.Size.{marshal_certificate-HasSize}
use coded_hotterstuff.Wire.Certificate.{size_certificate, marshal_certificate}
use coded_hotterstuff.Wire.Data.Size.{marshal_data-HasSize}
use coded_hotterstuff.Wire.Data.{size_data, marshal_data}
use coded_hotterstuff.Wire.Header.Size.{marshal_header-HasSize}
use coded_hotterstuff.Wire.Fields.Written.{OrNil-map}
use coded_hotterstuff.Wire.Header.{size_header, marshal_header}
use coded_hotterstuff.Wire.Fields.Sized.{end-IsSized, message-IsSized, HasSize}
use coded_hotterstuff.Types.{Block}
use coded_hotterstuff.Wire.Block.{size_block, marshal_block}
use coded_hotterstuff.Wire.Block.RoundTrip.{IsEncodable}

pub marshal_block-HasSize : (v : Block) → IsEncodable v → HasSize marshal_block size_block v
unfolding marshal_block size_block
marshal_block-HasSize v e small =
    let whole =
      (message-IsSized 0x0a v.header marshal_header size_header _ _
          (OrNil-map v.header e.header marshal_header-HasSize)
          (message-IsSized 0x12 v.payload marshal_data size_data _ _
            (OrNil-map v.payload e.payload marshal_data-HasSize)
            (message-IsSized 0x1a v.cert marshal_certificate size_certificate _ _
              (OrNil-map v.cert e.cert marshal_certificate-HasSize) end-IsSized)))
        small in
    omega (arith, whole)
