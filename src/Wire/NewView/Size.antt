-- ===== src/Wire/NewView/Size.antt =====
-- types/types.pb.go: Marshal and Size of NewView.
use coded_hotterstuff.Prelude.{arith}
use coded_hotterstuff.Wire.Certificate.Size.{marshal_certificate-HasSize}
use coded_hotterstuff.Wire.Fields.Written.{OrNil-map}
use coded_hotterstuff.Wire.Certificate.{size_certificate, marshal_certificate}
use coded_hotterstuff.Wire.Fields.Sized.{
  end-IsSized, message-IsSized, bytes-IsSized, uint-IsSized, HasSize,
}
use coded_hotterstuff.Types.{NewView}
use coded_hotterstuff.Wire.NewView.{size_newview, marshal_newview}
use coded_hotterstuff.Wire.NewView.RoundTrip.{IsEncodable}

pub marshal_newview-HasSize : (v : NewView) → IsEncodable v → HasSize marshal_newview size_newview v
unfolding marshal_newview size_newview
marshal_newview-HasSize v e small =
    let whole =
      (uint-IsSized 0x08 v.view _ _ e.view (
          uint-IsSized 0x10 v.voter _ _ e.voter (
            bytes-IsSized 0x1a v.sig _ _ (
              message-IsSized 0x22 v.cert marshal_certificate size_certificate _ _
                (OrNil-map v.cert e.cert marshal_certificate-HasSize) end-IsSized))))
        small in
    omega (arith, whole)
