-- ===== src/Wire/Header/Size.antt =====
-- types/types.pb.go: Marshal and Size of Header.
use coded_hotterstuff.Wire.Header.RoundTrip.{IsEncodable}
use coded_hotterstuff.Wire.Fields.Sized.{end-IsSized, bytes-IsSized, uint-IsSized, HasSize}
use coded_hotterstuff.Prelude.{◌≡◌, length, arith}
use coded_hotterstuff.Wire.Header.{marshal_header, size_header}
use coded_hotterstuff.Types.{Header}

pub marshal_header-HasSize : (h : Header) → IsEncodable h → HasSize marshal_header size_header h
unfolding marshal_header size_header
marshal_header-HasSize h e small =
    let whole =
      (uint-IsSized 0x08 h.view _ _ e.view (
          bytes-IsSized 0x12 h.parent _ _ (
            uint-IsSized 0x18 h.parent_view _ _ e.parent_view (
              bytes-IsSized 0x22 h.data_root _ _
                (bytes-IsSized 0x2a h.state_root _ _ end-IsSized)))))
        small in
    omega (arith, whole)

-- Marshal of a header writes as many bytes as Size counts, so it fills its buffer, if the header's
-- views are uint64s and the encoding is shorter than 2^63 bytes.
pub length-marshal_header : (h : Header) → IsEncodable h → length (marshal_header h) ≡ size_header h
length-marshal_header h e = marshal_header-HasSize h e e.size
