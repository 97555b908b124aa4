-- ===== src/Wire/Header/Yields.antt =====
-- types/types.pb.go: Unmarshal of Header on any bytes.
use coded_hotterstuff.Wire.Fields.Skips.{skip_field-Yields, Less}
use coded_hotterstuff.Prelude.{◌==◌, length, arith}
use coded_hotterstuff.Prelude.Bytes.{Bytes, IsU64}
use coded_hotterstuff.Types.{Header}
use coded_hotterstuff.Wire.Fields.{read_uint_field, read_bytes_field, skip_field}
use coded_hotterstuff.Wire.Fields.Yields.{
  Yields, Yields-bind, Yields-if, IsNumber, Below, Kept, FieldYields, read_uint_field-Yields,
  read_bytes_field-Yields, unmarshal-Yields,
}
use coded_hotterstuff.Wire.Header.{header_field, empty_header, unmarshal_header}

-- The views are uint64s.
pub record HasViews (h : Header) : Type 0 where
  pub view : IsU64 h.view
  pub parent_view : IsU64 h.parent_view

header_field-Yields : FieldYields header_field HasViews
unfolding header_field
header_field-Yields m l num wt bs from_tag i short =
    let P = Kept header_field HasViews (length from_tag) in
    let uint = read_uint_field-Yields wt bs in
    let bytes = read_bytes_field-Yields l wt bs in
    Yields-if P (num == 1) _ _
      (Yields-bind (IsNumber (length bs)) P (read_uint_field wt bs) _ uint
        λ p h. (record { view = h.0; parent_view = i.parent_view }, omega (arith, h.1)))
      (Yields-if P (num == 2) _ _
        (Yields-bind (Below (length bs)) P (read_bytes_field l wt bs) _ bytes
          λ p h. (record { view = i.view; parent_view = i.parent_view }, omega (arith, h)))
        (Yields-if P (num == 3) _ _
          (Yields-bind (IsNumber (length bs)) P (read_uint_field wt bs) _ uint
            λ p h. (record { view = i.view; parent_view = h.0 }, omega (arith, h.1)))
          (Yields-if P (num == 4) _ _
            (Yields-bind (Below (length bs)) P (read_bytes_field l wt bs) _ bytes
              λ p h. (record { view = i.view; parent_view = i.parent_view }, omega (arith, h)))
            (Yields-if P (num == 5) _ _
              (Yields-bind (Below (length bs)) P (read_bytes_field l wt bs) _ bytes
                λ p h. (record { view = i.view; parent_view = i.parent_view }, omega (arith, h)))
              (Yields-bind (Less (length from_tag)) P (skip_field l from_tag) _
                (skip_field-Yields l from_tag) λ r h. (i, h))))))

-- On any bytes, Unmarshal of Header comes to an end, with an error of the code or with a header whose
-- two views are uint64s.
pub unmarshal_header-Yields : (bs : Bytes) → Yields HasViews (unmarshal_header bs)
unfolding unmarshal_header
unmarshal_header-Yields bs =
    unmarshal-Yields header_field HasViews header_field-Yields empty_header bs
      (record { view = omega arith; parent_view = omega arith })
