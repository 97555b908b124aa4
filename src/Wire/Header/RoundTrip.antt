-- ===== src/Wire/Header/RoundTrip.antt =====
-- types/types.pb.go: Marshal and Unmarshal of Header, one after the other.
use coded_hotterstuff.Wire.Fields.Written.{
  end_read, bytes_read, uint_read, ReadsIn, unmarshal_read, ReadsBack,
}
use coded_hotterstuff.Prelude.{ℕ, ◌<◌, ◌^◌, ◌≡◌, refl, [], length}
use coded_hotterstuff.Prelude.Bytes.{IsU64}
use coded_hotterstuff.Types.{Header}
use coded_hotterstuff.Wire.Varint.{ok}
use coded_hotterstuff.Wire.Fields.{unmarshal}
use coded_hotterstuff.Wire.Header.{header_field, empty_header, marshal_header, unmarshal_header}

-- What Go's types and memory grant: the numbers are uint64s, the encoding is shorter than 2^63 bytes.
pub record IsEncodable (h : Header) : Type 0 where
  pub view : IsU64 h.view
  pub parent_view : IsU64 h.parent_view
  pub size : length (marshal_header h) < 2 ^ 63

read_header :
    (l : ℕ) (small : l < 2 ^ 63) (h : Header)
    → IsEncodable h
    → ReadsIn header_field l small empty_header (marshal_header h) h
unfolding header_field marshal_header
read_header l small h e =
    uint_read header_field l small 0x08 h.view
      (λ x. record { view = x; parent = []; parent_view = 0; data_root = []; state_root = [] }) h _
      refl refl (λ x bs behind from p. rw p refl) e.view
      (bytes_read header_field l small 0x12 h.parent
        (λ x. record {
          view = h.view;
          parent = x;
          parent_view = 0;
          data_root = [];
          state_root = [];
        })
        h _ refl refl (λ x bs behind from p. rw p refl)
        (uint_read header_field l small 0x18 h.parent_view
          (λ x. record {
            view = h.view;
            parent = h.parent;
            parent_view = x;
            data_root = [];
            state_root = [];
          })
          h _ refl refl (λ x bs behind from p. rw p refl) e.parent_view
          (bytes_read header_field l small 0x22 h.data_root
            (λ x. record {
              view = h.view;
              parent = h.parent;
              parent_view = h.parent_view;
              data_root = x;
              state_root = [];
            })
            h _ refl refl (λ x bs behind from p. rw p refl)
            (bytes_read header_field l small 0x2a h.state_root
              (λ x. record {
                view = h.view;
                parent = h.parent;
                parent_view = h.parent_view;
                data_root = h.data_root;
                state_root = x;
              })
              h _ refl refl (λ x bs behind from p. rw p refl) (end_read header_field l small h)))))

-- Unmarshal gives back every header that Marshal wrote, if its views are uint64s and its encoding
-- is shorter than 2^63 bytes.
pub unmarshal_header-marshal_header :
    (h : Header) → IsEncodable h → unmarshal_header (marshal_header h) ≡ ok h
unfolding unmarshal_header
unmarshal_header-marshal_header h e =
    unmarshal_read header_field (length (marshal_header h)) e.size empty_header h (marshal_header h)
      refl (read_header (length (marshal_header h)) e.size h e)

pub marshal_header-ReadsBack :
    (v : Header) → IsEncodable v → ReadsBack marshal_header (unmarshal header_field empty_header) v
marshal_header-ReadsBack v e = unfold unmarshal_header in unmarshal_header-marshal_header v e
