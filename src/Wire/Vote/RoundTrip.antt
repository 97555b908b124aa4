-- ===== src/Wire/Vote/RoundTrip.antt =====
-- types/types.pb.go: Marshal and Unmarshal of Vote, one after the other.
use coded_hotterstuff.Wire.Fields.Written.{end_read, uint_read, bytes_read, ReadsIn, unmarshal_read}
use coded_hotterstuff.Prelude.Bytes.{IsU64}
use coded_hotterstuff.Prelude.{[], refl, ◌^◌, length, ◌≡◌, ◌<◌, ℕ}
use coded_hotterstuff.Types.{Vote}
use coded_hotterstuff.Wire.Vote.{empty_vote, vote_field, marshal_vote, unmarshal_vote}
use coded_hotterstuff.Wire.Varint.{ok}

-- What Go's types and memory grant.
pub record IsEncodable (v : Vote) : Type 0 where
  pub view : IsU64 v.view
  pub voter : IsU64 v.voter
  pub size : length (marshal_vote v) < 2 ^ 63

module _ (l : ℕ) (small : l < 2 ^ 63) where
  read_vote : (v : Vote) → IsEncodable v → ReadsIn vote_field l small empty_vote (marshal_vote v) v
  unfolding vote_field marshal_vote
  read_vote v e =
      bytes_read vote_field l small 0x0a v.block
        (λ x. record { block = x; view = 0; voter = 0; sig = [] }) v _ refl refl
        (λ x bs behind from p. rw p refl)
        (uint_read vote_field l small 0x10 v.view
          (λ x. record { block = v.block; view = x; voter = 0; sig = [] }) v _ refl refl
          (λ x bs behind from p. rw p refl) e.view
          (uint_read vote_field l small 0x18 v.voter
            (λ x. record { block = v.block; view = v.view; voter = x; sig = [] }) v _ refl refl
            (λ x bs behind from p. rw p refl) e.voter
            (bytes_read vote_field l small 0x22 v.sig
              (λ x. record { block = v.block; view = v.view; voter = v.voter; sig = x }) v _ refl
              refl (λ x bs behind from p. rw p refl) (end_read vote_field l small v))))

pub unmarshal_vote-marshal_vote :
    (v : Vote) → IsEncodable v → unmarshal_vote (marshal_vote v) ≡ ok v
unfolding unmarshal_vote
unmarshal_vote-marshal_vote v e =
    unmarshal_read vote_field (length (marshal_vote v)) e.size empty_vote v (marshal_vote v) refl
      (read_vote (length (marshal_vote v)) e.size v e)
