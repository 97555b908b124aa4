-- ===== src/Wire/Vote.antt =====
-- types/types.pb.go: Marshal, Size and Unmarshal of Vote.
pub mod RoundTrip
pub mod Size
use coded_hotterstuff.Wire.Fields.{
  uint_size, skip_field, read_uint_field, bytes_size, uint_field, read_bytes_field, unmarshal,
  bytes_field,
}
use coded_hotterstuff.Types.{Vote}
use coded_hotterstuff.Prelude.Bytes.{Bytes}
use coded_hotterstuff.Wire.Varint.{Result, ◌>>=◌, ok}
use coded_hotterstuff.Prelude.{◌+◌, length, [], ℕ, ◌==◌, if◌then◌else◌}

unfoldable pub marshal_vote : Vote → Bytes
marshal_vote v =
    bytes_field 0x0a v.block
      (uint_field 0x10 v.view (uint_field 0x18 v.voter (bytes_field 0x22 v.sig [])))

unfoldable pub size_vote : Vote → ℕ
size_vote v =
    bytes_size (length v.block) + uint_size v.view + uint_size v.voter + bytes_size (length v.sig)

-- &types.Vote{}
abbrev pub empty_vote : Vote
empty_vote = record { block = []; view = 0; voter = 0; sig = [] }

unfoldable pub vote_field : Vote → ℕ → ℕ → ℕ → Bytes → Bytes → Result (Vote × Bytes)
vote_field m l num wt bs from_tag =
    if num == 1
    then (do (b, rest) ← read_bytes_field l wt bs; ok (record m { block = b }, rest))
    else if num == 2
    then (do (v, rest) ← read_uint_field wt bs; ok (record m { view = v }, rest))
    else if num == 3
    then (do (v, rest) ← read_uint_field wt bs; ok (record m { voter = v }, rest))
    else if num == 4
    then (do (b, rest) ← read_bytes_field l wt bs; ok (record m { sig = b }, rest))
    else (do rest ← skip_field l from_tag; ok (m, rest))

unfoldable pub unmarshal_vote : Bytes → Result Vote
unfolding vote_field
unmarshal_vote bs = unmarshal vote_field empty_vote bs
