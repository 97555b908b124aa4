-- ===== src/Wire/Message.antt =====
-- types/types.pb.go: Marshal, Size and Unmarshal of Message, whose one field is a oneof. Marshal
-- writes the field into the last Size bytes of its buffer; Wire/Message/Size shows that they are all.
pub mod RoundTrip
pub mod Size
use coded_hotterstuff.Wire.Sync.{unmarshal_sync, marshal_sync, size_sync}
use coded_hotterstuff.Wire.Vote.{unmarshal_vote, marshal_vote, size_vote}
use coded_hotterstuff.Wire.NewView.{unmarshal_newview, marshal_newview, size_newview}
use coded_hotterstuff.Wire.Proposal.{unmarshal_proposal, marshal_proposal, size_proposal}
use coded_hotterstuff.Wire.Fields.{
  skip_field, unmarshal, read_bytes_field, message_field, message_size,
}
use coded_hotterstuff.Prelude.Bytes.{Bytes}
use coded_hotterstuff.Prelude.{ℕ, ◌==◌, if◌then◌else◌, [], some}
use coded_hotterstuff.Types.{Message, proposal, newview, vote, sync, empty}
use coded_hotterstuff.Wire.Varint.{Result, ◌>>=◌, ok}

unfoldable pub marshal_message : Message → Bytes
marshal_message (proposal p) = message_field 0x0a (some (marshal_proposal p)) []
marshal_message (newview n) = message_field 0x12 (some (marshal_newview n)) []
marshal_message (vote v) = message_field 0x1a (some (marshal_vote v)) []
marshal_message (sync s) = message_field 0x22 (some (marshal_sync s)) []
marshal_message empty = []

unfoldable pub size_message : Message → ℕ
size_message (proposal p) = message_size (some (size_proposal p))
size_message (newview n) = message_size (some (size_newview n))
size_message (vote v) = message_size (some (size_vote v))
size_message (sync s) = message_size (some (size_sync s))
size_message empty = 0

-- A field replaces what the oneof held before.
unfoldable pub oneof_field : Message → ℕ → ℕ → ℕ → Bytes → Bytes → Result (Message × Bytes)
oneof_field m l num wt bs from_tag =
    if num == 1
    then (do (b, rest) ← read_bytes_field l wt bs; p ← unmarshal_proposal b; ok (proposal p, rest))
    else if num == 2
    then (do (b, rest) ← read_bytes_field l wt bs; n ← unmarshal_newview b; ok (newview n, rest))
    else if num == 3
    then (do (b, rest) ← read_bytes_field l wt bs; v ← unmarshal_vote b; ok (vote v, rest))
    else if num == 4
    then (do (b, rest) ← read_bytes_field l wt bs; s ← unmarshal_sync b; ok (sync s, rest))
    else (do rest ← skip_field l from_tag; ok (m, rest))

unfoldable pub unmarshal_message : Bytes → Result Message
unfolding oneof_field
unmarshal_message bs = unmarshal oneof_field empty bs
