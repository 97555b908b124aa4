-- ===== src/Wire/Message/RoundTrip.antt =====
-- types/types.pb.go: Marshal and Unmarshal of Message, one after the other.
use coded_hotterstuff.Wire.Sync.{unmarshal_sync, marshal_sync}
use coded_hotterstuff.Wire.Vote.{unmarshal_vote, marshal_vote}
use coded_hotterstuff.Wire.NewView.{unmarshal_newview, marshal_newview}
use coded_hotterstuff.Wire.Proposal.{unmarshal_proposal, marshal_proposal}
use coded_hotterstuff.Wire.Fields.Written.{end_read, embedded_read, ReadsIn, unmarshal_read}
use coded_hotterstuff.Prelude.{[], refl, ◌^◌, ◌<◌, ◌≡◌, ℕ, length}
use coded_hotterstuff.Wire.Message.{marshal_message, oneof_field, unmarshal_message}
use coded_hotterstuff.Wire.Proposal.RoundTrip as ProposalRoundTrip
use coded_hotterstuff.Wire.NewView.RoundTrip as NewViewRoundTrip
use coded_hotterstuff.Wire.Vote.RoundTrip as VoteRoundTrip
use coded_hotterstuff.Wire.Sync.RoundTrip as SyncRoundTrip
use coded_hotterstuff.Types.{Message, proposal, newview, vote, sync, empty}
use coded_hotterstuff.Wire.Varint.{ok}

-- The numbers and the signatures of what the message holds.
abbrev pub Holds : Message → Type 0
Holds (proposal p) = ProposalRoundTrip.IsEncodable p
Holds (newview n) = NewViewRoundTrip.IsEncodable n
Holds (vote v) = VoteRoundTrip.IsEncodable v
Holds (sync s) = SyncRoundTrip.IsEncodable s
Holds empty = Unit {0}

-- What Go's types and memory grant.
pub record IsEncodable (m : Message) : Type 0 where
  pub holds : Holds m
  pub size : length (marshal_message m) < 2 ^ 63

marshal_message-ReadsIn :
    (l : ℕ) (small : l < 2 ^ 63) (m : Message)
    → Holds m
    → ReadsIn oneof_field l small empty (marshal_message m) m
unfolding oneof_field marshal_message
marshal_message-ReadsIn l small (proposal p) h =
    embedded_read oneof_field l small 0x0a p marshal_proposal unmarshal_proposal empty (proposal p)
      (proposal p) [] refl refl (λ bs inner behind from q r. rw q (rw r refl))
      (ProposalRoundTrip.unmarshal_proposal-marshal_proposal p h)
      (end_read oneof_field l small (proposal p))
marshal_message-ReadsIn l small (newview n) h =
    embedded_read oneof_field l small 0x12 n marshal_newview unmarshal_newview empty (newview n)
      (newview n) [] refl refl (λ bs inner behind from q r. rw q (rw r refl))
      (NewViewRoundTrip.unmarshal_newview-marshal_newview n h)
      (end_read oneof_field l small (newview n))
marshal_message-ReadsIn l small (vote v) h =
    embedded_read oneof_field l small 0x1a v marshal_vote unmarshal_vote empty (vote v) (vote v) []
      refl refl (λ bs inner behind from q r. rw q (rw r refl))
      (VoteRoundTrip.unmarshal_vote-marshal_vote v h) (end_read oneof_field l small (vote v))
marshal_message-ReadsIn l small (sync s) h =
    embedded_read oneof_field l small 0x22 s marshal_sync unmarshal_sync empty (sync s) (sync s) []
      refl refl (λ bs inner behind from q r. rw q (rw r refl))
      (SyncRoundTrip.unmarshal_sync-marshal_sync s h) (end_read oneof_field l small (sync s))
marshal_message-ReadsIn l small empty h = end_read oneof_field l small empty

-- Unmarshal of Message gives back every message that Marshal wrote, whichever it holds, if all its
-- numbers are uint64s, the encodings are shorter than 2^63 bytes, and no aggregated signature in it
-- is an empty slice.
pub unmarshal_message-marshal_message :
    (m : Message) → IsEncodable m → unmarshal_message (marshal_message m) ≡ ok m
unfolding unmarshal_message
unmarshal_message-marshal_message m e =
    unmarshal_read oneof_field (length (marshal_message m)) e.size empty m (marshal_message m) refl
      (marshal_message-ReadsIn (length (marshal_message m)) e.size m e.holds)
