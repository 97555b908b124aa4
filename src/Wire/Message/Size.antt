-- ===== src/Wire/Message/Size.antt =====
-- types/types.pb.go: Marshal and Size of Message.
use coded_hotterstuff.Wire.Sync.Size.{marshal_sync-HasSize}
use coded_hotterstuff.Wire.Sync.{size_sync, marshal_sync}
use coded_hotterstuff.Wire.Vote.Size.{marshal_vote-HasSize}
use coded_hotterstuff.Wire.Vote.{size_vote, marshal_vote}
use coded_hotterstuff.Wire.NewView.Size.{marshal_newview-HasSize}
use coded_hotterstuff.Wire.NewView.{size_newview, marshal_newview}
use coded_hotterstuff.Wire.Proposal.Size.{marshal_proposal-HasSize}
use coded_hotterstuff.Wire.Proposal.{size_proposal, marshal_proposal}
use coded_hotterstuff.Wire.Fields.Sized.{end-IsSized, embedded-IsSized, HasSize}
use coded_hotterstuff.Wire.Message.{size_message, marshal_message}
use coded_hotterstuff.Prelude.{refl, arith, ◌≡◌, length}
use coded_hotterstuff.Types.{Message, proposal, newview, vote, sync, empty}
use coded_hotterstuff.Wire.Message.RoundTrip.{IsEncodable, Holds}

oneof-HasSize : (m : Message) → Holds m → HasSize marshal_message size_message m
unfolding marshal_message size_message
oneof-HasSize (proposal p) h small =
    let whole =
      (embedded-IsSized 0x0a p marshal_proposal size_proposal _ _ (marshal_proposal-HasSize p h)
          end-IsSized)
        small in
    omega (arith, whole)
oneof-HasSize (newview n) h small =
    let whole =
      (embedded-IsSized 0x12 n marshal_newview size_newview _ _ (marshal_newview-HasSize n h)
          end-IsSized)
        small in
    omega (arith, whole)
oneof-HasSize (vote v) h small =
    let whole =
      (embedded-IsSized 0x1a v marshal_vote size_vote _ _ (marshal_vote-HasSize v h) end-IsSized)
        small in
    omega (arith, whole)
oneof-HasSize (sync s) h small =
    let whole =
      (embedded-IsSized 0x22 s marshal_sync size_sync _ _ (marshal_sync-HasSize s h) end-IsSized)
        small in
    omega (arith, whole)
oneof-HasSize empty h small = refl

-- Marshal of Message writes exactly as many bytes as Size counts, whichever message it holds, under
-- the conditions of the round trip.
pub length-marshal_message :
    (m : Message) → IsEncodable m → length (marshal_message m) ≡ size_message m
length-marshal_message m e = oneof-HasSize m e.holds e.size
