-- ===== src/Wire/Vote/Size.antt =====
-- types/types.pb.go: Marshal and Size of Vote.
use coded_hotterstuff.Prelude.{arith}
use coded_hotterstuff.Wire.Fields.Sized.{end-IsSized, uint-IsSized, bytes-IsSized, HasSize}
use coded_hotterstuff.Types.{Vote}
use coded_hotterstuff.Wire.Vote.{size_vote, marshal_vote}
use coded_hotterstuff.Wire.Vote.RoundTrip.{IsEncodable}

pub marshal_vote-HasSize : (v : Vote) → IsEncodable v → HasSize marshal_vote size_vote v
unfolding marshal_vote size_vote
marshal_vote-HasSize v e small =
    let whole =
      (bytes-IsSized 0x0a v.block _ _ (
          uint-IsSized 0x10 v.view _ _ e.view
            (uint-IsSized 0x18 v.voter _ _ e.voter (bytes-IsSized 0x22 v.sig _ _ end-IsSized))))
        small in
    omega (arith, whole)
