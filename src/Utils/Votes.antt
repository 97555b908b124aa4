-- ===== src/Utils/Votes.antt =====
-- utils.go: Votes. The map of voters is a list without repetitions.
pub mod Quorum
pub mod Certified
pub mod Abstract
use coded_hotterstuff.Prelude.{
  ℕ, Bool, true, false, not, ◌||◌, leb, ◌==◌, if◌then◌else◌, List, [], ◌∷◌, length, Option, none,
  some,
}
use coded_hotterstuff.Prelude.Bytes.{Bytes, bytes_eq}
use coded_hotterstuff.Exec.{Outcome, ok, crash, panic}
use coded_hotterstuff.Types.{Header, Certificate, AggregatedSignature, Vote}
use coded_hotterstuff.Env.{Env}
use coded_hotterstuff.Store.{header_hash}

pub record Votes : Type 0 where
  pub majority : ℕ
  pub voters : List ℕ
  pub cert : Option Certificate
  pub header : Option Header

-- &types.AggregatedSignature{}
abbrev pub new_signature : AggregatedSignature
new_signature = record { voters = []; sig = none }

-- `_, exist := m[k]`
unfoldable pub exists : List ℕ → ℕ → Bool
exists [] k = false
exists (x ∷ xs) k = x == k || exists xs k

unfoldable pub new_votes : ℕ → Votes
new_votes majority = record { majority = majority; voters = []; cert = none; header = none }

unfoldable pub reset_votes : Votes → Votes
reset_votes v = record v { voters = []; cert = none; header = none }

module _ (env : Env) where
  open env use {verifier}

  unfoldable pub start_votes : Header → Votes → Votes
  start_votes h v = record v {
    cert = some (record { block = header_hash env h; sig = some new_signature });
    header = some h;
  }

  -- The signature checked, the vote is merged into the certificate (a nil Sig panics in Merge).
  unfoldable pub merge_vote :
      Certificate → Option AggregatedSignature → Vote → Votes → Outcome (Bool × Votes)
  merge_vote cert none vote v = crash panic
  merge_vote cert (some sig) vote v =
      let voters = vote.voter ∷ v.voters in
      ok (
        leb v.majority (length voters),
        record v {
          voters = voters;
          cert = some (record cert { sig = some (verifier.merge sig vote.voter vote.sig) });
        },
      )

  unfoldable pub collect_vote_for : Option Certificate → Vote → Votes → Outcome (Bool × Votes)
  unfolding merge_vote exists
  collect_vote_for none vote v = ok (false, v)
  collect_vote_for (some cert) vote v =
      if not (bytes_eq cert.block vote.block)
      then ok (false, v)
      else if exists v.voters vote.voter
      then ok (false, v)
      else if not (verifier.verify vote.voter cert.block vote.sig)
      then ok (false, v)
      else merge_vote cert cert.sig vote v

  -- Votes.Collect
  unfoldable pub collect_vote : Vote → Votes → Outcome (Bool × Votes)
  unfolding collect_vote_for
  collect_vote vote v = collect_vote_for v.cert vote v
