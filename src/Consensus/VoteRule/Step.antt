-- ===== src/Consensus/VoteRule/Step.antt =====
-- consensus.go, Step on a proposal: the checks of onProposal.
use coded_hotterstuff.Store.{get_header}
use coded_hotterstuff.Prelude.Bytes.{bytes_eq_iff, bytes_eq}
use coded_hotterstuff.Exec.Moves.{After-or_crash, lift-then, After-bind, After}
use coded_hotterstuff.Exec.{crash, panic, Outcome, or_crash, ok, ◌>>=◌, pure}
use coded_hotterstuff.Consensus.Handlers.{find_parent, check_certificate, on_proposal}
use coded_hotterstuff.Consensus.State.{when, Consensus}
use coded_hotterstuff.Types.{Certificate, Header, proposal, Proposal}
use coded_hotterstuff.Consensus.Machine.{dispatch, step_within, step}
use coded_hotterstuff.Consensus.Round.{Self}
use coded_hotterstuff.Env.{Env}
use coded_hotterstuff.Prelude.{
  ◌≡◌, ◌⊎◌, refl, Bool, true, false, Bool-cases, inl, inr, Option, none, some,
}
use coded_hotterstuff.Consensus.VoteRule.Votable.{IsVotable, VotesWell, find_parent-VotesWell}

module _ (env : Env) (self : Self env) where
  checked-VotesWell :
      (c : Consensus env) (m : Proposal) (h : Header) (cert : Certificate) (valid : Bool)
      → m.header ≡ some h
      → m.parent_cert ≡ some cert
      → h.parent ≡ cert.block
      → env.verifier.verify_aggregated h.parent cert.sig ≡ ok valid
      → After
          (when env valid (find_parent env self m h cert (get_header env c.store h.parent)) c)
          (VotesWell env self c m)
  unfolding pure
  checked-VotesWell c m h cert false has has' same checked = inl refl
  checked-VotesWell c m h cert true has has' same checked =
      find_parent-VotesWell env self c m h cert (get_header env c.store h.parent) has has' same
        checked refl

  check_certificate-VotesWell :
      (c : Consensus env) (m : Proposal) (h : Header) (found : Option Certificate)
      → m.header ≡ some h
      → m.parent_cert ≡ found
      → After (check_certificate env self m h found c) (VotesWell env self c m)
  unfolding check_certificate ◌>>=◌
  check_certificate-VotesWell c m h none has has' = inl refl
  check_certificate-VotesWell c m h (some cert) has has' =
      elim (Bool-cases (bytes_eq h.parent cert.block)) [
        | inr other ↦ rw other (inl refl)
        | inl same ↦ rw same (
            lift-then {B = Unit {0}} (VotesWell env self c m)
              (env.verifier.verify_aggregated h.parent cert.sig) c _
              λ valid checked.
                checked-VotesWell c m h cert valid has has'
                  ((bytes_eq_iff h.parent cert.block).0 same) checked)
      ]

  on_proposal-VotesWell :
      (c : Consensus env) (m : Proposal) → After (on_proposal env self m c) (VotesWell env self c m)
  unfolding on_proposal
  on_proposal-VotesWell c m =
      After-bind (VotesWell env self c m) (or_crash panic m.header)
        (λ h. check_certificate env self m h m.parent_cert) c
        (After-or_crash
          (λ h d. After (check_certificate env self m h m.parent_cert d) (VotesWell env self c m))
          panic m.header c λ h has. check_certificate-VotesWell c m h m.parent_cert has refl)

module _ (env : Env) where
  -- When Step has handled a proposal, the last voted view is as before, or the proposal is votable:
  -- it has a header, and a certificate for the header's parent that VerifyAggregated accepts; the
  -- parent is in the store; the leader of the header's view has signed the header; the view is later
  -- than the last voted one; and in the state in which the replica decides, which updatePrepare,
  -- syncView, update and persistProposal have brought it to from the state that the proposal found, it
  -- is in that view, and safeNode holds of the header.
  pub step-IsVotable :
      (c d : Consensus env) (m : Proposal)
      → step env (proposal m) c ≡ ok (tt, d)
      → (d.voted ≡ c.voted) ⊎ IsVotable env (step_within env 1) c m
  unfolding step step_within dispatch
  step-IsVotable c d m p =
      go (on_proposal env (step_within env 1) m c) p
        (on_proposal-VotesWell env (step_within env 1) c m)
    where
      go :
          (o : Outcome (Unit {0} × Consensus env))
          → o ≡ ok (tt, d)
          → After o (VotesWell env (step_within env 1) c m)
          → (d.voted ≡ c.voted) ⊎ IsVotable env (step_within env 1) c m
      go (crash r) q h = cc
      go (ok (u, e)) q h = let same : e ≡ d = cc in rw (← same) h
