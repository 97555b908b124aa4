-- ===== src/Consensus/VoteRule/Refused.antt =====
-- consensus.go, Step on a proposal: the early returns of onProposal.
use coded_hotterstuff.Prelude.{
  ◌≡◌, refl, ℕ, Bool, true, false, Bool-cases, inl, inr, Option, none, some,
}
use coded_hotterstuff.Prelude.Bytes.{bytes_eq, bytes_eq_iff}
use coded_hotterstuff.Exec.{Outcome, ok, crash, panic, pure, modify, or_crash, ◌>>=◌}
use coded_hotterstuff.Exec.Moves.{
  After, After-bind, After-or_crash, After-lift, After-weaken, lift-then,
}
use coded_hotterstuff.Types.{Header, Certificate, TimeoutCertificate, Proposal, proposal}
use coded_hotterstuff.Encoding.{encode_uint64}
use coded_hotterstuff.Env.{Env}
use coded_hotterstuff.Store.{header_hash, hash_sum, get_header}
use coded_hotterstuff.Progress.{add_not_found}
use coded_hotterstuff.Consensus.State.{Consensus, when, sub64, leader_of, get_leader}
use coded_hotterstuff.Consensus.Round.{Self}
use coded_hotterstuff.Consensus.Handlers.{
  accept_proposal, timeout_is_signed, check_signatures, find_parent, check_certificate, on_proposal,
}
use coded_hotterstuff.Consensus.Machine.{dispatch, step_within, step}

module _ (env : Env) (c : Consensus env) (m : Proposal) where
  -- The certificate is for the header's parent, and VerifyAggregated accepts it.
  pub record IsJustified : Type 0 where
    pub header : Header
    pub cert : Certificate
    pub has_header : m.header ≡ some header
    pub has_cert : m.parent_cert ≡ some cert
    pub for_parent : header.parent ≡ cert.block
    pub certified : env.verifier.verify_aggregated header.parent cert.sig ≡ ok true

  -- A timeout certificate, if there is one, is of the view before.
  abbrev pub TimeoutSigned : Header → Option TimeoutCertificate → Type 0
  TimeoutSigned h none = Unit {0}
  TimeoutSigned h (some t) =
      env.verifier.verify_aggregated (hash_sum env (encode_uint64 (sub64 h.view 1))) t.sig ≡ ok true

  -- All checks hold that come before the replica changes anything.
  pub record IsAccepted : Type 0 where
    pub justified : IsJustified
    pub parent : Header
    pub stored : get_header env c.store justified.header.parent ≡ some parent
    pub timeout : TimeoutSigned justified.header m.timeout
    pub leader : ℕ
    pub is_leader : leader_of c.replicas justified.header.view ≡ ok leader
    pub signed : env.verifier.verify leader (header_hash env justified.header) m.sig ≡ true

  pub data Verdict (d : Consensus env) : Type 0 where
    ignored : d ≡ c → Verdict d
    missing_parent :
        (j : IsJustified)
        → get_header env c.store j.header.parent ≡ none
        → d ≡ record c { progress = add_not_found j.header.parent_view j.header.parent c.progress }
        → Verdict d
    accepted : IsAccepted → Verdict d

  always : (o : Outcome (Unit {0} × Consensus env)) → IsAccepted → After o (λ _ d. Verdict d)
  always (ok (u, d)) a = accepted a
  always (crash r) a = tt

  module _ (self : Self env) where
    timeout_is_signed-TimeoutSigned :
        (h : Header) (t : Option TimeoutCertificate)
        → After (timeout_is_signed env h t c) (λ b d. (d ≡ c) × (b ≡ true → TimeoutSigned h t))
    unfolding timeout_is_signed pure
    timeout_is_signed-TimeoutSigned h none = (refl, λ _. tt)
    timeout_is_signed-TimeoutSigned h (some t) =
        After-lift (λ b d. (d ≡ c) × (b ≡ true → TimeoutSigned h (some t)))
          (env.verifier.verify_aggregated (hash_sum env (encode_uint64 (sub64 h.view 1))) t.sig) c
          (λ b eq. (refl, λ yes_signed. cc))

    signed-Verdict :
        (j : IsJustified) (parent : Header)
        → get_header env c.store j.header.parent ≡ some parent
        → TimeoutSigned j.header m.timeout
        → (leader : ℕ) → leader_of c.replicas j.header.view ≡ ok leader
        → (valid : Bool) → env.verifier.verify leader (header_hash env j.header) m.sig ≡ valid
        → After
            (when env valid (accept_proposal env self m j.header j.cert parent) c)
            (λ _ d. Verdict d)
    signed-Verdict j parent stored timeout leader is_leader false signed =
        unfold pure in ignored refl
    signed-Verdict j parent stored timeout leader is_leader true signed =
        always (accept_proposal env self m j.header j.cert parent c) (record {
          justified = j;
          parent = parent;
          stored = stored;
          timeout = timeout;
          leader = leader;
          is_leader = is_leader;
          signed = signed;
        })

    timely-Verdict :
        (j : IsJustified) (parent : Header) (in_time : Bool)
        → get_header env c.store j.header.parent ≡ some parent
        → (in_time ≡ true → TimeoutSigned j.header m.timeout)
        → After
            (when env in_time
              (do
                leader ← get_leader env j.header.view
                when env
                    (env.verifier.verify leader (header_hash env j.header) m.sig)
                    (accept_proposal env self m j.header j.cert parent))
              c)
            (λ _ d. Verdict d)
    unfolding pure get_leader ◌>>=◌
    timely-Verdict j parent false stored timeout = ignored refl
    timely-Verdict j parent true stored timeout =
        lift-then {B = Unit {0}} (λ _ d. Verdict d) (leader_of c.replicas j.header.view) c _
          λ leader is_leader.
            signed-Verdict j parent stored (timeout refl) leader is_leader
              (env.verifier.verify leader (header_hash env j.header) m.sig) refl

    find_parent-Verdict :
        (j : IsJustified) (found : Option Header)
        → get_header env c.store j.header.parent ≡ found
        → After (find_parent env self m j.header j.cert found c) (λ _ d. Verdict d)
    unfolding find_parent check_signatures modify
    find_parent-Verdict j none stored = missing_parent j stored refl
    find_parent-Verdict j (some parent) stored =
        After-bind (λ _ d. Verdict d) (timeout_is_signed env j.header m.timeout) _ c
          (After-weaken (λ b d. (d ≡ c) × (b ≡ true → TimeoutSigned j.header m.timeout)) _
            (timeout_is_signed env j.header m.timeout c)
            (timeout_is_signed-TimeoutSigned j.header m.timeout)
            λ b d p. rw p.0 (timely-Verdict j parent b stored p.1))

    verified-Verdict :
        (h : Header) (cert : Certificate) (valid : Bool)
        → m.header ≡ some h
        → m.parent_cert ≡ some cert
        → h.parent ≡ cert.block
        → env.verifier.verify_aggregated h.parent cert.sig ≡ ok valid
        → After
            (when env valid (find_parent env self m h cert (get_header env c.store h.parent)) c)
            (λ _ d. Verdict d)
    verified-Verdict h cert false has has' same checked = unfold pure in ignored refl
    verified-Verdict h cert true has has' same checked =
        find_parent-Verdict
          (record {
            header = h;
            cert = cert;
            has_header = has;
            has_cert = has';
            for_parent = same;
            certified = checked;
          })
          (get_header env c.store h.parent) refl

    check_certificate-Verdict :
        (h : Header) (found : Option Certificate)
        → m.header ≡ some h
        → m.parent_cert ≡ found
        → After (check_certificate env self m h found c) (λ _ d. Verdict d)
    unfolding check_certificate ◌>>=◌ pure
    check_certificate-Verdict h none has has' = ignored refl
    check_certificate-Verdict h (some cert) has has' =
        elim (Bool-cases (bytes_eq h.parent cert.block)) [
          | inr other ↦ rw other (ignored refl)
          | inl same ↦ rw same (
              lift-then {B = Unit {0}} (λ _ d. Verdict d)
                (env.verifier.verify_aggregated h.parent cert.sig) c _
                λ valid checked.
                  verified-Verdict h cert valid has has' ((bytes_eq_iff h.parent cert.block).0 same)
                    checked)
        ]

    on_proposal-Verdict : After (on_proposal env self m c) (λ _ d. Verdict d)
    unfolding on_proposal
    on_proposal-Verdict =
        After-bind (λ _ d. Verdict d) (or_crash panic m.header)
          (λ h. check_certificate env self m h m.parent_cert) c
          (After-or_crash
            (λ h d. After (check_certificate env self m h m.parent_cert d) (λ _ e. Verdict e)) panic
            m.header c λ h has. check_certificate-Verdict h m.parent_cert has refl)

-- What Step makes of a proposal that does not crash it: it leaves the replica exactly as it was; or
-- the proposal has a certificate for its parent that VerifyAggregated accepts but the parent is not
-- in the store, and all that is added is the parent among the blocks that were not found; or every
-- check holds: such a certificate, a stored parent, a timeout certificate, if any, of the view before,
-- and a signature of the leader.
pub step-Verdict :
    (env : Env) (c d : Consensus env) (m : Proposal)
    → step env (proposal m) c ≡ ok (tt, d)
    → Verdict env c m d
unfolding step step_within dispatch
step-Verdict env c d m p =
    go (on_proposal env (step_within env 1) m c) p (on_proposal-Verdict env c m (step_within env 1))
  where
    go :
        (o : Outcome (Unit {0} × Consensus env))
        → o ≡ ok (tt, d)
        → After o (λ _ e. Verdict env c m e)
        → Verdict env c m d
    go (crash r) q h = cc
    go (ok (u, e)) q h = let same : e ≡ d = cc in rw (← same) h
