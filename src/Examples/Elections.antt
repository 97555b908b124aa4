-- ===== src/Examples/Elections.antt =====
-- The theorem about timeout certificates at a concrete collection.
use coded_hotterstuff.Utils.Timeouts.Certified.{timeout_message}
use coded_hotterstuff.Utils.Votes.Certified.{with_bls}
use coded_hotterstuff.Examples.Signatures.{toy_bls-Aggregates, toy_bls}
use coded_hotterstuff.Utils.Timeouts.Runs.{collect_new_views-verifies, collect_new_views}
use coded_hotterstuff.Env.{Env}
use coded_hotterstuff.Examples.Runs.{env, everything}
use coded_hotterstuff.Types.{NewView, TimeoutCertificate}
use coded_hotterstuff.Utils.Timeouts.{
  cert_sig, merge_timeout, reset_timeouts, Timeouts, new_timeouts, start_timeouts,
}
use coded_hotterstuff.Prelude.{none, ℕ, ◌≡◌, ◌≤◌, refl, Bool, true, List, [], ◌∷◌, some, arith}
use coded_hotterstuff.Exec.{Outcome, ok, crash}
use coded_hotterstuff.Crypto.{verify, merge, verify_aggregated, new_verifier}

-- Three replicas, with the keys 5, 6 and 7, time out of view 4; one message comes twice.
abbrev signers : Env
signers = with_bls env toy_bls 3 (5 ∷ 6 ∷ 7 ∷ [])

abbrev timed_out : ℕ → ℕ → NewView
timed_out voter key = record { view = 4; voter = voter; sig = key ∷ []; cert = none }

abbrev reports : List NewView
reports = timed_out 2 7 ∷ timed_out 2 7 ∷ timed_out 0 5 ∷ timed_out 1 6 ∷ []

abbrev or_fresh : Outcome Timeouts → Timeouts
or_fresh (ok t) = t
or_fresh (crash r) = new_timeouts 3

abbrev opened : Timeouts
opened = or_fresh (start_timeouts 4 (reset_timeouts (new_timeouts 3)))

abbrev or_opened : Outcome (Bool × Timeouts) → Timeouts
or_opened (ok (b, t)) = t
or_opened (crash r) = opened

abbrev closed : Timeouts
closed = or_opened (collect_new_views signers reports opened)

collection_starts : start_timeouts 4 (reset_timeouts (new_timeouts 3)) ≡ ok opened
unfolding start_timeouts reset_timeouts new_timeouts
collection_starts = refl

collection_ends : collect_new_views signers reports opened ≡ ok (true, closed)
unfolding everything collect_new_views merge_timeout cert_sig new_verifier verify merge
collection_ends = refl

majority_serves : 3 ≤ (new_timeouts 3).majority
unfolding new_timeouts
majority_serves = omega arith

collect_new_views-verifies_example :
    (cert : TimeoutCertificate) × (closed.cert ≡ some cert)
    × (cert.view ≡ 4)
    × (verify_aggregated toy_bls 3 (5 ∷ 6 ∷ 7 ∷ []) (timeout_message env 4) cert.sig ≡ ok true)
collect_new_views-verifies_example =
    collect_new_views-verifies env toy_bls toy_bls-Aggregates 3 (5 ∷ 6 ∷ 7 ∷ []) 4 reports
      (new_timeouts 3) opened closed majority_serves collection_starts collection_ends
