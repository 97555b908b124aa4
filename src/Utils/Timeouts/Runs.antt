-- ===== src/Utils/Timeouts/Runs.antt =====
-- utils.go: a collection of timeouts, from Start to the message that makes a majority.
use coded_hotterstuff.Utils.Votes.Certified.{with_bls}
use coded_hotterstuff.Types.{TimeoutCertificate, NewView}
use coded_hotterstuff.Utils.Timeouts.{collect_timeout, reset_timeouts, start_timeouts, Timeouts}
use coded_hotterstuff.Crypto.Complete.{verify_aggregated-IsBuilt, Aggregates}
use coded_hotterstuff.Crypto.{verify_aggregated, Bls}
use coded_hotterstuff.Prelude.{
  refl, ◌∷◌, [], arith, some, length, ◌<◌, ◌≡◌, true, ◌≤◌, false, ℕ, List, Bool,
}
use coded_hotterstuff.Exec.{crash, ok, Outcome}
use coded_hotterstuff.Env.{Env}
use coded_hotterstuff.Utils.Timeouts.Certified.{
  timeout_message, IsCollecting, start_timeouts-IsCollecting, collect_timeout-IsCollecting,
}

abbrev pub go_on :
    Outcome (Bool × Timeouts) → (Timeouts → Outcome (Bool × Timeouts)) → Outcome (Bool × Timeouts)
go_on (ok (true, t)) f = ok (true, t)
go_on (ok (false, t)) f = f t
go_on (crash r) f = crash r

-- The messages that come in, one call of Collect for each, up to the one that makes a majority.
unfoldable pub collect_new_views : Env → List NewView → Timeouts → Outcome (Bool × Timeouts)
collect_new_views env [] t = ok (false, t)
collect_new_views env (m ∷ ms) t = go_on (collect_timeout env m t) (collect_new_views env ms)

module _ (env : Env) (bls : Bls) (aggregates : Aggregates bls) (threshold : ℕ)
    (pubkeys : List bls.PublicKey) where
  collect_new_views-IsCollecting :
      (view : ℕ) (ms : List NewView) (t t' : Timeouts)
      → IsCollecting env bls aggregates threshold pubkeys view t
      → threshold ≤ t.majority
      → collect_new_views (with_bls env bls threshold pubkeys) ms t ≡ ok (true, t')
      → IsCollecting env bls aggregates threshold pubkeys view t'
        × (0 < length t'.received)
        × (threshold ≤ length t'.received)
  unfolding collect_new_views
  collect_new_views-IsCollecting view [] t t' h enough q = cc
  collect_new_views-IsCollecting view (m ∷ ms) t t' h enough q =
      go (collect_timeout (with_bls env bls threshold pubkeys) m t) refl q
        (λ w h' enough' q'. collect_new_views-IsCollecting view ms w t' h' enough' q')
    where
      Ended : Type 0
      Ended =
          IsCollecting env bls aggregates threshold pubkeys view t'
          × (0 < length t'.received)
          × (threshold ≤ length t'.received)

      go :
          (o : Outcome (Bool × Timeouts))
          → collect_timeout (with_bls env bls threshold pubkeys) m t ≡ o
          → go_on o (collect_new_views (with_bls env bls threshold pubkeys) ms) ≡ ok (true, t')
          → ((w : Timeouts)
              → IsCollecting env bls aggregates threshold pubkeys view w
              → threshold ≤ w.majority
              → collect_new_views (with_bls env bls threshold pubkeys) ms w ≡ ok (true, t')
              → Ended)
          → Ended
      go (crash r) p q later = cc
      go (ok (false, w)) p q later =
          let (h', same, _) =
            collect_timeout-IsCollecting env bls aggregates threshold pubkeys view m t w false h
              p in
          later w h' (rw same enough) q
      go (ok (true, w)) p q later =
          let (h', same, counts) =
            collect_timeout-IsCollecting env bls aggregates threshold pubkeys view m t w true h p in
          let (some_voter, majority) = counts refl in
          let last : w ≡ t' = cc in rw (← last) (h', some_voter, omega (arith, majority, enough))

  -- From the start of a collection for a view, and whatever new-view messages come in: the timeout
  -- certificate that Timeouts holds when Collect reports a majority is for that view, and
  -- VerifyAggregated accepts it on the hash of the encoded view, if the verifier asks for no more
  -- voters than the majority has.
  pub collect_new_views-verifies :
      (view : ℕ) (ms : List NewView) (t started t' : Timeouts)
      → threshold ≤ t.majority
      → start_timeouts view (reset_timeouts t) ≡ ok started
      → collect_new_views (with_bls env bls threshold pubkeys) ms started ≡ ok (true, t')
      → (cert : TimeoutCertificate) × (t'.cert ≡ some cert)
        × (cert.view ≡ view)
        × (verify_aggregated bls threshold pubkeys (timeout_message env view) cert.sig ≡ ok true)
  collect_new_views-verifies view ms t started t' enough start q =
      let (h, same) =
        start_timeouts-IsCollecting env bls aggregates threshold pubkeys view t started start in
      let (done, some_voter, many) =
        collect_new_views-IsCollecting view ms started t' h (rw same enough) q in
      (
        record { view = view; sig = some done.sig },
        done.cert,
        refl,
        verify_aggregated-IsBuilt bls aggregates pubkeys threshold (timeout_message env view)
            done.sig done.built (omega (arith, done.counted)) (omega (arith, done.counted)),
      )
