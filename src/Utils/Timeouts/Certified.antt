-- ===== src/Utils/Timeouts/Certified.antt =====
-- utils.go and crypto/verifier.go: the timeout certificate that Timeouts builds.
use coded_hotterstuff.Prelude.{
  ℕ, ◌<◌, ◌≤◌, ◌≡◌, ◌⊎◌, refl, ap, sym, ◌∙◌, Bool, true, false, ◌==◌, leb, Bool-cases, inl, inr,
  List, [], ◌∷◌, length, length-append, Option, some, arith,
}
use coded_hotterstuff.Prelude.Bytes.{Bytes}
use coded_hotterstuff.Exec.{ok}
use coded_hotterstuff.Types.{AggregatedSignature, TimeoutCertificate, NewView}
use coded_hotterstuff.Encoding.{encode_uint64}
use coded_hotterstuff.Env.{Env}
use coded_hotterstuff.Store.{hash_sum}
use coded_hotterstuff.Utils.Votes.{exists, new_signature}
use coded_hotterstuff.Utils.Votes.Certified.{with_bls, exists-append, exists-cons}
use coded_hotterstuff.Utils.Timeouts.{
  Timeouts, start_timeouts, reset_timeouts, merge_timeout, cert_sig, collect_timeout,
}
use coded_hotterstuff.Crypto.{Bls, merge, verify, new_verifier}
use coded_hotterstuff.Crypto.Complete.{Aggregates, IsBuilt, unsigned, merge-IsBuilt}

-- What the replicas sign that time out of a view.
abbrev pub timeout_message : Env → ℕ → Bytes
timeout_message env view = hash_sum env (encode_uint64 view)

module _ (env : Env) (bls : Bls) (aggregates : Aggregates bls) (threshold : ℕ)
    (pubkeys : List bls.PublicKey) where
  -- The collection is for the view, its certificate too, and its voters are those received.
  pub record IsCollecting (view : ℕ) (t : Timeouts) : Type 0 where
    pub sig : AggregatedSignature
    pub started : t.view ≡ view
    pub cert : t.cert ≡ some (record { view = view; sig = some sig })
    pub built : IsBuilt bls aggregates pubkeys (timeout_message env view) sig
    pub counted : length t.received ≡ length sig.voters
    pub same_voters : (x : ℕ) → exists sig.voters x ≡ exists t.received x

  pub start_timeouts-IsCollecting :
      (view : ℕ) (t t' : Timeouts)
      → start_timeouts view (reset_timeouts t) ≡ ok t'
      → IsCollecting view t' × (t'.majority ≡ t.majority)
  unfolding start_timeouts reset_timeouts
  start_timeouts-IsCollecting view t t' p =
      let same : record t {
        view = view;
        received = [];
        cert = some (record { view = view; sig = some new_signature });
      }
          ≡ t' =
        cc in
      rw (← same) (
        record {
          sig = new_signature;
          started = refl;
          cert = refl;
          built = unsigned;
          counted = refl;
          same_voters = λ x. refl;
        },
        refl,
      )

  -- What a call of Collect has done if it returned: nothing, or one replica more.
  record IsReceived (view : ℕ) (sig : AggregatedSignature) (m : NewView) (done : Bool)
      (t t' : Timeouts) : Type 0 where
    new : exists t.received m.voter ≡ false
    valid : verify bls pubkeys m.voter (timeout_message env view) m.sig ≡ true
    received : t'.received ≡ m.voter ∷ t.received
    cert' :
        t'.cert ≡ some (record { view = view; sig = some (merge bls pubkeys sig m.voter m.sig) })
    same_view : t'.view ≡ t.view
    same_majority : t'.majority ≡ t.majority
    majority : done ≡ leb t.majority (length t'.received)

  merge_timeout-IsReceived :
      (view : ℕ) (m : NewView) (t t' : Timeouts) (done : Bool) (h : IsCollecting view t)
      → exists t.received m.voter ≡ false
      → verify bls pubkeys m.voter (timeout_message env view) m.sig ≡ true
      → merge_timeout
          (with_bls env bls threshold pubkeys)
          t.cert
          (cert_sig (with_bls env bls threshold pubkeys) t.cert)
          m
          t
        ≡ ok (done, t')
      → IsReceived view h.sig m done t t'
  unfolding merge_timeout cert_sig new_verifier
  merge_timeout-IsReceived view m t t' done h new valid q =
      let bls_env = with_bls env bls threshold pubkeys in
      let merged =
        ap (λ (o : Option TimeoutCertificate). merge_timeout bls_env o (cert_sig bls_env o) m t)
          (sym h.cert)
        ∙ q in
      record {
        new = new;
        valid = valid;
        received = ground arith;
        cert' = ground arith;
        same_view = ground arith;
        same_majority = ground arith;
        majority = ground arith;
      }

  collect_timeout-cases :
      (view : ℕ) (m : NewView) (t t' : Timeouts) (done : Bool) (h : IsCollecting view t)
      → collect_timeout (with_bls env bls threshold pubkeys) m t ≡ ok (done, t')
      → ((done ≡ false) × (t' ≡ t)) ⊎ IsReceived view h.sig m done t t'
  unfolding collect_timeout hash_sum new_verifier
  collect_timeout-cases view m t t' done h q = elim (Bool-cases (t.view == 0)) [
    | inl idle ↦ let q' = rw idle at q in inl (ground arith, ground arith)
    | inr busy ↦
        let q1 = rw busy at q in
        elim (Bool-cases (t.view == m.view)) [
          | inr other ↦ let q' = rw other at q1 in inl (ground arith, ground arith)
          | inl same ↦
              let q2 = rw same at q1 in
              let at_view : m.view ≡ view = ground (arith, h.started) in
              elim (Bool-cases (exists t.received m.voter)) [
                | inl twice ↦ let q' = rw twice at q2 in inl (ground arith, ground arith)
                | inr new ↦
                    let q3 = rw new at q2 in
                    elim (Bool-cases
                      (verify bls pubkeys m.voter (timeout_message env m.view) m.sig)) [
                        | inr forged ↦ let q' = rw forged at q3 in inl (ground arith, ground arith)
                        | inl valid ↦
                            let q4 = rw valid at q3 in
                            inr (
                              merge_timeout-IsReceived view m t t' done h new (rw (← at_view) valid)
                                q4)
                      ]
              ]
        ]
  ]

  received :
      (view : ℕ) (m : NewView) (t t' : Timeouts) (done : Bool) (h : IsCollecting view t)
      → IsReceived view h.sig m done t t'
      → IsCollecting view t' × (0 < length t'.received)
  received view m t t' done h a =
      let new : exists h.sig.voters m.voter ≡ false = h.same_voters m.voter ∙ a.new in
      let (b, voters) =
        merge-IsBuilt bls aggregates pubkeys (timeout_message env view) h.sig m.voter m.sig h.built
          a.valid new in
      let long = length-append h.sig.voters (m.voter ∷ []) in
      (
        record {
          sig = merge bls pubkeys h.sig m.voter m.sig;
          started = a.same_view ∙ h.started;
          cert = a.cert';
          built = b;
          counted = rw a.received (rw voters (omega (arith, long, h.counted)));
          same_voters = λ x. rw voters (
              rw a.received (
                exists-append h.sig.voters m.voter x
                ∙ exists-cons m.voter x h.sig.voters t.received (h.same_voters x)));
        },
        rw a.received (omega arith),
      )

  pub collect_timeout-IsCollecting :
      (view : ℕ) (m : NewView) (t t' : Timeouts) (done : Bool)
      → IsCollecting view t
      → collect_timeout (with_bls env bls threshold pubkeys) m t ≡ ok (done, t')
      → IsCollecting view t'
        × (t'.majority ≡ t.majority)
        × (done ≡ true → (0 < length t'.received) × (t.majority ≤ length t'.received))
  collect_timeout-IsCollecting view m t t' done h q =
      elim (collect_timeout-cases view m t t' done h q) [
        | inl (short, same) ↦ (rw same h, rw same refl, λ reached. cc)
        | inr a ↦
            let (h', some_voter) = received view m t t' done h a in
            (h', a.same_majority, λ reached. (some_voter, ground (arith, a.majority)))
      ]
