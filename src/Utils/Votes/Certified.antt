-- ===== src/Utils/Votes/Certified.antt =====
-- utils.go and crypto/verifier.go: the certificate that Votes builds.
use coded_hotterstuff.Prelude.{
  ℕ, ◌<◌, ◌≤◌, ◌≡◌, refl, ap, sym, ◌∙◌, Bool, true, false, inl, inr, List, [], ◌∷◌, ◌++◌, length,
  length-append, some, arith,
}
use coded_hotterstuff.Prelude.Bytes.{Bytes}
use coded_hotterstuff.Exec.{Outcome, ok, crash}
use coded_hotterstuff.Types.{Header, Certificate, AggregatedSignature, Vote}
use coded_hotterstuff.Env.{Env}
use coded_hotterstuff.Store.{header_hash}
use coded_hotterstuff.Utils.Votes.{
  Votes, exists, start_votes, new_signature, collect_vote, collect_vote_for,
}
use coded_hotterstuff.Utils.Votes.Quorum.{IsAdded, collect_vote-cases}
use coded_hotterstuff.Crypto.{Bls, merge, verify_aggregated, new_verifier}
use coded_hotterstuff.Crypto.Complete.{
  Aggregates, IsBuilt, unsigned, merge-IsBuilt, verify_aggregated-IsBuilt,
}

-- A replica that uses crypto/verifier.go.
abbrev pub with_bls : Env → (bls : Bls) → ℕ → List bls.PublicKey → Env
with_bls env bls threshold pubkeys = record env { verifier = new_verifier bls threshold pubkeys }

pub exists-append : (xs : List ℕ) (x y : ℕ) → exists (xs ++ x ∷ []) y ≡ exists (x ∷ xs) y
unfolding exists
exists-append [] x y = refl
exists-append (z ∷ xs) x y = let rest = exists-append xs x y in ground arith

pub exists-cons :
    (x y : ℕ) (xs ys : List ℕ) → exists xs y ≡ exists ys y → exists (x ∷ xs) y ≡ exists (x ∷ ys) y
unfolding exists
exists-cons x y xs ys h = rw h refl

-- The votes that come in, one call of Collect for each, up to the one that makes a majority.
abbrev pub go_on :
    Outcome (Bool × Votes) → (Votes → Outcome (Bool × Votes)) → Outcome (Bool × Votes)
go_on (ok (true, v)) f = ok (true, v)
go_on (ok (false, v)) f = f v
go_on (crash r) f = crash r

unfoldable pub collect_votes : Env → List Vote → Votes → Outcome (Bool × Votes)
collect_votes env [] v = ok (false, v)
collect_votes env (vote ∷ votes) v = go_on (collect_vote env vote v) (collect_votes env votes)

module _ (env : Env) (bls : Bls) (aggregates : Aggregates bls) (threshold : ℕ)
    (pubkeys : List bls.PublicKey) where
  -- The certificate is for the block, and its voters are those counted.
  pub record IsCertifying (block : Bytes) (v : Votes) : Type 0 where
    pub sig : AggregatedSignature
    pub cert : v.cert ≡ some (record { block = block; sig = some sig })
    pub built : IsBuilt bls aggregates pubkeys block sig
    pub counted : length v.voters ≡ length sig.voters
    pub same_voters : (x : ℕ) → exists sig.voters x ≡ exists v.voters x

  pub start_votes-IsCertifying :
      (h : Header) (v : Votes)
      → v.voters ≡ []
      → IsCertifying (header_hash env h) (start_votes env h v)
  unfolding start_votes
  start_votes-IsCertifying h v p = record {
    sig = new_signature;
    cert = refl;
    built = unsigned;
    counted = rw p refl;
    same_voters = λ x. rw p refl;
  }

  -- One vote more.
  added :
      (block : Bytes) (vote : Vote) (v v' : Votes) (done : Bool) (h : IsCertifying block v)
      → IsAdded
          (with_bls env bls threshold pubkeys)
          (record { block = block; sig = some h.sig })
          vote
          done
          v
          v'
      → IsCertifying block v' × (0 < length v'.voters)
  unfolding new_verifier
  added block vote v v' done h a =
      let same : h.sig ≡ a.old_sig = cc (a.old) in
      let new : exists h.sig.voters vote.voter ≡ false = h.same_voters vote.voter ∙ a.new in
      let (b, voters) =
        merge-IsBuilt bls aggregates pubkeys block h.sig vote.voter vote.sig h.built a.valid new in
      let long = length-append h.sig.voters (vote.voter ∷ []) in
      (
        record {
          sig = merge bls pubkeys h.sig vote.voter vote.sig;
          cert = rw (← same) at a.cert';
          built = b;
          counted = rw a.voters (rw voters (omega (arith, long, h.counted)));
          same_voters = λ x. rw voters (
              rw a.voters (
                exists-append h.sig.voters vote.voter x
                ∙ exists-cons vote.voter x h.sig.voters v.voters (h.same_voters x)));
        },
        rw a.voters (omega arith),
      )

  collect_vote-IsCertifying :
      (block : Bytes) (vote : Vote) (v v' : Votes) (done : Bool)
      → IsCertifying block v
      → collect_vote (with_bls env bls threshold pubkeys) vote v ≡ ok (done, v')
      → IsCertifying block v'
        × (v'.majority ≡ v.majority)
        × (done ≡ true → (0 < length v'.voters) × (v.majority ≤ length v'.voters))
  unfolding collect_vote
  collect_vote-IsCertifying block vote v v' done h q =
      elim (collect_vote-cases (with_bls env bls threshold pubkeys)
        (record { block = block; sig = some h.sig }) vote v v' done
        (ap (λ o. collect_vote_for (with_bls env bls threshold pubkeys) o vote v) (sym h.cert)
          ∙ q)) [
            | inl (short, same) ↦ (rw same h, rw same refl, λ reached. cc)
            | inr a ↦
                let (h', some_voter) = added block vote v v' done h a in
                (h', a.same_majority, λ reached. (some_voter, ground (arith, a.majority)))
          ]

  -- The certificate at a majority.
  certificate_holds :
      (block : Bytes) (v : Votes)
      → IsCertifying block v
      → 0 < length v.voters
      → threshold ≤ length v.voters
      → (cert : Certificate) × (v.cert ≡ some cert)
        × (cert.block ≡ block)
        × (verify_aggregated bls threshold pubkeys block cert.sig ≡ ok true)
  certificate_holds block v h some_voter enough = (
    record { block = block; sig = some h.sig },
    h.cert,
    refl,
    verify_aggregated-IsBuilt bls aggregates pubkeys threshold block h.sig h.built
        (omega (arith, h.counted)) (omega (arith, h.counted)),
  )

  collect_votes-IsCertifying :
      (block : Bytes) (votes : List Vote) (v v' : Votes)
      → IsCertifying block v
      → threshold ≤ v.majority
      → collect_votes (with_bls env bls threshold pubkeys) votes v ≡ ok (true, v')
      → IsCertifying block v' × (0 < length v'.voters) × (threshold ≤ length v'.voters)
  unfolding collect_votes
  collect_votes-IsCertifying block [] v v' h enough q = cc
  collect_votes-IsCertifying block (vote ∷ votes) v v' h enough q =
      go (collect_vote (with_bls env bls threshold pubkeys) vote v) refl q
        (λ w h' enough' q'. collect_votes-IsCertifying block votes w v' h' enough' q')
    where
      go :
          (o : Outcome (Bool × Votes))
          → collect_vote (with_bls env bls threshold pubkeys) vote v ≡ o
          → go_on o (collect_votes (with_bls env bls threshold pubkeys) votes) ≡ ok (true, v')
          → ((w : Votes)
              → IsCertifying block w
              → threshold ≤ w.majority
              → collect_votes (with_bls env bls threshold pubkeys) votes w ≡ ok (true, v')
              → IsCertifying block v' × (0 < length v'.voters) × (threshold ≤ length v'.voters))
          → IsCertifying block v' × (0 < length v'.voters) × (threshold ≤ length v'.voters)
      go (crash r) p q later = cc
      go (ok (false, w)) p q later =
          let (h', same, _) = collect_vote-IsCertifying block vote v w false h p in
          later w h' (rw same enough) q
      go (ok (true, w)) p q later =
          let (h', same, counts) = collect_vote-IsCertifying block vote v w true h p in
          let (some_voter, majority) = counts refl in
          let last : w ≡ v' = cc in rw (← last) (h', some_voter, omega (arith, majority, enough))

  -- From the start of a collection, and whatever votes come in: the certificate that Votes holds
  -- when Collect reports a majority is for the header's block, and VerifyAggregated accepts it,
  -- if the verifier asks for no more voters than the majority has.
  pub collect_votes-verifies :
      (h : Header) (votes : List Vote) (v v' : Votes)
      → v.voters ≡ []
      → threshold ≤ v.majority
      → collect_votes (with_bls env bls threshold pubkeys) votes (start_votes env h v)
        ≡ ok (true, v')
      → (cert : Certificate) × (v'.cert ≡ some cert)
        × (cert.block ≡ header_hash env h)
        × (verify_aggregated bls threshold pubkeys (header_hash env h) cert.sig ≡ ok true)
  collect_votes-verifies h votes v v' fresh enough q =
      let (built_up, some_voter, many) =
        collect_votes-IsCertifying (header_hash env h) votes (start_votes env h v) v'
          (start_votes-IsCertifying h v fresh) (unfold start_votes in enough) q in
      certificate_holds (header_hash env h) v' built_up some_voter many
