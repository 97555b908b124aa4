-- ===== src/Crypto/Complete.antt =====
-- crypto/verifier.go: certificates built by Merge, and VerifyAggregated.
use coded_hotterstuff.Prelude.{
  ℕ, ◌<◌, ◌≤◌, ◌≡◌, refl, ap, ◌∙◌, sym, ◌∙◌, true, false, ltb, if◌then◌else◌, List, [], ◌∷◌, ◌++◌,
  length, get_elem?, Option, none, some, arith,
}
use coded_hotterstuff.Prelude.Bytes.{Bytes}
use coded_hotterstuff.Exec.{ok}
use coded_hotterstuff.Types.{AggregatedSignature}
use coded_hotterstuff.Utils.Votes.{exists}
use coded_hotterstuff.Crypto.{
  Bls, array32, verify_with, verify, key_before, keys_of, verify_common, verify_aggregated, join,
  merged_sig, add_voter, merge,
}

-- What blssig documents of aggregation: one signature is an aggregate of one, and a further valid
-- signature on the same message may be added. A compressed point is decompressed to itself.
pub record Aggregates (bls : Bls) : Type 0 where
  pub one :
      (m : Bytes) (k : bls.PublicKey) (s : bls.Signature)
      → bls.verify m s k ≡ true
      → bls.verify_aggregate_common m (k ∷ []) s ≡ true
  pub more :
      (m : Bytes) (ks : List bls.PublicKey) (k : bls.PublicKey) (s t : bls.Signature)
      → bls.verify_aggregate_common m ks s ≡ true
      → bls.verify m t k ≡ true
      → bls.verify_aggregate_common m (ks ++ k ∷ []) (bls.aggregate s t) ≡ true
  pub points : (s : bls.Signature) → bls.from_compressed (bls.to_compressed s) ≡ some s

module _ (bls : Bls) (aggregates : Aggregates bls) (pubkeys : List bls.PublicKey) where
  -- The voters have keys, and the signature is an aggregate of theirs on the message.
  pub record IsAggregate (msg : Bytes) (voters : List ℕ) (sig : Bytes) : Type 0 where
    pub keys : List bls.PublicKey
    pub keyed : keys_of bls pubkeys voters ≡ some keys
    pub point : bls.Signature
    pub decoded : bls.from_compressed sig ≡ some point
    pub accepted : bls.verify_aggregate_common (array32 msg) keys point ≡ true

  key_before-inv :
      (k : Option bls.PublicKey) (r : Option (List bls.PublicKey)) (ks : List bls.PublicKey)
      → key_before bls k r ≡ some ks
      → (key : bls.PublicKey) × (rest : List bls.PublicKey) × (k ≡ some key)
        × (r ≡ some rest)
        × (ks ≡ key ∷ rest)
  unfolding key_before
  key_before-inv none r ks p = cc
  key_before-inv (some k) none ks p = cc
  key_before-inv (some k) (some rest) ks p = (k, rest, refl, refl, cc)

  keys_of-append :
      (voters : List ℕ) (voter : ℕ) (keys : List bls.PublicKey) (key : bls.PublicKey)
      → keys_of bls pubkeys voters ≡ some keys
      → get_elem? pubkeys voter ≡ some key
      → keys_of bls pubkeys (voters ++ voter ∷ []) ≡ some (keys ++ key ∷ [])
  unfolding keys_of key_before
  keys_of-append [] voter keys key p q = let same : [] ≡ keys = cc in rw (← same) (rw q refl)
  keys_of-append (v ∷ vs) voter keys key p q =
      let (k, rest, pk, pr, same) =
        key_before-inv (get_elem? pubkeys v) (keys_of bls pubkeys vs) keys p in
      let tail = keys_of-append vs voter rest key pr q in
      ap (λ (o : Option bls.PublicKey). key_before bls o (keys_of bls pubkeys (vs ++ voter ∷ [])))
        pk
      ∙ ap (λ (o : Option (List bls.PublicKey)). key_before bls (some k) o) tail
      ∙ ap (λ (ks : List bls.PublicKey). some (ks ++ key ∷ [])) (sym same)

  -- A valid signature names a key and is a point.
  record IsValid (voter : ℕ) (msg sig : Bytes) : Type 0 where
    key : bls.PublicKey
    keyed : get_elem? pubkeys voter ≡ some key
    point : bls.Signature
    decoded : bls.from_compressed sig ≡ some point
    accepted : bls.verify (array32 msg) point key ≡ true

  verify-IsValid :
      (voter : ℕ) (msg sig : Bytes)
      → verify bls pubkeys voter msg sig ≡ true
      → IsValid voter msg sig
  unfolding verify verify_with
  verify-IsValid voter msg sig h =
      go (get_elem? pubkeys voter) (bls.from_compressed sig) refl refl h
    where
      go :
          (k : Option bls.PublicKey) (s : Option bls.Signature)
          → get_elem? pubkeys voter ≡ k
          → bls.from_compressed sig ≡ s
          → verify_with bls k s msg ≡ true
          → IsValid voter msg sig
      go none s p q h = cc
      go (some k) none p q h = cc
      go (some k) (some s) p q h = record {
        key = k;
        keyed = p;
        point = s;
        decoded = q;
        accepted = h;
      }

  -- Nothing was merged yet, or the signature is an aggregate of its voters'.
  pub data IsBuilt (msg : Bytes) : AggregatedSignature → Type 0 where
    unsigned : IsBuilt msg (record { voters = []; sig = none })
    built :
        {voters : List ℕ} {sig : Bytes}
        → IsAggregate msg voters sig
        → IsBuilt msg (record { voters = voters; sig = some sig })

  add_one : (voter : ℕ) (msg sig : Bytes) → IsValid voter msg sig → IsAggregate msg (voter ∷ []) sig
  unfolding keys_of key_before
  add_one voter msg sig v = record {
    keys = v.key ∷ [];
    keyed = rw v.keyed refl;
    point = v.point;
    decoded = v.decoded;
    accepted = aggregates.one (array32 msg) v.key v.point v.accepted;
  }

  add_more :
      (voter : ℕ) (msg sig : Bytes) (voters : List ℕ) (old : Bytes)
      → IsAggregate msg voters old
      → IsValid voter msg sig
      → (new : Bytes) × (merged_sig bls (some old) sig ≡ some new)
        × IsAggregate msg (voters ++ voter ∷ []) new
  unfolding merged_sig join
  add_more voter msg sig voters old a v = (
    bls.to_compressed (bls.aggregate a.point v.point),
    rw a.decoded (rw v.decoded refl),
    record {
      keys = a.keys ++ v.key ∷ [];
      keyed = keys_of-append voters voter a.keys v.key a.keyed v.keyed;
      point = bls.aggregate a.point v.point;
      decoded = aggregates.points (bls.aggregate a.point v.point);
      accepted = aggregates.more (array32 msg) a.keys v.key a.point v.point a.accepted v.accepted;
    },
  )

  -- Merge of a valid signature of a new voter.
  merge-new :
      (asig : AggregatedSignature) (voter : ℕ) (sig : Bytes) (key : bls.PublicKey)
      → get_elem? pubkeys voter ≡ some key
      → exists asig.voters voter ≡ false
      → merge bls pubkeys asig voter sig ≡ add_voter bls asig voter (merged_sig bls asig.sig sig)
  unfolding merge
  merge-new asig voter sig key p q =
      ap
        (λ (k : Option bls.PublicKey). elim k [
          | none ↦ asig
          | some key ↦
              if exists asig.voters voter
              then asig
              else add_voter bls asig voter (merged_sig bls asig.sig sig)
        ])
        p
      ∙ rw q refl

  pub merge-IsBuilt :
      (msg : Bytes) (asig : AggregatedSignature) (voter : ℕ) (sig : Bytes)
      → IsBuilt msg asig
      → verify bls pubkeys voter msg sig ≡ true
      → exists asig.voters voter ≡ false
      → IsBuilt msg (merge bls pubkeys asig voter sig)
        × ((merge bls pubkeys asig voter sig).voters ≡ asig.voters ++ voter ∷ [])
  unfolding add_voter merged_sig
  merge-IsBuilt msg _ voter sig unsigned h new =
      let v = verify-IsValid voter msg sig h in
      rw (merge-new (record { voters = []; sig = none }) voter sig v.key v.keyed new)
        (built (add_one voter msg sig v), refl)
  merge-IsBuilt msg _ voter sig (built {voters = voters} {sig = old} a) h new =
      let v = verify-IsValid voter msg sig h in
      let (joined, p, a') = add_more voter msg sig voters old a v in
      rw (merge-new (record { voters = voters; sig = some old }) voter sig v.key v.keyed new)
        (rw p (built a', refl))

  -- Enough voters, and one at least.
  pub verify_aggregated-IsBuilt :
      (threshold : ℕ) (msg : Bytes) (asig : AggregatedSignature)
      → IsBuilt msg asig
      → 0 < length asig.voters
      → threshold ≤ length asig.voters
      → verify_aggregated bls threshold pubkeys msg (some asig) ≡ ok true
  unfolding verify_aggregated verify_common
  verify_aggregated-IsBuilt threshold msg _ unsigned some_voter enough = absurd (omega arith)
  verify_aggregated-IsBuilt threshold msg _ (built {voters = voters} {sig = sig} a) some_voter
        enough =
      let counted : ltb (length voters) threshold ≡ false = ground arith in
      rw counted (rw a.keyed (rw a.decoded (rw a.accepted refl)))

module _ (bls : Bls) where
  pub verify-key :
      (pubkeys : List bls.PublicKey) (voter : ℕ) (msg sig : Bytes) (key : bls.PublicKey)
      (point : bls.Signature)
      → get_elem? pubkeys voter ≡ some key
      → bls.from_compressed sig ≡ some point
      → bls.verify (array32 msg) point key ≡ true
      → verify bls pubkeys voter msg sig ≡ true
  unfolding verify verify_with
  verify-key pubkeys voter msg sig key point keyed decoded accepted = rw keyed (rw decoded accepted)
