-- ===== src/Utils/Votes/Quorum.antt =====
-- utils.go: the replicas that Votes.Collect counts.
use coded_hotterstuff.Prelude.{
  ◌⊎◌, ℕ, ◌≤◌, ◌≡◌, refl, ap, sym, ◌∙◌, Bool, true, false, leb, Bool-cases, inl, inr, List, [], ◌∷◌,
  length, Option, none, some, All, arith,
}
use coded_hotterstuff.Prelude.Bytes.{Bytes, bytes_eq}
use coded_hotterstuff.Exec.{ok}
use coded_hotterstuff.Types.{AggregatedSignature, Certificate, Vote}
use coded_hotterstuff.Env.{Env}
use coded_hotterstuff.Utils.Votes.{Votes, exists, merge_vote, collect_vote_for, collect_vote}

-- No replica is listed twice.
abbrev pub Distinct : List ℕ → Type 0
Distinct [] = Unit {0}
Distinct (x ∷ xs) = (exists xs x ≡ false) × Distinct xs

module _ (env : Env) where
  -- A replica that has a valid signature on the block.
  pub record HasSigned (block : Bytes) (voter : ℕ) : Type 0 where
    pub sig : Bytes
    pub valid : env.verifier.verify voter block sig ≡ true

  -- The replicas counted are distinct and have signed the block of the certificate.
  pub record IsCounted (block : Bytes) (v : Votes) : Type 0 where
    pub distinct : Distinct v.voters
    pub signed : All (HasSigned block) v.voters

  -- What a call of Collect has done if it returned: nothing, or one vote more.
  pub record IsAdded (cert : Certificate) (vote : Vote) (done : Bool) (v v' : Votes) : Type 0 where
    pub new : exists v.voters vote.voter ≡ false
    pub valid : env.verifier.verify vote.voter cert.block vote.sig ≡ true
    pub voters : v'.voters ≡ vote.voter ∷ v.voters
    pub old_sig : AggregatedSignature
    pub old : cert.sig ≡ some old_sig
    pub cert' :
        v'.cert ≡ some (record cert { sig = some (env.verifier.merge old_sig vote.voter vote.sig) })
    pub same_majority : v'.majority ≡ v.majority
    pub majority : done ≡ leb v.majority (length v'.voters)

  pub merge_vote-IsAdded :
      (cert : Certificate) (sig : Option AggregatedSignature) (vote : Vote) (v v' : Votes)
      (done : Bool)
      → exists v.voters vote.voter ≡ false
      → env.verifier.verify vote.voter cert.block vote.sig ≡ true
      → merge_vote env cert sig vote v ≡ ok (done, v')
      → IsAdded (record cert { sig = sig }) vote done v v'
  unfolding merge_vote
  merge_vote-IsAdded cert none vote v v' done new valid q = cc
  merge_vote-IsAdded cert (some sig) vote v v' done new valid q = record {
    new = new;
    valid = valid;
    voters = ground arith;
    old_sig = sig;
    old = refl;
    cert' = ground arith;
    same_majority = ground arith;
    majority = ground arith;
  }

  pub collect_vote-cases :
      (cert : Certificate) (vote : Vote) (v v' : Votes) (done : Bool)
      → collect_vote_for env (some cert) vote v ≡ ok (done, v')
      → ((done ≡ false) × (v' ≡ v)) ⊎ IsAdded cert vote done v v'
  unfolding collect_vote_for
  collect_vote-cases cert vote v v' done q = elim (Bool-cases (bytes_eq cert.block vote.block)) [
    | inr other ↦ let q' = rw other at q in inl (ground arith, ground arith)
    | inl same ↦
        let q1 = rw same at q in
        elim (Bool-cases (exists v.voters vote.voter)) [
          | inl twice ↦ let q' = rw twice at q1 in inl (ground arith, ground arith)
          | inr new ↦
              let q2 = rw new at q1 in
              elim (Bool-cases (env.verifier.verify vote.voter cert.block vote.sig)) [
                | inr forged ↦ let q' = rw forged at q2 in inl (ground arith, ground arith)
                | inl valid ↦
                    inr (merge_vote-IsAdded cert cert.sig vote v v' done new valid (rw valid at q2))
              ]
        ]
  ]

  -- A vote is counted only if it is of a replica that was not counted yet and is signed for the
  -- block of the certificate; so the replicas counted stay distinct, each with a valid signature
  -- on that block. Collect reports a majority only if at least `majority` of them are counted.
  pub collect_vote-IsCounted :
      (vote : Vote) (v v' : Votes) (cert : Certificate) (done : Bool)
      → v.cert ≡ some cert
      → IsCounted cert.block v
      → collect_vote env vote v ≡ ok (done, v')
      → IsCounted cert.block v' × (done ≡ true → v.majority ≤ length v'.voters)
  unfolding collect_vote
  collect_vote-IsCounted vote v v' cert done p h q =
      elim (collect_vote-cases cert vote v v' done
        (ap (λ o. collect_vote_for env o vote v) (sym p) ∙ q)) [
          | inl (short, same) ↦ (rw same h, λ reached. cc)
          | inr added ↦ (
            record {
              distinct = rw added.voters (added.new, h.distinct);
              signed = rw added.voters (record { sig = vote.sig; valid = added.valid }, h.signed);
            },
            λ reached. ground (arith, added.majority),
          )
        ]
