-- ===== src/Utils/Votes/Abstract.antt =====
-- utils.go: Votes.Collect against a set of replicas, in which the order of the votes leaves no trace.
use mathlib.Core.Quot
use mathlib.Core.Quot.{Quot, Quot-set}
use mathlib.Core.Logic.{∥∥₁_elim}
use mathlib.Core.List.{Perm, Permᴰ}
use coded_hotterstuff.Prelude.{
  ℕ, ◌≡◌, refl, ap, sym, ◌∙◌, Bool, true, ◌&&◌, ◌||◌, ◌==◌, if◌then◌else◌, Bool-cases, inl, inr,
  List, [], ◌∷◌, some, arith,
}
use coded_hotterstuff.Prelude.Bytes.{Bytes, bytes_eq}
use coded_hotterstuff.Exec.{Outcome, ok, crash}
use coded_hotterstuff.Types.{Certificate, Vote}
use coded_hotterstuff.Env.{Env}
use coded_hotterstuff.Utils.Votes.{Votes, exists, collect_vote, collect_vote_for}
use coded_hotterstuff.Utils.Votes.Quorum.{merge_vote-IsAdded, IsAdded}

-- Two lists have the same members.
abbrev pub SameMembers : List ℕ → List ℕ → Type 0
SameMembers xs ys = (k : ℕ) → exists xs k ≡ exists ys k

-- A set of replicas.
abbrev pub Voters : Type 0
Voters = Quot SameMembers

pub SameMembers-cons : (x : ℕ) (xs ys : List ℕ) → SameMembers xs ys → SameMembers (x ∷ xs) (x ∷ ys)
unfolding exists
SameMembers-cons x xs ys h k = ap (λ b. (x == k) || b) (h k)

unfoldable pub insert : ℕ → Voters → Voters
insert x =
    Quot.lift Quot-set (λ xs. Quot.mk (x ∷ xs)) (λ xs ys h. Quot.sound (SameMembers-cons x xs ys h))

insert_comm : (x y : ℕ) (s : Voters) → insert x (insert y s) ≡ insert y (insert x s)
unfolding insert
insert_comm x y =
    Quot.ind (λ s. Quot-set _ _) (λ xs. Quot.sound (unfold exists in λ k. ground arith))

-- To count a replica that is counted changes nothing.
insert_known : (x : ℕ) (xs : List ℕ) → exists xs x ≡ true → insert x (Quot.mk xs) ≡ Quot.mk xs
unfolding insert
insert_known x xs h = Quot.sound (
    unfold exists in
    λ k. elim (Bool-cases (x == k)) [
      | inl same ↦ let eq : x ≡ k = ground arith in rw same (sym (rw eq at h))
      | inr other ↦ rw other refl
    ])

module _ (env : Env) (block : Bytes) where
  -- The votes that count: for the block, and with a valid signature.
  abbrev pub counts : Vote → Bool
  counts vote = bytes_eq block vote.block && env.verifier.verify vote.voter block vote.sig

  abbrev pub count : Vote → Voters → Voters
  count vote s = if counts vote then insert vote.voter s else s

  -- The specification: the set of the replicas whose votes count.
  abbrev pub count_all : List Vote → Voters → Voters
  count_all [] s = s
  count_all (vote ∷ votes) s = count_all votes (count vote s)

  count_comm : (v w : Vote) (s : Voters) → count v (count w s) ≡ count w (count v s)
  count_comm v w s = elim (Bool-cases (counts v)) [
    | inr not_v ↦ rw not_v refl
    | inl is_v ↦ elim (Bool-cases (counts w)) [
      | inr not_w ↦ rw not_w refl
      | inl is_w ↦ rw is_v (rw is_w (insert_comm v.voter w.voter s))
    ]
  ]

  count_all-Permᴰ : {xs ys : List Vote} (s : Voters) → Permᴰ xs ys → count_all xs s ≡ count_all ys s
  count_all-Permᴰ s Permᴰ.nil = refl
  count_all-Permᴰ s (Permᴰ.cons {b = b} eq p) = rw eq (count_all-Permᴰ (count b s) p)
  count_all-Permᴰ s (Permᴰ.swap {a = a} {b = b} {l = l} eq eq') =
      rw (← eq) (rw (← eq') (ap (count_all l) (count_comm b a s)))
  count_all-Permᴰ s (Permᴰ.trans p q) = count_all-Permᴰ s p ∙ count_all-Permᴰ s q

  -- The order of the votes leaves no trace in the set.
  pub count_all-Perm :
      {xs ys : List Vote} (s : Voters) → Perm xs ys → count_all xs s ≡ count_all ys s
  count_all-Perm s p = ∥∥₁_elim p (Quot-set _ _) (count_all-Permᴰ s)

-- What a collection knows as a set.
abbrev pub voters_of : Votes → Voters
voters_of v = Quot.mk v.voters

module _ (env : Env) where
  -- The outcome of a call of Collect against the specification.
  record Refines (cert : Certificate) (vote : Vote) (v v' : Votes) : Type 0 where
    set : voters_of v' ≡ count env cert.block vote (voters_of v)
    cert' : Certificate
    held : v'.cert ≡ some cert'
    same_block : cert'.block ≡ cert.block

  unchanged :
      (cert : Certificate) (vote : Vote) (v : Votes)
      → v.cert ≡ some cert
      → voters_of v ≡ count env cert.block vote (voters_of v)
      → Refines cert vote v v
  unchanged cert vote v held same = record {
    set = same;
    cert' = cert;
    held = held;
    same_block = refl;
  }

  -- A replica that is counted is not counted again.
  known :
      (block : Bytes) (vote : Vote) (v : Votes)
      → exists v.voters vote.voter ≡ true
      → voters_of v ≡ count env block vote (voters_of v)
  known block vote v h = elim (Bool-cases (counts env block vote)) [
    | inl good ↦ rw good (sym (insert_known vote.voter v.voters h))
    | inr bad ↦ rw bad refl
  ]

  added :
      (cert : Certificate) (vote : Vote) (done : Bool) (v v' : Votes)
      → bytes_eq cert.block vote.block ≡ true
      → IsAdded env cert vote done v v'
      → Refines cert vote v v'
  added cert vote done v v' for_block a = record {
    set = rw for_block (rw a.valid (unfold insert in ap (λ xs. Quot.mk xs) a.voters));
    cert' = record cert { sig = some (env.verifier.merge a.old_sig vote.voter vote.sig) };
    held = a.cert';
    same_block = refl;
  }

  collect_vote_for-Refines :
      (cert : Certificate) (vote : Vote) (v v' : Votes) (done : Bool)
      → v.cert ≡ some cert
      → collect_vote_for env (some cert) vote v ≡ ok (done, v')
      → Refines cert vote v v'
  unfolding collect_vote_for
  collect_vote_for-Refines cert vote v v' done held q =
      elim (Bool-cases (bytes_eq cert.block vote.block)) [
        | inr other ↦
            let q' = rw other at q in
            let same : v ≡ v' = ground arith in
            rw (← same) (unchanged cert vote v held (rw other refl))
        | inl for_block ↦
            let q1 = rw for_block at q in
            elim (Bool-cases (exists v.voters vote.voter)) [
              | inl twice ↦
                  let q' = rw twice at q1 in
                  let same : v ≡ v' = ground arith in
                  rw (← same) (unchanged cert vote v held (known cert.block vote v twice))
              | inr new ↦
                  let q2 = rw new at q1 in
                  elim (Bool-cases (env.verifier.verify vote.voter cert.block vote.sig)) [
                    | inr forged ↦
                        let q' = rw forged at q2 in
                        let same : v ≡ v' = ground arith in
                        rw (← same) (unchanged cert vote v held (rw for_block (rw forged refl)))
                    | inl valid ↦ added cert vote done v v' for_block (
                        merge_vote-IsAdded env cert cert.sig vote v v' done new valid
                          (rw valid at q2))
                  ]
            ]
      ]

  -- Calls of Collect, one after the other.
  unfoldable pub collect_each : List Vote → Votes → Outcome Votes
  collect_each [] v = ok v
  collect_each (vote ∷ votes) v = elim (collect_vote env vote v) [
    | crash r ↦ crash r
    | ok (_, w) ↦ collect_each votes w
  ]

  -- A collection that has a certificate for a block counts the set of the replicas that the
  -- specification counts: those it had, and those with a vote for the block and a valid signature.
  pub collect_each_refines :
      (votes : List Vote) (v v' : Votes) (cert : Certificate)
      → v.cert ≡ some cert
      → collect_each votes v ≡ ok v'
      → voters_of v' ≡ count_all env cert.block votes (voters_of v)
  unfolding collect_each
  collect_each_refines [] v v' cert held h = let same : v ≡ v' = cc in rw same refl
  collect_each_refines (vote ∷ votes) v v' cert held h =
      go (collect_vote env vote v) refl h λ w c held' h'. collect_each_refines votes w v' c held' h'
    where
      go :
          (o : Outcome (Bool × Votes))
          → collect_vote env vote v ≡ o
          → (elim o [ crash r ↦ crash r | ok (_, w) ↦ collect_each votes w ]) ≡ ok v'
          → ((w : Votes) (c : Certificate)
              → w.cert ≡ some c
              → collect_each votes w ≡ ok v'
              → voters_of v' ≡ count_all env c.block votes (voters_of w))
          → voters_of v' ≡ count_all env cert.block (vote ∷ votes) (voters_of v)
      go (crash r) p q later = cc
      go (ok (done, w)) p q later =
          let r : Refines cert vote v w =
            collect_vote_for-Refines cert vote v w done held
              (ap (λ o. collect_vote_for env o vote v) (sym held) ∙ (unfold collect_vote in p)) in
          later w r.cert' r.held q
          ∙ ap (λ b. count_all env b votes (voters_of w)) r.same_block
          ∙ ap (count_all env cert.block votes) r.set

  -- Two replicas that start the same collection and receive the same votes, each in its own order,
  -- count the same set of replicas.
  pub collect_each_any_order :
      (xs ys : List Vote) (v v' v'' : Votes) (cert : Certificate)
      → v.cert ≡ some cert
      → Perm xs ys
      → collect_each xs v ≡ ok v'
      → collect_each ys v ≡ ok v''
      → voters_of v' ≡ voters_of v''
  collect_each_any_order xs ys v v' v'' cert held perm h k =
      collect_each_refines xs v v' cert held h
      ∙ count_all-Perm env cert.block (voters_of v) perm
      ∙ sym (collect_each_refines ys v v'' cert held k)
