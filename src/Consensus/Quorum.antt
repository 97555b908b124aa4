-- ===== src/Consensus/Quorum.antt =====
-- newConsensus: the majority that both collections use.
use coded_hotterstuff.Prelude.{
  ℕ, suc, ◌+◌, ◌*◌, ◌<◌, ◌≤◌, ◌≡◌, refl, Bool, true, false, ◌&&◌, ◌==◌, ==_iff, Bool-cases, inl,
  inr, if◌then◌else◌, List, [], ◌∷◌, length, All, arith,
}
use coded_hotterstuff.Utils.Votes.{exists}
use coded_hotterstuff.Utils.Votes.Quorum.{Distinct}
use coded_hotterstuff.Consensus.Machine.{majority_of}

-- How many of the replicas pass a test.
unfoldable pub count : List ℕ → (ℕ → Bool) → ℕ
count [] test = 0
count (r ∷ rs) test = if test r then suc (count rs test) else count rs test

-- The replicas in both lists.
unfoldable pub in_both : List ℕ → List ℕ → ℕ → Bool
in_both xs ys r = exists xs r && exists ys r

count_sum :
    (rs : List ℕ) (p q : ℕ → Bool)
    → count rs p + count rs q ≤ length rs + count rs (λ r. p r && q r)
unfolding count
count_sum [] p q = omega arith
count_sum (r ∷ rs) p q = let rest = count_sum rs p q in ground arith

count_le :
    (rs : List ℕ) (p q : ℕ → Bool) → ((r : ℕ) → p r ≡ true → q r ≡ true) → count rs p ≤ count rs q
unfolding count
count_le [] p q h = omega arith
count_le (r ∷ rs) p q h = let rest = count_le rs p q h in let here = h r in ground arith

-- One replica more passes the second test.
count_lt :
    (rs : List ℕ) (p q : ℕ → Bool) (x : ℕ)
    → ((r : ℕ) → p r ≡ true → q r ≡ true)
    → exists rs x ≡ true
    → p x ≡ false
    → q x ≡ true
    → count rs p < count rs q
unfolding count exists
count_lt [] p q x h found fails passes = cc
count_lt (r ∷ rs) p q x h found fails passes = elim (Bool-cases (r == x)) [
  | inl same ↦
      let at_x : r ≡ x = (==_iff r x).0 same in
      let rest = count_le rs p q h in rw at_x (rw fails (rw passes (omega (arith, rest))))
  | inr other ↦
      let later : exists rs x ≡ true = rw other at found in
      let rest = count_lt rs p q x h later fails passes in let here = h r in ground arith
]

length-count :
    (rs xs : List ℕ)
    → Distinct xs
    → All (λ x. exists rs x ≡ true) xs
    → length xs ≤ count rs (exists xs)
length-count rs [] d h = omega arith
length-count rs (x ∷ xs) (new, d) (hx, hs) = omega (
  arith,
  length-count rs xs d hs,
  count_lt rs (exists xs) (exists (x ∷ xs)) x (λ r p. unfold exists in ground arith) hx new
      (unfold exists in ground (arith, (==_iff x x).1 refl)),
)

-- Two majorities, each of distinct replicas, have more than a third of the replicas in common.
pub majority_of-in_both :
    (replicas xs ys : List ℕ)
    → Distinct xs
    → Distinct ys
    → All (λ x. exists replicas x ≡ true) xs
    → All (λ y. exists replicas y ≡ true) ys
    → majority_of replicas ≤ length xs
    → majority_of replicas ≤ length ys
    → length replicas < 3 * count replicas (in_both xs ys)
unfolding majority_of in_both
majority_of-in_both replicas xs ys dx dy hx hy mx my = omega (
  arith,
  length-count replicas xs dx hx,
  length-count replicas ys dy hy,
  count_sum replicas (exists xs) (exists ys),
)
