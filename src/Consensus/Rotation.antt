-- ===== src/Consensus/Rotation.antt =====
-- consensus.go, getLeader: whose turn it is.
use native.Mathlib.Nat.{div-add-mod, mul-add-mod_self_left, add-mod_left, mod-lt, mod-eq_of_lt}
use coded_hotterstuff.Prelude.{
  ◌^◌, ℕ, zero, suc, ◌+◌, ◌-◌, ◌*◌, ◌/◌, ◌%◌, ◌<◌, ◌≤◌, ◌≡◌, ◌⊎◌, leb, Bool-cases, ap, ◌∙◌, inl,
  inr, List, [], ◌∷◌, length, get_elem?, Option, none, some, arith,
}
use coded_hotterstuff.Exec.{ok, crash, panic}
use coded_hotterstuff.Consensus.State.{leader_of, add64}

le_or_lt : (a b : ℕ) → (a ≤ b) ⊎ (b < a)
le_or_lt a b = elim (Bool-cases (leb a b)) [
  | inl le ↦ inl (ground arith)
  | inr lt ↦ inr (ground arith)
]

get_elem?-lt : (xs : List ℕ) (i : ℕ) {x : ℕ} → get_elem? xs i ≡ some x → i < length xs
get_elem?-lt [] i p = cc
get_elem?-lt (y ∷ ys) zero p = omega arith
get_elem?-lt (y ∷ ys) (suc i) p = omega (arith, get_elem?-lt ys i p)

-- Whole turns do not count.
after_turns : (n q i : ℕ) → i < n → (n * q + i) % n ≡ i
after_turns n q i h = mul-add-mod_self_left n q i ∙ mod-eq_of_lt h

after_one_more : (n q i : ℕ) → i < n → (n * q + (n + i)) % n ≡ i
after_one_more n q i h = mul-add-mod_self_left n q (n + i) ∙ add-mod_left n i ∙ mod-eq_of_lt h

-- A place of a cycle of `n` is come to within one turn, from anywhere.
comes_round : (n v i : ℕ) → i < n → (k : ℕ) × (k < n) × ((v + k) % n ≡ i)
comes_round n v i h = go (le_or_lt (v % n) i)
  where
    split : n * (v / n) + v % n ≡ v
    split = div-add-mod v n

    short : v % n < n
    short = mod-lt v (omega arith)

    go : (v % n ≤ i) ⊎ (i < v % n) → (k : ℕ) × (k < n) × ((v + k) % n ≡ i)
    go (inl le) = (
      i - v % n,
      omega (arith, le),
      ap (λ (t : ℕ). t % n) (omega (arith, split, le)) ∙ after_turns n (v / n) i h,
    )
    go (inr lt) = (
      n + i - v % n,
      omega (arith, lt, short),
      ap (λ (t : ℕ). t % n) (omega (arith, split, lt, short)) ∙ after_one_more n (v / n) i h,
    )

-- From a view on that is so far from the end of the uint64s that the next views, as many as there are
-- replicas, do not wrap around, each replica is the leader of one of those views.
pub leader_of-rotates :
    (replicas : List ℕ) (view i id : ℕ)
    → view + length replicas ≤ 2 ^ 64
    → get_elem? replicas i ≡ some id
    → (k : ℕ) × (k < length replicas) × (leader_of replicas (add64 view k) ≡ ok id)
unfolding leader_of
leader_of-rotates replicas view i id far p =
    let (k, short, place) = comes_round (length replicas) view i (get_elem?-lt replicas i p) in
    let fits : (view + k) % 2 ^ 64 ≡ view + k = mod-eq_of_lt (omega arith) in
    (
      k,
      short,
      ap (λ (j : ℕ). elim (get_elem? replicas j) [ none ↦ crash panic | some id ↦ ok id ])
            (ap (λ (v : ℕ). v % length replicas) fits ∙ place)
          ∙ ap (λ (o : Option ℕ). elim o [ none ↦ crash panic | some id ↦ ok id ]) p,
    )
