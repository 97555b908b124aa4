-- ===== src/Program/Process/Queues.antt =====
-- hotstuff-node/main.go: the array of channels, with one queue changed.
use coded_hotterstuff.Prelude.{
  ℕ, zero, suc, ◌<◌, ◌≡◌, ◌≢◌, refl, ap, List, [], ◌∷◌, ◌++◌, replicate, length, get_elem?, some,
  arith,
}
use coded_hotterstuff.Program.Process.{push, pop, rest_of}

module _ {ℓ} {A : Type ℓ} where
  -- The queue with the index; none is empty.
  abbrev pub queue_at : ℕ → List (List A) → List A
  queue_at i [] = []
  queue_at zero (q ∷ qs) = q
  queue_at (suc i) (q ∷ qs) = queue_at i qs

  pub get_elem?-lt :
      (i : ℕ) (qs : List (List A)) {q : List A} → get_elem? qs i ≡ some q → i < length qs
  get_elem?-lt i [] h = cc
  get_elem?-lt zero (q ∷ qs) h = omega arith
  get_elem?-lt (suc i) (q ∷ qs) h = omega (arith, get_elem?-lt i qs h)

  pub queue_at-get_elem? :
      (i : ℕ) (qs : List (List A)) {q : List A} → get_elem? qs i ≡ some q → queue_at i qs ≡ q
  queue_at-get_elem? i [] h = cc
  queue_at-get_elem? zero (q ∷ qs) h = cc
  queue_at-get_elem? (suc i) (q ∷ qs) h = queue_at-get_elem? i qs h

  pub length-push : (i : ℕ) (a : A) (qs : List (List A)) → length (push i a qs) ≡ length qs
  length-push i a [] = refl
  length-push zero a (q ∷ qs) = refl
  length-push (suc i) a (q ∷ qs) = ap suc (length-push i a qs)

  pub length-pop : (i : ℕ) (qs : List (List A)) → length (pop i qs) ≡ length qs
  length-pop i [] = refl
  length-pop zero (q ∷ qs) = refl
  length-pop (suc i) (q ∷ qs) = ap suc (length-pop i qs)

  pub queue_at-push_self :
      (i : ℕ) (a : A) (qs : List (List A))
      → i < length qs
      → queue_at i (push i a qs) ≡ queue_at i qs ++ a ∷ []
  queue_at-push_self i a [] h = absurd (omega arith)
  queue_at-push_self zero a (q ∷ qs) h = refl
  queue_at-push_self (suc i) a (q ∷ qs) h = queue_at-push_self i a qs (omega arith)

  pub queue_at-push_ne :
      (i j : ℕ) (a : A) (qs : List (List A)) → j ≢ i → queue_at i (push j a qs) ≡ queue_at i qs
  queue_at-push_ne i j a [] ne = refl
  queue_at-push_ne zero zero a (q ∷ qs) ne = absurd (ne refl)
  queue_at-push_ne zero (suc j) a (q ∷ qs) ne = refl
  queue_at-push_ne (suc i) zero a (q ∷ qs) ne = refl
  queue_at-push_ne (suc i) (suc j) a (q ∷ qs) ne = queue_at-push_ne i j a qs (λ p. ne (ap suc p))

  pub queue_at-pop_self :
      (i : ℕ) (qs : List (List A)) → queue_at i (pop i qs) ≡ rest_of (queue_at i qs)
  queue_at-pop_self i [] = refl
  queue_at-pop_self zero (q ∷ qs) = refl
  queue_at-pop_self (suc i) (q ∷ qs) = queue_at-pop_self i qs

  pub queue_at-pop_ne :
      (i j : ℕ) (qs : List (List A)) → j ≢ i → queue_at i (pop j qs) ≡ queue_at i qs
  queue_at-pop_ne i j [] ne = refl
  queue_at-pop_ne zero zero (q ∷ qs) ne = absurd (ne refl)
  queue_at-pop_ne zero (suc j) (q ∷ qs) ne = refl
  queue_at-pop_ne (suc i) zero (q ∷ qs) ne = refl
  queue_at-pop_ne (suc i) (suc j) (q ∷ qs) ne = queue_at-pop_ne i j qs (λ p. ne (ap suc p))

  pub queue_at-replicate : (i n : ℕ) → queue_at i (replicate n []) ≡ []
  queue_at-replicate i zero = refl
  queue_at-replicate zero (suc n) = refl
  queue_at-replicate (suc i) (suc n) = queue_at-replicate i n
