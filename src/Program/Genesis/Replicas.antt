-- ===== src/Program/Genesis/Replicas.antt =====
-- hotstuff-node/main.go: the replicas that createExampleNode lists, and their keys.
use coded_hotterstuff.Prelude.{
  ℕ, zero, suc, ◌<◌, ◌≡◌, refl, ap, List, [], ◌∷◌, length, get_elem?, some, arith,
}
use coded_hotterstuff.Node.New.{Replica, keys_of_replicas}
use coded_hotterstuff.Program.Genesis.{World, replicas_of}

module _ (w : World) where
  open w.platform use {bls}
  open bls use {PublicKey, SecretKey}

  pub keys_of_replicas-replicas_of :
      (pubs : List PublicKey) → keys_of_replicas w.platform (replicas_of w pubs) ≡ pubs
  unfolding keys_of_replicas replicas_of
  keys_of_replicas-replicas_of [] = refl
  keys_of_replicas-replicas_of (k ∷ ks) = ap (λ l. k ∷ l) (keys_of_replicas-replicas_of ks)

  pub length-replicas_of : (pubs : List PublicKey) → length (replicas_of w pubs) ≡ length pubs
  unfolding replicas_of
  length-replicas_of [] = refl
  length-replicas_of (k ∷ ks) = ap suc (length-replicas_of ks)

  pub replicas_of-at :
      (pubs : List PublicKey) (i : ℕ) (k : PublicKey)
      → get_elem? pubs i ≡ some k
      → get_elem? (replicas_of w pubs) i ≡ some (record { id = k })
  unfolding replicas_of
  replicas_of-at [] i k h = cc
  replicas_of-at (x ∷ ks) zero k h = let same : x ≡ k = cc in rw same refl
  replicas_of-at (x ∷ ks) (suc i) k h = replicas_of-at ks i k h

  pub key_at :
      (pubs : List PublicKey) (i : ℕ) (r : Replica w.platform)
      → get_elem? (replicas_of w pubs) i ≡ some r
      → get_elem? pubs i ≡ some r.id
  unfolding replicas_of
  key_at [] i r h = cc
  key_at (x ∷ ks) zero r h = let same : record { id = x } ≡ r = cc in rw (← same) refl
  key_at (x ∷ ks) (suc i) r h = key_at ks i r h

  pub in_range :
      {A : Type 0} (xs : List A) (i : ℕ) → i < length xs → (a : A) × (get_elem? xs i ≡ some a)
  in_range [] i h = absurd (omega arith)
  in_range (x ∷ xs) zero h = (x, refl)
  in_range (x ∷ xs) (suc i) h = in_range xs i (omega arith)

  -- No key is drawn twice.
  unfoldable pub AreDistinct : List PublicKey → Type 0
  AreDistinct pubs =
      (i j : ℕ) (k : PublicKey) → get_elem? pubs i ≡ some k → get_elem? pubs j ≡ some k → i ≡ j
