-- ===== src/Crypto/Keys.antt =====
-- crypto/utils.go: keys, from blssig and a source of random bytes.
pub mod Pairs
use coded_hotterstuff.Prelude.{ℕ, zero, suc, ◌≡◌, List, [], ◌∷◌, length, Option, none, some}
use coded_hotterstuff.Crypto.{Bls}

-- The calls of blssig and of the reader that the code passes it; `rand_secret_key` may fail, as a
-- read may. `system_reader` is rand.Reader of crypto/rand.
pub record KeySource (bls : Bls) : Type 1 where
  pub Rng : Type 0
  pub system_reader : Rng
  pub rand_secret_key : Rng → Option (bls.SecretKey × Rng)
  pub public_key : bls.SecretKey → bls.PublicKey

module _ (bls : Bls) (source : KeySource bls) where
  open bls use {PublicKey, SecretKey}
  open source use {Rng, public_key}

  -- A nil reader stands for the system's.
  unfoldable pub or_system : Option Rng → Rng
  or_system none = source.system_reader
  or_system (some rng) = rng

  unfoldable pub with_public : Option (SecretKey × Rng) → Option (SecretKey × PublicKey × Rng)
  with_public none = none
  with_public (some (priv, rng)) = some (priv, public_key priv, rng)

  -- GenerateKey
  unfoldable pub generate_key : Option Rng → Option (SecretKey × PublicKey × Rng)
  unfolding or_system with_public
  generate_key rng = with_public (source.rand_secret_key (or_system rng))

  abbrev Keys : Type 0
  Keys = List PublicKey × List SecretKey × Rng

  unfoldable pub add_key : SecretKey → PublicKey → Option Keys → Option Keys
  add_key priv key none = none
  add_key priv key (some (pubs, privs, rng)) = some (key ∷ pubs, priv ∷ privs, rng)

  unfoldable pub key_then : Option (SecretKey × PublicKey × Rng) → (Rng → Option Keys) → Option Keys
  unfolding add_key
  key_then none rest = none
  key_then (some (priv, key, rng)) rest = add_key priv key (rest rng)

  -- GenerateKeys: the loop over the slots of the two slices.
  unfoldable pub generate_keys : Option Rng → ℕ → Option (List PublicKey × List SecretKey × Rng)
  unfolding generate_key key_then or_system
  generate_keys rng zero = some ([], [], or_system rng)
  generate_keys rng (suc n) = key_then (generate_key rng) (λ r. generate_keys (some r) n)

  -- Each public key is of the secret key in its place.
  abbrev pub ArePairs : List PublicKey → List SecretKey → Type 0
  ArePairs [] [] = Unit {0}
  ArePairs (key ∷ pubs) (priv ∷ privs) = (key ≡ public_key priv) × ArePairs pubs privs
  ArePairs _ _ = ⊥
