-- ===== src/Crypto/Keys/Pairs.antt =====
-- crypto/utils.go: what GenerateKeys gives.
use coded_hotterstuff.Prelude.{ℕ, zero, suc, ◌≡◌, refl, ap, List, [], ◌∷◌, length, Option, some}
use coded_hotterstuff.Crypto.{Bls}
use coded_hotterstuff.Crypto.Keys.{
  KeySource, or_system, with_public, generate_key, add_key, key_then, generate_keys, ArePairs,
}

module _ (bls : Bls) (source : KeySource bls) where
  open bls use {PublicKey, SecretKey}
  open source use {Rng, public_key}

  pub record Generated (n : ℕ) (o : Option (List PublicKey × List SecretKey × Rng)) : Type 0 where
    pub pubs : List PublicKey
    pub privs : List SecretKey
    pub rest : Rng
    pub drawn : o ≡ some (pubs, privs, rest)
    pub many : length pubs ≡ n
    pub pairs : ArePairs bls source pubs privs

  key_then-Generated :
      (n : ℕ) (priv : SecretKey) (rng : Rng)
      (rest : Rng → Option (List PublicKey × List SecretKey × Rng))
      → Generated n (rest rng)
      → Generated (suc n) (key_then bls source (some (priv, public_key priv, rng)) rest)
  unfolding key_then add_key
  key_then-Generated n priv rng rest g = record {
    pubs = public_key priv ∷ g.pubs;
    privs = priv ∷ g.privs;
    rest = g.rest;
    drawn = rw g.drawn refl;
    many = ap suc g.many;
    pairs = (refl, g.pairs);
  }

  -- With a source that never fails, there are as many pairs of keys as were asked for.
  pub generate_keys-Generated :
      ((rng : Rng) → (priv : SecretKey) × (r : Rng) × (source.rand_secret_key rng ≡ some (priv, r)))
      → (rng : Option Rng) (n : ℕ) → Generated n (generate_keys bls source rng n)
  unfolding generate_keys
  generate_keys-Generated draws rng zero = record {
    pubs = [];
    privs = [];
    rest = or_system bls source rng;
    drawn = refl;
    many = refl;
    pairs = tt;
  }
  generate_keys-Generated draws rng (suc n) =
      let (priv, r, drawn) = draws (or_system bls source rng) in
      let made : generate_key bls source rng ≡ some (priv, public_key priv, r) =
        unfold generate_key with_public in rw drawn refl in
      rw made (
        key_then-Generated n priv r (λ s. generate_keys bls source (some s) n)
          (generate_keys-Generated draws (some r) n))

  pub length-ArePairs :
      (pubs : List PublicKey) (privs : List SecretKey)
      → ArePairs bls source pubs privs
      → length privs ≡ length pubs
  length-ArePairs [] [] h = refl
  length-ArePairs [] (priv ∷ privs) h = absurd h
  length-ArePairs (key ∷ pubs) [] h = absurd h
  length-ArePairs (key ∷ pubs) (priv ∷ privs) h = ap suc (length-ArePairs pubs privs h.1)
