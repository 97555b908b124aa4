-- ===== src/Examples/World.antt =====
-- A world in which everything computes: keys and random bytes are counted, a signature is the sum of
-- the key and the message, and signatures add up.
use mathlib.Core.HLevel.{Σ_prop_path}
use native.Mathlib.Bridge.{le_prop}
use coded_hotterstuff.Prelude.{
  ℕ, zero, suc, ◌+◌, ◌%◌, ◌<◌, ◌≤◌, ◌≡◌, ◌≢◌, refl, ap, true, ltb, Bool-cases, ◌==◌, ==_iff, inl,
  inr, if◌then◌else◌, List, [], ◌∷◌, ◌++◌, length, All, Option, none, some, arith,
}
use coded_hotterstuff.Prelude.Bytes.{Bytes, IsByte}
use coded_hotterstuff.Env.{IsMap}
use coded_hotterstuff.Crypto.{Bls}
use coded_hotterstuff.Crypto.Complete.{Aggregates}
use coded_hotterstuff.Node.New.{Platform, env_of}
use coded_hotterstuff.Program.Genesis.{World}
use coded_hotterstuff.Program.Genesis.Signed.{IsDocumented}
use coded_hotterstuff.Examples.Toy.{lookup, lookup-put_self, lookup-put_ne}

-- A number below 256.
abbrev pub Point : Type 0
Point = (n : ℕ) × (n < 256)

abbrev pub sum_of : Bytes → ℕ
sum_of [] = 0
sum_of (b ∷ bs) = b + sum_of bs

abbrev pub point : ℕ → Point
point n = (n % 256, omega arith)

-- The sum over the keys of key and message.
abbrev pub total : ℕ → List ℕ → ℕ
total m [] = 0
total m (k ∷ ks) = (k + m) + total m ks

total-append : (m : ℕ) (ks : List ℕ) (k : ℕ) → total m (ks ++ k ∷ []) ≡ total m ks + (k + m)
total-append m [] k = omega arith
total-append m (x ∷ ks) k = omega (arith, total-append m ks k)

abbrev pub decompress : Bytes → Option Point
decompress (b ∷ []) = if ltb b 256 then some (point b) else none
decompress _ = none

abbrev pub sum_bls : Bls
sum_bls = record {
  PublicKey = ℕ;
  SecretKey = ℕ;
  Signature = Point;
  sign = λ m k. point (k + sum_of m);
  to_compressed = λ s. s.0 ∷ [];
  from_compressed = decompress;
  verify = λ m s k. s.0 == (k + sum_of m) % 256;
  verify_aggregate_common = λ m ks s. s.0 == total (sum_of m) ks % 256;
  aggregate = λ s t. point (s.0 + t.0);
}

same_point : (s : Point) → decompress (s.0 ∷ []) ≡ some s
same_point s =
    let fits : ltb s.0 256 ≡ true = let small = s.1 in ground arith in
    rw fits
      (ap (λ (q : Point). some q) (Σ_prop_path (λ n. le_prop) (let small = s.1 in omega arith)))

sum_bls-Aggregates : Aggregates sum_bls
sum_bls-Aggregates = record {
  one = λ m k s h. ground arith;
  more = λ m ks k s t p q. ground (arith, total-append (sum_of m) ks k);
  points = same_point;
}

-- A hash of 32 bytes: the first bytes of the message.
abbrev pub fill : ℕ → Bytes → Bytes
fill zero bs = []
fill (suc n) [] = 0 ∷ fill n []
fill (suc n) (b ∷ bs) = b % 256 ∷ fill n bs

fill-IsByte : (n : ℕ) (bs : Bytes) → All IsByte (fill n bs)
fill-IsByte zero bs = tt
fill-IsByte (suc n) [] = (omega arith, fill-IsByte n [])
fill-IsByte (suc n) (b ∷ bs) = (omega arith, fill-IsByte n bs)

length-fill : (n : ℕ) (bs : Bytes) → length (fill n bs) ≡ n
length-fill zero bs = refl
length-fill (suc n) [] = ap suc (length-fill n [])
length-fill (suc n) (b ∷ bs) = ap suc (length-fill n bs)

abbrev pub platform : Platform
platform = record {
  Db = List (Bytes × Bytes);
  db_get = λ d k. lookup k d;
  db_put = λ d k v. some ((k, v) ∷ d);
  blake2s = fill 32;
  bls = sum_bls;
  same_key = λ a b. a == b;
}

abbrev pub world : World
world = record {
  platform = platform;
  keys = record {
    Rng = ℕ;
    system_reader = 0;
    rand_secret_key = λ rng. some (rng, suc rng);
    public_key = λ k. k;
  };
  new_source = λ s. s;
  read = λ n rng. (fill n (rng ∷ []), suc rng);
  mem_db = some [];
}

world-IsMap : (priv : ℕ) (pubs : List ℕ) → IsMap (env_of platform priv pubs)
world-IsMap priv pubs = record {
  get-put_self = λ d k v e p. lookup-put_self d e k v p;
  get-put_ne = λ d k v e j p ne. lookup-put_ne d e k v j p ne;
}

compressed_point :
    (b : Bytes) (s : Point) → decompress b ≡ some s → (b ≢ []) × All IsByte b × (length b ≤ 192)
compressed_point [] s h = cc
compressed_point (x ∷ []) s h = elim (Bool-cases (ltb x 256)) [
  | inl fits ↦ (λ p. cc p, (ground arith, tt), omega arith)
  | inr large ↦ let h' = rw large at h in cc
]
compressed_point (x ∷ y ∷ b) s h = cc

pub world-IsDocumented : IsDocumented world
world-IsDocumented = record {
  map = world-IsMap;
  aggregates = sum_bls-Aggregates;
  signs = λ m k. (==_iff ((k + sum_of m) % 256) ((k + sum_of m) % 256)).1 refl;
  compressed = compressed_point;
  hash_size = λ b. (fill-IsByte 32 b, length-fill 32 b);
  read_size = λ n rng. (fill-IsByte n (rng ∷ []), length-fill n (rng ∷ []));
  draws = λ rng. (rng, suc rng, refl);
  opens = ([], refl, λ k. refl);
  writes = λ d k v. ((k, v) ∷ d, refl);
  same_key = λ a b. ==_iff a b;
}
