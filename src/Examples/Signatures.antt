-- ===== src/Examples/Signatures.antt =====
-- Signatures in which everything computes: a signature is the list of the keys that signed.
use coded_hotterstuff.Prelude.{◌≡◌, refl, ℕ, true, [], ◌∷◌, ◌++◌, some}
use coded_hotterstuff.Prelude.Bytes.{Bytes, bytes_eq, bytes_eq_iff}
use coded_hotterstuff.Crypto.{Bls}
use coded_hotterstuff.Crypto.Complete.{Aggregates}

abbrev pub toy_bls : Bls
toy_bls = record {
  PublicKey = ℕ;
  SecretKey = ℕ;
  Signature = Bytes;
  sign = λ m k. k ∷ [];
  to_compressed = λ s. s;
  from_compressed = λ b. some b;
  verify = λ m s k. bytes_eq s (k ∷ []);
  verify_aggregate_common = λ m ks s. bytes_eq s ks;
  aggregate = λ s t. s ++ t;
}

joined :
    (ks s t : Bytes) (k : ℕ)
    → bytes_eq s ks ≡ true
    → bytes_eq t (k ∷ []) ≡ true
    → bytes_eq (s ++ t) (ks ++ k ∷ []) ≡ true
joined ks s t k p q =
    let same : s ≡ ks = (bytes_eq_iff s ks).0 p in
    let last : t ≡ k ∷ [] = (bytes_eq_iff t (k ∷ [])).0 q in
    (bytes_eq_iff (s ++ t) (ks ++ k ∷ [])).1 (rw same (rw last refl))

pub toy_bls-Aggregates : Aggregates toy_bls
toy_bls-Aggregates = record {
  one = λ m k s h. h;
  more = λ m ks k s t p q. joined ks s t k p q;
  points = λ s. refl;
}
