-- ===== src/Examples/Toy.antt =====
-- An environment in which everything computes: an association list for the database, the identity
-- for the hash, and signatures that name their signer.
use coded_hotterstuff.Prelude.{
  ℕ, ◌≡◌, ◌≢◌, refl, true, if◌then◌else◌, Bool-cases, inl, inr, List, [], ◌∷◌, ◌++◌, Option, none,
  some, length, leb,
}
use coded_hotterstuff.Prelude.Bytes.{Bytes, bytes_eq, bytes_eq_iff}
use coded_hotterstuff.Exec.{ok, crash, panic}
use coded_hotterstuff.Env.{Env, IsMap}

abbrev pub lookup : Bytes → List (Bytes × Bytes) → Option Bytes
lookup k [] = none
lookup k ((j, v) ∷ m) = if bytes_eq j k then some v else lookup k m

-- A signature of replica `id` is the byte `id`; an aggregate needs `threshold` voters.
abbrev pub toy : ℕ → ℕ → Env
toy id threshold = record {
  Db = List (Bytes × Bytes);
  db_get = λ d k. lookup k d;
  db_put = λ d k v. some ((k, v) ∷ d);
  blake2s = λ b. b;
  signer = record { sign = λ m. ok (id ∷ []) };
  verifier = record {
    verify_aggregated =
        λ m s. elim s [ none ↦ crash panic | some a ↦ ok (leb threshold (length a.voters)) ];
    verify = λ voter m s. bytes_eq s (voter ∷ []);
    merge = λ a voter s. record a { voters = a.voters ++ voter ∷ []; sig = some s };
  };
}

pub lookup-put_self :
    (d e : List (Bytes × Bytes)) (k v : Bytes) → some ((k, v) ∷ d) ≡ some e → lookup k e ≡ some v
lookup-put_self d e k v p =
    let same : (k, v) ∷ d ≡ e = cc in
    let hit : bytes_eq k k ≡ true = (bytes_eq_iff k k).1 refl in rw (← same) (rw hit)

pub lookup-put_ne :
    (d e : List (Bytes × Bytes)) (k v j : Bytes)
    → some ((k, v) ∷ d) ≡ some e
    → k ≢ j
    → lookup j e ≡ lookup j d
lookup-put_ne d e k v j p ne =
    let same : (k, v) ∷ d ≡ e = cc in
    rw (← same) (elim (Bool-cases (bytes_eq k j)) [
      | inl hit ↦ absurd (ne ((bytes_eq_iff k j).0 hit))
      | inr miss ↦ rw miss
    ])

pub toy-IsMap : (id threshold : ℕ) → IsMap (toy id threshold)
toy-IsMap id threshold = record {
  get-put_self = λ d k v e p. lookup-put_self d e k v p;
  get-put_ne = λ d k v e j p ne. lookup-put_ne d e k v j p ne;
}
