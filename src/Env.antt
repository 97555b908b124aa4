-- ===== src/Env.antt =====
-- What a replica relies on outside the repository, or reaches through an interface: the database
-- (goleveldb), the hash (blake2s-256), and the interfaces Signer and Verifier of
-- consensus.go.
use coded_hotterstuff.Prelude.{ℕ, ◌≡◌, ◌≢◌, Bool, Option, some}
use coded_hotterstuff.Prelude.Bytes.{Bytes}
use coded_hotterstuff.Exec.{Outcome}
use coded_hotterstuff.Types.{AggregatedSignature}

-- `sign` is called with a nil `dst` everywhere. An implementation may panic, as crypto/signer.go
-- does on a message that has not 32 bytes.
pub record Signer : Type 0 where
  pub sign : Bytes → Outcome Bytes

-- `merge` gives the signature that the pointer holds afterwards. A nil signature reaches
-- `verify_aggregated` as it came from the network.
pub record Verifier : Type 0 where
  pub verify_aggregated : Bytes → Option AggregatedSignature → Outcome Bool
  pub verify : ℕ → Bytes → Bytes → Bool
  pub merge : AggregatedSignature → ℕ → Bytes → AggregatedSignature

-- `none` is an error of `Get` or `Put`.
pub record Env : Type 1 where
  pub Db : Type 0
  pub db_get : Db → Bytes → Option Bytes
  pub db_put : Db → Bytes → Bytes → Option Db
  pub blake2s : Bytes → Bytes
  pub signer : Signer
  pub verifier : Verifier

-- What goleveldb documents: a read gives what the last successful write under the key wrote.
pub record IsMap (env : Env) : Type 0 where
  pub get-put_self :
      (d : env.Db) (k v : Bytes) (e : env.Db) → env.db_put d k v ≡ some e → env.db_get e k ≡ some v
  pub get-put_ne :
      (d : env.Db) (k v : Bytes) (e : env.Db) (j : Bytes)
      → env.db_put d k v ≡ some e
      → k ≢ j
      → env.db_get e j ≡ env.db_get d j
