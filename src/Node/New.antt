-- ===== src/Node/New.antt =====
-- node.go: NewNode, and the types that it takes.
use coded_hotterstuff.Prelude.{
  ℕ, suc, ◌+◌, ◌*◌, ◌/◌, ◌%◌, ◌^◌, Bool, if◌then◌else◌, List, [], ◌∷◌, length, Option,
}
use coded_hotterstuff.Prelude.Bytes.{Bytes}
use coded_hotterstuff.Exec.{Outcome, ok, crash}
use coded_hotterstuff.Types
use coded_hotterstuff.Env.{Env}
use coded_hotterstuff.Crypto.{Bls, new_signer, new_verifier}
use coded_hotterstuff.Consensus.State.{Consensus}
use coded_hotterstuff.Consensus.Machine.{new_consensus}
use coded_hotterstuff.Node.{Node, enter_loop}

-- What a node is built on: the database, the hash, and the signatures, whose public keys the code
-- compares with `==`.
pub record Platform : Type 1 where
  pub Db : Type 0
  pub db_get : Db → Bytes → Option Bytes
  pub db_put : Db → Bytes → Bytes → Option Db
  pub blake2s : Bytes → Bytes
  pub bls : Bls
  pub same_key : bls.PublicKey → bls.PublicKey → Bool

-- What the user of a node sends to be proposed.
pub record Data : Type 0 where
  pub state : Bytes
  pub root : Bytes
  pub payload : Option Types.Data

module _ (p : Platform) where
  open p.bls use {PublicKey, SecretKey}

  pub record Replica : Type 0 where
    pub id : PublicKey

  -- `interval` is a number of nanoseconds.
  pub record Config : Type 0 where
    pub interval : ℕ
    pub id : PublicKey
    pub replicas : List Replica

module _ (p : Platform) where
  open p.bls use {PublicKey, SecretKey}

  -- The three things that the loop over the replicas collects; `i` is the index of the first.
  unfoldable pub ids_from : ℕ → List (Replica p) → List ℕ
  ids_from i [] = []
  ids_from i (r ∷ rs) = i % 2 ^ 64 ∷ ids_from (suc i) rs

  unfoldable pub keys_of_replicas : List (Replica p) → List PublicKey
  keys_of_replicas [] = []
  keys_of_replicas (r ∷ rs) = r.id ∷ keys_of_replicas rs

  unfoldable pub rid_from : PublicKey → ℕ → ℕ → List (Replica p) → ℕ
  rid_from own i rid [] = rid
  rid_from own i rid (r ∷ rs) =
      rid_from own (suc i) (if p.same_key own r.id then i % 2 ^ 64 else rid) rs

  -- A replica's view of its platform: its own key signs, and the keys of all verify.
  abbrev pub env_of : SecretKey → List PublicKey → Env
  env_of priv pubs = record {
    Db = p.Db;
    db_get = p.db_get;
    db_put = p.db_put;
    blake2s = p.blake2s;
    signer = new_signer p.bls priv;
    verifier = new_verifier p.bls (2 * length pubs / 3 + 1) pubs;
  }

  abbrev pub node_env : SecretKey → Config p → Env
  node_env priv conf = env_of priv (keys_of_replicas conf.replicas)

  unfoldable pub entered : (env : Env) → Outcome (Consensus env) → Outcome (Node env)
  entered env (ok c) = ok (enter_loop env c [])
  entered env (crash r) = crash r

  -- NewNode, up to the loop that it starts as a goroutine.
  unfoldable pub new_node :
      p.Db → (priv : SecretKey) → (conf : Config p) → Outcome (Node (node_env priv conf))
  unfolding entered ids_from rid_from
  new_node store priv conf = entered (node_env priv conf) (
      new_consensus (node_env priv conf) store (rid_from conf.id 0 0 conf.replicas)
        (ids_from 0 conf.replicas))
