-- ===== src/Program/Genesis.antt =====
-- hotstuff-node/main.go: randGenesis and createExampleNode.
pub mod Signed
pub mod Replicas
pub mod Made
pub mod Certified
pub mod Starts
use coded_hotterstuff.Prelude.{
  ℕ, zero, suc, ◌+◌, ◌*◌, ◌/◌, ◌%◌, ◌^◌, Bool, true, false, List, [], ◌∷◌, length, get_elem?,
  Option, none, some,
}
use coded_hotterstuff.Prelude.Bytes.{Bytes}
use coded_hotterstuff.Exec.{Outcome, ok, crash, panic}
use coded_hotterstuff.Types
use coded_hotterstuff.Types.{Header, AggregatedSignature, Certificate, Block}
use coded_hotterstuff.Env.{Env}
use coded_hotterstuff.Crypto.{sign, merge, verify_aggregated}
use coded_hotterstuff.Crypto.Keys.{KeySource, generate_keys}
use coded_hotterstuff.Wire.Header.{marshal_header}
use coded_hotterstuff.Utils.Votes.{new_signature}
use coded_hotterstuff.Utils.Genesis.{import_genesis}
use coded_hotterstuff.Consensus.Machine.{◌then_load◌}
use coded_hotterstuff.Node.{Node}
use coded_hotterstuff.Node.New.{Platform, Replica, Config, env_of, node_env, new_node}
use coded_hotterstuff.Program.{seed}

-- What the program takes from elsewhere: rand.New(rand.NewSource(seed)), the bytes that Read draws
-- from it, the keys that blssig draws, and a database in memory (`none` where it does not open).
pub record World : Type 1 where
  pub platform : Platform
  pub keys : KeySource platform.bls
  pub new_source : ℕ → keys.Rng
  pub read : ℕ → keys.Rng → Bytes × keys.Rng
  pub mem_db : Option platform.Db

-- must, and an index of a slice.
abbrev pub or_panic {ℓ} : {A : Type ℓ} → Option A → Outcome A
or_panic none = crash panic
or_panic (some a) = ok a

-- `if !okay { panic(...) }`
abbrev pub check : Bool → Outcome (Unit {0})
check true = ok tt
check false = crash panic

-- &types.Data{}
abbrev pub no_transactions : Types.Data
no_transactions = record { transactions = [] }

module _ (w : World) where
  open w use {platform, keys, read}
  open platform use {bls}
  open bls use {PublicKey, SecretKey}
  open keys use {Rng}

  -- The header that randGenesis makes: a random data root of 32 bytes.
  unfoldable pub rand_header : Rng → Header
  rand_header rng = record {
    view = 0;
    parent = [];
    parent_view = 0;
    data_root = (read 32 rng).0;
    state_root = [];
  }

  unfoldable pub rand_hash : Rng → Bytes
  unfolding rand_header
  rand_hash rng = platform.blake2s (marshal_header (rand_header rng))

  -- randGenesis, and the reader behind the root.
  unfoldable pub rand_genesis : Rng → Block × Rng
  unfolding rand_header rand_hash
  rand_genesis rng = (
    record {
      header = some (rand_header rng);
      payload = some no_transactions;
      cert = some (record { block = rand_hash rng; sig = some new_signature });
    },
    (read 32 rng).1,
  )

  -- The loop over the public keys, from the one with index `id` on: the key signs the genesis block,
  -- and its signature is merged into the certificate's.
  unfoldable pub sign_all :
      List PublicKey
      → List SecretKey
      → Bytes
      → ℕ
      → List PublicKey
      → AggregatedSignature
      → Outcome AggregatedSignature
  sign_all pubs privs hash id [] asig = ok asig
  sign_all pubs privs hash id (key ∷ rest) asig = or_panic (get_elem? privs id) then_load λ priv.
      sign bls priv hash then_load λ sig.
      sign_all pubs privs hash (suc id) rest (merge bls pubs asig (id % 2 ^ 64) sig)

  unfoldable pub replicas_of : List PublicKey → List (Replica platform)
  replicas_of [] = []
  replicas_of (key ∷ rest) = record { id = key } ∷ replicas_of rest

  -- A node, with the secret key and the configuration that NewNode is given.
  abbrev pub Example : Type 0
  Example = (priv : SecretKey) × (conf : Config platform) × Node (node_env platform priv conf)

  -- What follows once the keys are there and the genesis certificate is checked. The slot of the
  -- secret key is read before the database is opened; an error of either is the same panic.
  pub start_node : ℕ → ℕ → List PublicKey → List SecretKey → Header → Certificate → Outcome Example
  unfolding replicas_of
  start_node idx interval pubs privs header cert = or_panic (get_elem? privs idx) then_load λ priv.
      or_panic (get_elem? pubs idx) then_load λ own.
      let conf : Config platform = record {
        interval = interval;
        id = own;
        replicas = replicas_of pubs;
      } in
      or_panic w.mem_db then_load λ empty.
      or_panic (import_genesis (env_of platform priv pubs) empty header cert no_transactions)
      then_load λ db. new_node platform db priv conf then_load λ n. ok (priv, conf, n)

  example_from :
      ℕ → ℕ → Header → Bytes → Option (List PublicKey × List SecretKey × Rng) → Outcome Example
  unfolding sign_all start_node
  example_from idx interval header hash none = crash panic
  example_from idx interval header hash (some (pubs, privs, _)) =
      sign_all pubs privs hash 0 pubs new_signature then_load λ sig.
      verify_aggregated bls (2 * length pubs / 3 + 1) pubs hash (some sig) then_load λ okay.
      check okay then_load λ _.
      start_node idx interval pubs privs header (record { block = hash; sig = some sig })

  -- createExampleNode
  unfoldable pub create_example_node : ℕ → ℕ → ℕ → Outcome Example
  unfolding rand_header rand_hash example_from
  create_example_node idx n interval =
      let rng = w.new_source seed in
      example_from idx interval (rand_header rng) (rand_hash rng)
        (generate_keys bls keys (some (read 32 rng).1) n)
