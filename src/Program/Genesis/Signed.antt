-- ===== src/Program/Genesis/Signed.antt =====
-- hotstuff-node/main.go: the signatures on the genesis block.
use coded_hotterstuff.Prelude.{
  ℕ, zero, suc, ◌+◌, ◌%◌, ◌^◌, ◌<◌, ◌≤◌, ◌≡◌, ◌≢◌, refl, ap, ◌∙◌, true, false, ◌==◌, ◌↔◌, List, [],
  ◌∷◌, ◌++◌, length, get_elem?, All, none, some, arith,
}
use coded_hotterstuff.Prelude.Bytes.{Bytes, IsByte}
use coded_hotterstuff.Exec.{Outcome, ok}
use coded_hotterstuff.Types.{AggregatedSignature}
use coded_hotterstuff.Env.{IsMap}
use coded_hotterstuff.Crypto.{array32, sign, verify, merge}
use coded_hotterstuff.Crypto.Complete.{Aggregates, IsBuilt, unsigned, merge-IsBuilt, verify-key}
use coded_hotterstuff.Crypto.Keys.{ArePairs}
use coded_hotterstuff.Utils.Votes.{exists, new_signature}
use coded_hotterstuff.Node.New.{env_of}
use coded_hotterstuff.Program.{up_from}
use coded_hotterstuff.Program.Genesis.{World, sign_all}

-- What the libraries document: the database is a map that opens empty and takes every write, a hash
-- and a read have the size that was asked for, a key's signatures are valid, and only the bytes of a
-- compressed point, 192 at most, are decompressed.
pub record IsDocumented (w : World) : Type 0 where
  pub map :
      (priv : w.platform.bls.SecretKey) (pubs : List w.platform.bls.PublicKey)
      → IsMap (env_of w.platform priv pubs)
  pub aggregates : Aggregates w.platform.bls
  pub signs :
      (m : Bytes) (k : w.platform.bls.SecretKey)
      → w.platform.bls.verify m (w.platform.bls.sign m k) (w.keys.public_key k) ≡ true
  pub compressed :
      (b : Bytes) (s : w.platform.bls.Signature)
      → w.platform.bls.from_compressed b ≡ some s
      → (b ≢ []) × All IsByte b × (length b ≤ 192)
  pub hash_size :
      (b : Bytes) → All IsByte (w.platform.blake2s b) × (length (w.platform.blake2s b) ≡ 32)
  pub read_size :
      (n : ℕ) (rng : w.keys.Rng) → All IsByte (w.read n rng).0 × (length (w.read n rng).0 ≡ n)
  pub draws :
      (rng : w.keys.Rng)
      → (priv : w.platform.bls.SecretKey) × (r : w.keys.Rng) × (w.keys.rand_secret_key rng
          ≡ some (priv, r))
  pub opens :
      (d : w.platform.Db) × (w.mem_db ≡ some d) × ((k : Bytes) → w.platform.db_get d k ≡ none)
  pub writes :
      (d : w.platform.Db) (k v : Bytes) → (e : w.platform.Db) × (w.platform.db_put d k v ≡ some e)
  pub same_key : (a b : w.platform.bls.PublicKey) → (w.platform.same_key a b ≡ true) ↔ (a ≡ b)

-- `rest` stands in `all` from the index `id` on.
StandsAt : {A : Type 0} → List A → ℕ → List A → Type 0
StandsAt {A} all id rest =
    (j : ℕ) (a : A) → get_elem? rest j ≡ some a → get_elem? all (id + j) ≡ some a

StandsAt-all : {A : Type 0} (all : List A) → StandsAt all 0 all
unfolding StandsAt
StandsAt-all all j a h = ap (get_elem? all) (omega arith) ∙ h

StandsAt-first :
    {A : Type 0} (all : List A) (id : ℕ) (a : A) (rest : List A)
    → StandsAt all id (a ∷ rest)
    → get_elem? all id ≡ some a
unfolding StandsAt
StandsAt-first all id a rest h = ap (get_elem? all) (omega arith) ∙ h 0 a refl

StandsAt-next :
    {A : Type 0} (all : List A) (id : ℕ) (a : A) (rest : List A)
    → StandsAt all id (a ∷ rest)
    → StandsAt all (suc id) rest
unfolding StandsAt
StandsAt-next all id a rest h j b eq = ap (get_elem? all) (omega arith) ∙ h (suc j) b eq

up_from-snoc : (i n : ℕ) → up_from i n ++ (i + n) ∷ [] ≡ up_from i (suc n)
unfolding up_from
up_from-snoc i zero = ap (λ k. k ∷ []) (omega arith)
up_from-snoc i (suc n) =
    ap (λ l. i ∷ l) (ap (λ k. up_from (suc i) n ++ k ∷ []) (omega arith) ∙ up_from-snoc (suc i) n)

up_from-last : (n : ℕ) → up_from 0 n ++ n ∷ [] ≡ up_from 0 (suc n)
up_from-last n = ap (λ k. up_from 0 n ++ k ∷ []) (omega arith) ∙ up_from-snoc 0 n

exists-up_from : (i n k : ℕ) → i + n ≤ k → exists (up_from i n) k ≡ false
unfolding exists up_from
exists-up_from i zero k h = refl
exists-up_from i (suc n) k h =
    let miss : (i == k) ≡ false = ground arith in rw miss (exists-up_from (suc i) n k (omega arith))

module _ (w : World) (documented : IsDocumented w) (hash : Bytes) (size : length hash ≡ 32) where
  open w.platform use {bls}
  open bls use {PublicKey, SecretKey}

  sign-ok :
      (priv : SecretKey)
      → sign bls priv hash ≡ ok (bls.to_compressed (bls.sign (array32 hash) priv))
  unfolding sign
  sign-ok priv = let right : (length hash == 32) ≡ true = ground arith in rw right refl

  own-verify :
      (pubs : List PublicKey) (i : ℕ) (priv : SecretKey) (key : PublicKey)
      → get_elem? pubs i ≡ some key
      → key ≡ w.keys.public_key priv
      → verify bls pubs i hash (bls.to_compressed (bls.sign (array32 hash) priv)) ≡ true
  own-verify pubs i priv key at pair =
      verify-key bls pubs i hash _ key (bls.sign (array32 hash) priv) at
        (documented.aggregates.points (bls.sign (array32 hash) priv))
        (rw pair (documented.signs (array32 hash) priv))

  -- The certificate that the loop comes to: every key has signed.
  pub record Signed (pubs : List PublicKey) (n : ℕ) (o : Outcome AggregatedSignature) : Type 0 where
    pub sig : AggregatedSignature
    pub signed : o ≡ ok sig
    pub built : IsBuilt bls documented.aggregates pubs hash sig
    pub voters : sig.voters ≡ up_from 0 n

  sign_all-step :
      (pubs : List PublicKey) (privs : List SecretKey) (id : ℕ) (key : PublicKey)
      (rest : List PublicKey) (priv : SecretKey) (asig : AggregatedSignature)
      → get_elem? privs id ≡ some priv
      → sign_all w pubs privs hash id (key ∷ rest) asig
        ≡ sign_all w pubs privs hash
            (suc id)
            rest
            (merge bls pubs asig (id % 2 ^ 64) (bls.to_compressed (bls.sign (array32 hash) priv)))
  unfolding sign_all
  sign_all-step pubs privs id key rest priv asig at = rw at (rw (sign-ok priv) refl)

  module _ (pubs : List PublicKey) (privs : List SecretKey) (n : ℕ) (small : n < 2 ^ 64) where
    -- From the key with index `id` on.
    sign_all-Signed :
        (id : ℕ) (rest : List PublicKey) (rest' : List SecretKey) (asig : AggregatedSignature)
        → StandsAt pubs id rest
        → StandsAt privs id rest'
        → id + length rest ≡ n
        → ArePairs bls w.keys rest rest'
        → IsBuilt bls documented.aggregates pubs hash asig
        → asig.voters ≡ up_from 0 id
        → Signed pubs n (sign_all w pubs privs hash id rest asig)
    sign_all-Signed id [] rest' asig st st' sum pairs so_far voters = record {
      sig = asig;
      signed = unfold sign_all in refl;
      built = so_far;
      voters = voters ∙ ap (up_from 0) (omega arith);
    }
    sign_all-Signed id (key ∷ rest) [] asig st st' sum pairs so_far voters = absurd pairs
    sign_all-Signed id (key ∷ rest) (priv ∷ rest') asig st st' sum pairs so_far voters =
        let sig = bls.to_compressed (bls.sign (array32 hash) priv) in
        let whole : id % 2 ^ 64 ≡ id = omega arith in
        let at : get_elem? pubs id ≡ some key = StandsAt-first pubs id key rest st in
        let (more, longer) =
          merge-IsBuilt bls documented.aggregates pubs hash asig id sig so_far
            (own-verify pubs id priv key at pairs.0)
            (rw voters (exists-up_from 0 id id (omega arith))) in
        rw
          (
            sign_all-step pubs privs id key rest priv asig (StandsAt-first privs id priv rest' st'),
            whole,
          )
          (sign_all-Signed (suc id) rest rest' (merge bls pubs asig id sig)
            (StandsAt-next pubs id key rest st) (StandsAt-next privs id priv rest' st')
            (omega arith) pairs.1 more (longer ∙ ap (λ l. l ++ id ∷ []) voters ∙ up_from-last id))

  -- Every key signs, and the certificate is an aggregate of all signatures.
  pub sign_all-IsBuilt :
      (pubs : List PublicKey) (privs : List SecretKey)
      → length pubs < 2 ^ 64
      → ArePairs bls w.keys pubs privs
      → Signed pubs (length pubs) (sign_all w pubs privs hash 0 pubs new_signature)
  sign_all-IsBuilt pubs privs small pairs =
      sign_all-Signed pubs privs (length pubs) small 0 pubs privs new_signature (StandsAt-all pubs)
        (StandsAt-all privs) (omega arith) pairs unsigned (unfold up_from in refl)
