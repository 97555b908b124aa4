-- ===== src/Crypto.antt =====
-- crypto/signer.go and crypto/verifier.go: the signatures, over the BLS library blssig, whose types
-- and functions are parameters. Its domain is a constant, and is left out.
pub mod Complete
pub mod Keys
use coded_hotterstuff.Prelude.{
  ℕ, Bool, true, false, if◌then◌else◌, not, ltb, ◌==◌, List, [], ◌∷◌, ◌++◌, length, take, replicate,
  get_elem?, Option, none, some,
}
use coded_hotterstuff.Prelude.Bytes.{Bytes}
use coded_hotterstuff.Exec.{Outcome, ok, crash, panic}
use coded_hotterstuff.Types.{AggregatedSignature}
use coded_hotterstuff.Env.{Env, Signer, Verifier}
use coded_hotterstuff.Utils.Votes.{exists}

-- The calls of github.com/kilic/bls12-381/blssig. The model takes points of the group by value.
pub record Bls : Type 1 where
  pub PublicKey : Type 0
  pub SecretKey : Type 0
  pub Signature : Type 0
  pub sign : Bytes → SecretKey → Signature
  pub to_compressed : Signature → Bytes
  pub from_compressed : Bytes → Option Signature
  pub verify : Bytes → Signature → PublicKey → Bool
  pub verify_aggregate_common : Bytes → List PublicKey → Signature → Bool
  pub aggregate : Signature → Signature → Signature

-- `m := [32]byte{}; copy(m[:], msg)`
abbrev pub array32 : Bytes → Bytes
array32 msg = take 32 (msg ++ replicate 32 0)

-- A nil byte slice, where its bytes are read.
abbrev pub slice : Option Bytes → Bytes
slice none = []
slice (some b) = b

module _ (bls : Bls) where
  open bls use {PublicKey, SecretKey, Signature}

  -- BLS12381Signer.Sign, with nothing in `dst`.
  unfoldable pub sign : SecretKey → Bytes → Outcome Bytes
  sign priv msg =
      if not (length msg == 32)
      then crash panic
      else ok (bls.to_compressed (bls.sign (array32 msg) priv))

  verify_with : Option PublicKey → Option Signature → Bytes → Bool
  verify_with none sig msg = false
  verify_with (some key) none msg = false
  verify_with (some key) (some sig) msg = bls.verify (array32 msg) sig key

  -- BLS12381Verifier.Verify
  unfoldable pub verify : List PublicKey → ℕ → Bytes → Bytes → Bool
  unfolding verify_with
  verify pubkeys idx msg sig = verify_with (get_elem? pubkeys idx) (bls.from_compressed sig) msg

  key_before : Option PublicKey → Option (List PublicKey) → Option (List PublicKey)
  key_before none rest = none
  key_before (some key) none = none
  key_before (some key) (some rest) = some (key ∷ rest)

  -- The loop over the voters; `none` where one has no key.
  unfoldable pub keys_of : List PublicKey → List ℕ → Option (List PublicKey)
  unfolding key_before
  keys_of pubkeys [] = some []
  keys_of pubkeys (voter ∷ voters) = key_before (get_elem? pubkeys voter) (keys_of pubkeys voters)

  verify_common : Option (List PublicKey) → Option Signature → Bytes → Bool
  verify_common none sig msg = false
  verify_common (some pubs) none msg = false
  verify_common (some pubs) (some sig) msg = bls.verify_aggregate_common (array32 msg) pubs sig

  -- BLS12381Verifier.VerifyAggregated; the voters of a nil signature are read at once.
  unfoldable pub verify_aggregated :
      ℕ → List PublicKey → Bytes → Option AggregatedSignature → Outcome Bool
  unfolding keys_of verify_common
  verify_aggregated threshold pubkeys msg none = crash panic
  verify_aggregated threshold pubkeys msg (some asig) =
      if ltb (length asig.voters) threshold
      then ok false
      else ok
          (verify_common (keys_of pubkeys asig.voters) (bls.from_compressed (slice asig.sig)) msg)

  -- The signature after Merge, `none` where Merge returns before it changes anything.
  join : Option Signature → Option Signature → Option Bytes
  join none t = none
  join (some s) none = none
  join (some s) (some t) = some (bls.to_compressed (bls.aggregate s t))

  merged_sig : Option Bytes → Bytes → Option Bytes
  unfolding join
  merged_sig none sig = some sig
  merged_sig (some old) sig = join (bls.from_compressed old) (bls.from_compressed sig)

  add_voter : AggregatedSignature → ℕ → Option Bytes → AggregatedSignature
  add_voter asig voter none = asig
  add_voter asig voter (some sig) = record { voters = asig.voters ++ voter ∷ []; sig = some sig }

  -- BLS12381Verifier.Merge
  unfoldable pub merge : List PublicKey → AggregatedSignature → ℕ → Bytes → AggregatedSignature
  unfolding merged_sig add_voter
  merge pubkeys asig voter sig = elim (get_elem? pubkeys voter) [
    | none ↦ asig
    | some key ↦
        if exists asig.voters voter then asig else add_voter asig voter (merged_sig asig.sig sig)
  ]

  -- NewBLS12381Signer, NewBLS12381Verifier
  unfoldable pub new_signer : SecretKey → Signer
  unfolding sign
  new_signer priv = record { sign = sign priv }

  unfoldable pub new_verifier : ℕ → List PublicKey → Verifier
  unfolding verify verify_aggregated merge
  new_verifier threshold pubkeys = record {
    verify_aggregated = verify_aggregated threshold pubkeys;
    verify = verify pubkeys;
    merge = merge pubkeys;
  }
