-- ===== src/Program/Genesis/Certified.antt =====
-- hotstuff-node/main.go and crypto/verifier.go: the genesis block that createExampleNode draws, and
-- the certificate that all keys sign.
use coded_hotterstuff.Prelude.{
  true, ℕ, zero, suc, ◌+◌, ◌*◌, ◌/◌, ◌^◌, ◌<◌, ◌≤◌, ◌≡◌, refl, ap, ◌∙◌, List, length, All, some,
  arith,
}
use coded_hotterstuff.Prelude.Bytes.{IsU64}
use coded_hotterstuff.Wire.Bounds.{Fits, marshal_header-Fits, marshal_certificate-Fits}
use coded_hotterstuff.Exec.{Outcome, ok}
use coded_hotterstuff.Types.{AggregatedSignature}
use coded_hotterstuff.Crypto.{verify_aggregated}
use coded_hotterstuff.Crypto.Complete.{IsBuilt, unsigned, built, verify_aggregated-IsBuilt}
use coded_hotterstuff.Wire.Header.{marshal_header}
use coded_hotterstuff.Program.{up_from}
use coded_hotterstuff.Program.Genesis.{World, rand_header, rand_hash}
use coded_hotterstuff.Program.Genesis.Signed.{IsDocumented, Signed}
use coded_hotterstuff.Wire.Header.RoundTrip as HeaderRoundTrip
use coded_hotterstuff.Wire.Certificate.RoundTrip as CertificateRoundTrip

module _ (w : World) (documented : IsDocumented w) where
  open w.platform use {bls}
  open bls use {PublicKey, SecretKey}

  pub rand_header-IsEncodable : (rng : w.keys.Rng) → HeaderRoundTrip.IsEncodable (rand_header w rng)
  unfolding rand_header
  rand_header-IsEncodable rng = record {
    view = omega arith;
    parent_view = omega arith;
    size =
        let root = documented.read_size 32 rng in
        let fits = marshal_header-Fits 32 (rand_header w rng) (
          unfold rand_header in
          record {
            parent = record { bytes = tt; size = omega arith };
            data_root = record { bytes = root.0; size = omega (arith, root.1) };
            state_root = record { bytes = tt; size = omega arith };
          }) in
        omega (arith, fits.size);
  }

  All-up_from : (i n : ℕ) → i + n ≤ 2 ^ 64 → All IsU64 (up_from i n)
  unfolding up_from
  All-up_from i zero h = tt
  All-up_from i (suc n) h = (omega arith, All-up_from (suc i) n (omega arith))

  length-up_from : (i n : ℕ) → length (up_from i n) ≡ n
  unfolding up_from
  length-up_from i zero = refl
  length-up_from i (suc n) = ap suc (length-up_from (suc i) n)

  -- The certificate that all keys have signed.
  pub genesis_cert-IsEncodable :
      (rng : w.keys.Rng) (size : length (rand_hash w rng) ≡ 32) (pubs : List PublicKey)
      (o : Outcome AggregatedSignature)
      (s : Signed w documented (rand_hash w rng) size pubs (length pubs) o)
      → 0 < length pubs
      → length pubs < 2 ^ 32
      → CertificateRoundTrip.IsEncodable (record { block = rand_hash w rng; sig = some s.sig })
  genesis_cert-IsEncodable rng size pubs o s many few = go s.sig s.built s.voters
    where
      go :
          (asig : AggregatedSignature)
          → IsBuilt bls documented.aggregates pubs (rand_hash w rng) asig
          → asig.voters ≡ up_from 0 (length pubs)
          → CertificateRoundTrip.IsEncodable (record { block = rand_hash w rng; sig = some asig })
      go _ unsigned voters =
          absurd (omega (arith, ap length voters, length-up_from 0 (length pubs)))
      go _ (built {voters = vs} {sig = b} a) voters =
          let (filled, bytes, short) = documented.compressed b a.point a.decoded in
          let (hash_bytes, hash_long) = documented.hash_size (marshal_header (rand_header w rng)) in
          let hashed : Fits 32 (rand_hash w rng) =
            unfold rand_hash in record { bytes = hash_bytes; size = omega (arith, hash_long) } in
          let fits =
            marshal_certificate-Fits 32 192
              (record {
                block = rand_hash w rng;
                sig = some (record { voters = vs; sig = some b });
              })
              (record { voters = vs; sig = some b }) refl hashed
              (record { bytes = bytes; size = short }) in
          record {
            sig = record {
              voters = rw voters (All-up_from 0 (length pubs) (omega arith));
              sig = λ p. filled (cc p);
            };
            size = omega (arith, fits.size, ap length voters, length-up_from 0 (length pubs));
          }

  pub verified :
      (rng : w.keys.Rng) (size : length (rand_hash w rng) ≡ 32) (pubs : List PublicKey)
      (o : Outcome AggregatedSignature)
      (s : Signed w documented (rand_hash w rng) size pubs (length pubs) o)
      → 0 < length pubs
      → verify_aggregated bls (2 * length pubs / 3 + 1) pubs (rand_hash w rng) (some s.sig)
        ≡ ok true
  verified rng size pubs o s many =
      let counted : length s.sig.voters ≡ length pubs =
        ap length s.voters ∙ length-up_from 0 (length pubs) in
      verify_aggregated-IsBuilt bls documented.aggregates pubs (2 * length pubs / 3 + 1)
        (rand_hash w rng) s.sig s.built (omega (arith, counted)) (omega (arith, counted))
