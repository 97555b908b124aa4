-- ===== src/Wire/Certificate/Yields.antt =====
-- types/types.pb.go: Unmarshal of Certificate and of the signature in it, on any bytes.
use coded_hotterstuff.Wire.Fields.Skips.{skip_field-Yields, Less}
use coded_hotterstuff.Prelude.{
  ℕ, suc, zero, ◌+◌, true, ◌≡◌, ◌<◌, ◌≤◌, ◌==◌, leb, List, [], ◌∷◌, ◌++◌, length, length-append,
  All, Option, none, some, arith,
}
use coded_hotterstuff.Prelude.Bytes.{Bytes, IsU64}
use coded_hotterstuff.Types.{AggregatedSignature, Certificate}
use coded_hotterstuff.Wire.Varint.{read_varint}
use coded_hotterstuff.Wire.Fields.{read_bytes, read_bytes_field, skip_field}
use coded_hotterstuff.Wire.Fields.Yields.{
  Yields, Yields-bind, Yields-if, IsNumber, Below, Kept, FieldYields, read_varint-Yields,
  read_bytes-Yields, read_bytes_field-Yields, unmarshal-Yields,
}
use coded_hotterstuff.Wire.Signature.{
  unpack_voters, read_voters, signature_field, unmarshal_signature,
}
use coded_hotterstuff.Wire.Certificate.{
  certificate_field, empty_certificate, signature_or_new, unmarshal_certificate,
}

-- The voters are uint64s.
abbrev pub HasVoters : AggregatedSignature → Type 0
HasVoters s = All IsU64 s.voters

snoc-All : (vs : List ℕ) (v : ℕ) → All IsU64 vs → IsU64 v → All IsU64 (vs ++ v ∷ [])
snoc-All [] v h k = (k, tt)
snoc-All (x ∷ vs) v h k = (h.0, snoc-All vs v h.1 k)

abbrev Unpacked : ℕ → List ℕ × Bytes → Type 0
Unpacked n p = All IsU64 p.0 × (length p.1 ≤ n)

-- A round for each packed byte, of which each takes one.
unpack_voters-Yields :
    (fuel behind : ℕ) (vs : List ℕ) (bs : Bytes) (n : ℕ)
    → All IsU64 vs
    → length bs ≤ fuel + behind
    → length bs ≤ n
    → Yields (Unpacked n) (unpack_voters fuel behind vs bs)
unfolding unpack_voters
unpack_voters-Yields zero behind vs bs n h k m =
    let done : leb (length bs) behind ≡ true = ground arith in rw done (h, m)
unpack_voters-Yields (suc fuel) behind vs bs n h k m =
    Yields-if (Unpacked n) (leb (length bs) behind) _ _ (h, m)
      (Yields-bind (IsNumber (length bs)) (Unpacked n) (read_varint bs) _ (read_varint-Yields bs)
        λ p q.
          unpack_voters-Yields fuel behind (vs ++ p.0 ∷ []) p.1 n (snoc-All vs p.0 h q.0)
            (omega (arith, q.1)) (omega (arith, q.1)))

read_voters-Yields :
    (l : ℕ) (m : AggregatedSignature) (wt : ℕ) (bs : Bytes) (n : ℕ)
    → HasVoters m
    → length bs < n
    → Yields (Kept signature_field HasVoters n) (read_voters l m wt bs)
unfolding read_voters
read_voters-Yields l m wt bs n h k =
    let P = Kept signature_field HasVoters n in
    Yields-if P (wt == 0) _ _
      (Yields-bind (IsNumber (length bs)) P (read_varint bs) _ (read_varint-Yields bs)
        λ p q. (snoc-All m.voters p.0 h q.0, omega (arith, q.1)))
      (Yields-if P (wt == 2) _ _
        (Yields-bind (λ p. length p.0 + length p.1 < length bs) P (read_bytes l bs) _
          (read_bytes-Yields l bs)
          λ p q.
            Yields-bind (Unpacked (length (p.0 ++ p.1))) P
              (unpack_voters (length p.0) (length p.1) m.voters (p.0 ++ p.1)) _
              (unpack_voters-Yields (length p.0) (length p.1) m.voters (p.0 ++ p.1)
                (length (p.0 ++ p.1)) h (omega (arith, length-append p.0 p.1)) (omega arith))
              λ r s. (s.0, omega (arith, s.1, q, length-append p.0 p.1)))
        (λ p. cc p))

signature_field-Yields : FieldYields signature_field HasVoters
unfolding signature_field
signature_field-Yields m l num wt bs from_tag i short =
    let P = Kept signature_field HasVoters (length from_tag) in
    Yields-if P (num == 1) _ _ (read_voters-Yields l m wt bs (length from_tag) i short) (
      Yields-if P (num == 2) _ _
        (Yields-bind (Below (length bs)) P (read_bytes_field l wt bs) _
          (read_bytes_field-Yields l wt bs) λ p h. (i, omega (arith, h)))
        (Yields-bind (Less (length from_tag)) P (skip_field l from_tag) _
          (skip_field-Yields l from_tag) λ r h. (i, h)))

unmarshal_signature-Yields :
    (m : AggregatedSignature) (bs : Bytes)
    → HasVoters m
    → Yields HasVoters (unmarshal_signature m bs)
unfolding unmarshal_signature
unmarshal_signature-Yields m bs h =
    unmarshal-Yields signature_field HasVoters signature_field-Yields m bs h

abbrev SigVoters : Option AggregatedSignature → Type 0
SigVoters none = Unit {0}
SigVoters (some s) = HasVoters s

-- The voters of the certificate's signature are uint64s.
abbrev pub CertVoters : Certificate → Type 0
CertVoters c = SigVoters c.sig

signature_or_new-HasVoters :
    (sig : Option AggregatedSignature) → SigVoters sig → HasVoters (signature_or_new sig)
signature_or_new-HasVoters none h = tt
signature_or_new-HasVoters (some s) h = h

certificate_field-Yields : FieldYields certificate_field CertVoters
unfolding certificate_field
certificate_field-Yields m l num wt bs from_tag i short =
    let P = Kept certificate_field CertVoters (length from_tag) in
    let bytes = read_bytes_field-Yields l wt bs in
    Yields-if P (num == 1) _ _
      (Yields-bind (Below (length bs)) P (read_bytes_field l wt bs) _ bytes
        λ p h. (i, omega (arith, h)))
      (Yields-if P (num == 2) _ _
        (Yields-bind (Below (length bs)) P (read_bytes_field l wt bs) _ bytes λ p h.
          Yields-bind HasVoters P (unmarshal_signature (signature_or_new m.sig) p.0) _
            (unmarshal_signature-Yields (signature_or_new m.sig) p.0
              (signature_or_new-HasVoters m.sig i))
            λ s k. (k, omega (arith, h)))
        (Yields-bind (Less (length from_tag)) P (skip_field l from_tag) _
          (skip_field-Yields l from_tag) λ r h. (i, h)))

-- On any bytes, Unmarshal of Certificate comes to an end, with an error of the code or with a
-- certificate whose voters are uint64s.
pub unmarshal_certificate-Yields : (bs : Bytes) → Yields CertVoters (unmarshal_certificate bs)
unfolding unmarshal_certificate
unmarshal_certificate-Yields bs =
    unmarshal-Yields certificate_field CertVoters certificate_field-Yields empty_certificate bs tt
