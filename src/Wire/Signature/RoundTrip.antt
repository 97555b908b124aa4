-- ===== src/Wire/Signature/RoundTrip.antt =====
-- types/types.pb.go: Marshal and Unmarshal of AggregatedSignature, one after the other.
use coded_hotterstuff.Wire.Fields.Written.{ReadsBack}
use coded_hotterstuff.Prelude.{
  ℕ, zero, suc, ◌<◌, ◌≤◌, ◌^◌, ◌≡◌, ◌≢◌, refl, ◌∙◌, ap, List, [], ◌∷◌, ◌++◌, append-nil,
  append_assoc, length, length-append, leb, false, All, Option, none, some, arith,
}
use coded_hotterstuff.Prelude.Bytes.{Bytes, IsU64}
use coded_hotterstuff.Types.{AggregatedSignature}
use coded_hotterstuff.Wire.Varint.{ok, varint, varint_loop}
use coded_hotterstuff.Wire.Varint.RoundTrip.{read_varint-varint}
use coded_hotterstuff.Wire.Fields.{bytes_field, unmarshal, read_bytes, read_bytes_field}
use coded_hotterstuff.Wire.Fields.RoundTrip.{
  Reads, Reads-end, Reads-bytes, read_bytes_field-written, bytes_field-length,
}
use coded_hotterstuff.Wire.Signature.{
  pack_voters, sig_bytes, marshal_signature, unpack_voters, read_voters, signature_field,
  empty_signature, unmarshal_signature,
}

varint_longer : (v : ℕ) → 0 < length (varint v)
unfolding varint varint_loop
varint_longer v = ground arith

-- The loop over the packed voters ends where the field ends.
unpack_voters-pack_voters :
    (vs : List ℕ) (fuel : ℕ) (voters : List ℕ) (behind : Bytes)
    → All IsU64 vs
    → length (pack_voters vs) ≤ fuel
    → unpack_voters fuel (length behind) voters (pack_voters vs ++ behind)
      ≡ ok (voters ++ vs, behind)
unfolding unpack_voters pack_voters
unpack_voters-pack_voters [] zero voters behind h within = rw append-nil (ground arith)
unpack_voters-pack_voters [] (suc fuel) voters behind h within = rw append-nil (ground arith)
unpack_voters-pack_voters (v ∷ vs) zero voters behind h within =
    absurd (omega (arith, length-append (varint v) (pack_voters vs), varint_longer v))
unpack_voters-pack_voters (v ∷ vs) (suc fuel) voters behind (hv, hvs) within =
    let long = length-append (varint v) (pack_voters vs) in
    let long' = length-append (varint v) (pack_voters vs ++ behind) in
    let long'' = length-append (pack_voters vs) behind in
    let nonempty = varint_longer v in
    let more : leb (length (varint v ++ (pack_voters vs ++ behind))) (length behind) ≡ false =
      ground (arith, long', long'', nonempty) in
    rw (append_assoc (varint v) (pack_voters vs) behind) (
      rw more (
        rw (read_varint-varint v (pack_voters vs ++ behind) hv) (
          unpack_voters-pack_voters vs fuel (voters ++ v ∷ []) behind hvs
            (omega (arith, long, nonempty))
          ∙ ap (λ l. ok (l, behind)) (append_assoc voters (v ∷ []) vs))))

-- What is granted, and a signature that is not an empty slice: it would come back as nil.
pub record IsEncodable (s : AggregatedSignature) : Type 0 where
  pub voters : All IsU64 s.voters
  pub sig : s.sig ≢ some []

abbrev behind_voters : AggregatedSignature → Bytes
behind_voters s = bytes_field 0x12 (sig_bytes s.sig) []

module _ (l : ℕ) (small : l < 2 ^ 63) where
  read_sig :
      (vs : List ℕ) (sig : Option Bytes)
      → sig ≢ some []
      → length (bytes_field 0x12 (sig_bytes sig) []) ≤ l
      → Reads signature_field l
          (record { voters = vs; sig = none })
          (bytes_field 0x12 (sig_bytes sig) [])
          (record { voters = vs; sig = sig })
  unfolding signature_field
  read_sig vs none ne within =
      unfold bytes_field in Reads-end signature_field l (record { voters = vs; sig = none })
  read_sig vs (some b) ne within =
      Reads-bytes signature_field l 0x12 b (record { voters = vs; sig = none })
        (record { voters = vs; sig = some b }) (record { voters = vs; sig = some b }) []
        (record { small = omega arith; numbered = λ p. cc; open_type = λ p. cc })
        (λ p. absurd (ne (ap some p)))
        (λ from.
          rw (read_bytes_field-written l b [] (omega (arith, bytes_field-length 0x12 b [])) small)
            refl)
        (Reads-end signature_field l (record { voters = vs; sig = some b }))

  read_bytes-written :
      (b rest : Bytes)
      → length (b ++ rest) ≤ l
      → read_bytes l (varint (length b) ++ (b ++ rest)) ≡ ok (b, rest)
  unfolding read_bytes_field
  read_bytes-written b rest within = read_bytes_field-written l b rest within small

  pack_voters-nil : (vs : List ℕ) → pack_voters vs ≡ [] → vs ≡ []
  unfolding pack_voters
  pack_voters-nil [] p = refl
  pack_voters-nil (v ∷ vs) p =
      let long = length-append (varint v) (pack_voters vs) in
      let none_left : length (varint v ++ pack_voters vs) ≡ 0 = ap (λ l. length l) p in
      absurd (omega (arith, long, none_left, varint_longer v))

  pub read_signature :
      (s : AggregatedSignature)
      → IsEncodable s
      → length (marshal_signature s) ≤ l
      → Reads signature_field l empty_signature (marshal_signature s) s
  unfolding signature_field marshal_signature read_voters
  read_signature s e within =
      let inner = bytes_field-length 0x0a (pack_voters s.voters) (behind_voters s) in
      Reads-bytes signature_field l 0x0a (pack_voters s.voters) empty_signature
        (record { voters = s.voters; sig = none }) s (behind_voters s)
        (record { small = omega arith; numbered = λ p. cc; open_type = λ p. cc })
        (λ p. ap (λ vs. record { voters = vs; sig = none }) (pack_voters-nil s.voters p))
        (λ from.
          rw (read_bytes-written (pack_voters s.voters) (behind_voters s) (omega (arith, inner))) (
            rw
              (unpack_voters-pack_voters s.voters (length (pack_voters s.voters)) []
                (behind_voters s) e.voters (omega arith))
              refl))
        (read_sig s.voters s.sig e.sig (omega (arith, inner)))

pub unmarshal_signature-marshal_signature :
    (s : AggregatedSignature)
    → IsEncodable s
    → length (marshal_signature s) < 2 ^ 63
    → unmarshal_signature empty_signature (marshal_signature s) ≡ ok s
unfolding unmarshal_signature unmarshal Reads
unmarshal_signature-marshal_signature s e small =
    read_signature (length (marshal_signature s)) small s e (omega arith)
      (length (marshal_signature s)) (omega arith)

abbrev pub IsSmall : AggregatedSignature → Type 0
IsSmall s = IsEncodable s × (length (marshal_signature s) < 2 ^ 63)

pub marshal_signature-ReadsBack :
    (s : AggregatedSignature)
    → IsSmall s
    → ReadsBack marshal_signature (unmarshal_signature empty_signature) s
marshal_signature-ReadsBack s e = unmarshal_signature-marshal_signature s e.0 e.1
