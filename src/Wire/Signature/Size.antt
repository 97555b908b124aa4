-- ===== src/Wire/Signature/Size.antt =====
-- types/types.pb.go: Marshal and Size of AggregatedSignature.
use coded_hotterstuff.Wire.Varint.Size.{length-varint}
use coded_hotterstuff.Wire.Varint.{varint}
use coded_hotterstuff.Prelude.Bytes.{IsU64}
use coded_hotterstuff.Wire.Fields.Sized.{end-IsSized, bytes-IsSized, HasSize}
use coded_hotterstuff.Types.{AggregatedSignature}
use coded_hotterstuff.Prelude.{refl, [], length-append, ◌∷◌, ◌≡◌, arith, length, All, ℕ, List}
use coded_hotterstuff.Wire.Signature.{
  sig_bytes, voters_size, size_signature, pack_voters, marshal_signature,
}
use coded_hotterstuff.Wire.Signature.RoundTrip.{IsEncodable}

length-pack_voters : (vs : List ℕ) → All IsU64 vs → length (pack_voters vs) ≡ voters_size vs
unfolding pack_voters voters_size
length-pack_voters [] h = refl
length-pack_voters (v ∷ vs) (range, ranges) = omega (
  arith,
  length-append (varint v) (pack_voters vs),
  length-varint v range,
  length-pack_voters vs ranges,
)

pub marshal_signature-HasSize :
    (s : AggregatedSignature) → IsEncodable s → HasSize marshal_signature size_signature s
unfolding marshal_signature size_signature
marshal_signature-HasSize s e small =
    let whole =
      (bytes-IsSized 0x0a (pack_voters s.voters) _ _
          (bytes-IsSized 0x12 (sig_bytes s.sig) _ _ end-IsSized))
        small in
    rw (← length-pack_voters s.voters e.voters) (omega (arith, whole))
