-- ===== src/Wire/Signature.antt =====
-- types/types.pb.go: Marshal, Size and Unmarshal of AggregatedSignature, whose voters are packed.
pub mod RoundTrip
pub mod Size
use coded_hotterstuff.Prelude.{
  ℕ, zero, suc, ◌+◌, ◌==◌, leb, if◌then◌else◌, List, [], ◌∷◌, ◌++◌, length, Option, none, some,
}
use coded_hotterstuff.Prelude.Bytes.{Bytes}
use coded_hotterstuff.Types.{AggregatedSignature}
use coded_hotterstuff.Wire.Varint.{
  Result, ok, err, no_fuel, wrong_wire_type, ◌>>=◌, sov, varint, read_varint,
}
use coded_hotterstuff.Wire.Fields.{
  bytes_field, bytes_size, read_bytes, read_bytes_field, skip_field, unmarshal,
}

-- The packed voters: one varint after the other.
unfoldable pub pack_voters : List ℕ → Bytes
pack_voters [] = []
pack_voters (v ∷ vs) = varint v ++ pack_voters vs

-- The packed length that Size counts.
unfoldable pub voters_size : List ℕ → ℕ
voters_size [] = 0
voters_size (v ∷ vs) = sov v + voters_size vs

-- A nil and an empty slice are written alike: not at all.
abbrev pub sig_bytes : Option Bytes → Bytes
sig_bytes none = []
sig_bytes (some b) = b

unfoldable pub marshal_signature : AggregatedSignature → Bytes
unfolding pack_voters
marshal_signature s =
    bytes_field 0x0a (pack_voters s.voters) (bytes_field 0x12 (sig_bytes s.sig) [])

unfoldable pub size_signature : AggregatedSignature → ℕ
unfolding voters_size
size_signature s = bytes_size (voters_size s.voters) + bytes_size (length (sig_bytes s.sig))

-- `for iNdEx < postIndex`, where `behind` bytes follow postIndex. The reads go on in dAtA, so the
-- last number may run past postIndex; iNdEx is left where it stands.
unfoldable pub unpack_voters : ℕ → ℕ → List ℕ → Bytes → Result (List ℕ × Bytes)
unpack_voters zero behind voters bs =
    if leb (length bs) behind then ok (voters, bs) else err no_fuel
unpack_voters (suc fuel) behind voters bs =
    if leb (length bs) behind
    then ok (voters, bs)
    else (do (v, rest) ← read_varint bs; unpack_voters fuel behind (voters ++ v ∷ []) rest)

unfoldable pub read_voters :
    ℕ → AggregatedSignature → ℕ → Bytes → Result (AggregatedSignature × Bytes)
unfolding unpack_voters
read_voters l m wt bs =
    if wt == 0
    then (do (v, rest) ← read_varint bs; ok (record m { voters = m.voters ++ v ∷ [] }, rest))
    else if wt == 2
    then (do
      (packed, behind) ← read_bytes l bs
      (vs, rest) ← unpack_voters (length packed) (length behind) m.voters (packed ++ behind)
      ok (record m { voters = vs }, rest))
    else err wrong_wire_type

unfoldable pub signature_field :
    AggregatedSignature → ℕ → ℕ → ℕ → Bytes → Bytes → Result (AggregatedSignature × Bytes)
unfolding read_voters
signature_field m l num wt bs from_tag =
    if num == 1
    then read_voters l m wt bs
    else if num == 2
    then (do (b, rest) ← read_bytes_field l wt bs; ok (record m { sig = some b }, rest))
    else (do rest ← skip_field l from_tag; ok (m, rest))

-- &AggregatedSignature{}
abbrev pub empty_signature : AggregatedSignature
empty_signature = record { voters = []; sig = none }

unfoldable pub unmarshal_signature : AggregatedSignature → Bytes → Result AggregatedSignature
unfolding signature_field
unmarshal_signature m bs = unmarshal signature_field m bs
