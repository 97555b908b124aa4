-- ===== src/Wire/Bounds.antt =====
-- types/types.pb.go: how many bytes Marshal writes, and that they are bytes.
use coded_hotterstuff.Prelude.{
  ℕ, zero, suc, ◌+◌, ◌*◌, ◌/◌, ◌%◌, ◌^◌, ◌<◌, ◌≤◌, ◌≡◌, leb, ◌==◌, Bool-cases, inl, inr, List, [],
  ◌∷◌, ◌++◌, length, length-append, All, some, arith,
}
use coded_hotterstuff.Prelude.Bytes.{Bytes, IsByte}
use coded_hotterstuff.Types.{Header, AggregatedSignature, Certificate}
use coded_hotterstuff.Wire.Varint.{varint_loop, varint}
use coded_hotterstuff.Wire.Varint.Bits.{low_bits, set_top_bit}
use coded_hotterstuff.Wire.Fields.{uint_field, bytes_field, message_field}
use coded_hotterstuff.Wire.Header.{marshal_header}
use coded_hotterstuff.Wire.Signature.{pack_voters, marshal_signature, sig_bytes}
use coded_hotterstuff.Wire.Certificate.{marshal_certificate}

All-append {ℓ κ} :
    {A : Type ℓ} (P : A → Type κ) (xs ys : List A) → All P xs → All P ys → All P (xs ++ ys)
All-append P [] ys h k = k
All-append P (x ∷ xs) ys h k = (h.0, All-append P xs ys h.1 k)

-- Encoded bytes, at most `n` of them.
pub record Fits (n : ℕ) (b : Bytes) : Type 0 where
  pub bytes : All IsByte b
  pub size : length b ≤ n

Fits-append : {n m : ℕ} (a b : Bytes) → Fits n a → Fits m b → Fits (n + m) (a ++ b)
Fits-append a b h k = record {
  bytes = All-append IsByte a b h.bytes k.bytes;
  size = omega (arith, length-append a b, h.size, k.size);
}

Fits-tag : {n : ℕ} (tag : ℕ) (b : Bytes) → tag < 256 → Fits n b → Fits (suc n) (tag ∷ b)
Fits-tag tag b h k = record { bytes = (h, k.bytes); size = omega (arith, k.size) }

Fits-weaken : (n m : ℕ) (b : Bytes) → n ≤ m → Fits n b → Fits m b
Fits-weaken n m b h k = record { bytes = k.bytes; size = omega (arith, k.size) }

varint_loop-Fits : (k v : ℕ) → Fits (suc k) (varint_loop k v)
unfolding varint_loop
varint_loop-Fits zero v = record { bytes = (omega arith, tt); size = omega arith }
varint_loop-Fits (suc k) v = elim (Bool-cases (leb (2 ^ 7) v)) [
  | inl more ↦
      let low = low_bits (v % 256) (omega arith) in
      let top = set_top_bit (v % 256 % 128) (omega arith) in
      let tail = varint_loop-Fits k (v / 2 ^ 7) in
      rw more (
        rw low
          (rw top (Fits-tag (v % 256 % 128 + 128) (varint_loop k (v / 2 ^ 7)) (omega arith) tail)))
  | inr last ↦ rw last (record { bytes = (omega arith, tt); size = omega arith })
]

-- A uint64 takes ten bytes at most.
pub varint-Fits : (v : ℕ) → Fits 10 (varint v)
unfolding varint
varint-Fits v = varint_loop-Fits 9 v

pub uint_field-Fits :
    {n : ℕ} (tag v : ℕ) (rest : Bytes)
    → tag < 256
    → Fits n rest
    → Fits (11 + n) (uint_field tag v rest)
unfolding uint_field
uint_field-Fits {n} tag v rest h k = elim (Bool-cases (v == 0)) [
  | inl none_written ↦ rw none_written (Fits-weaken n (11 + n) rest (omega arith) k)
  | inr written ↦ rw written (
      Fits-weaken (suc (10 + n)) (11 + n) _ (omega arith)
        (Fits-tag tag _ h (Fits-append (varint v) rest (varint-Fits v) k)))
]

pub bytes_field-Fits :
    {m n : ℕ} (tag : ℕ) (b rest : Bytes)
    → tag < 256
    → Fits m b
    → Fits n rest
    → Fits (11 + m + n) (bytes_field tag b rest)
unfolding bytes_field
bytes_field-Fits {m} {n} tag [] rest h hb k = Fits-weaken n (11 + m + n) rest (omega arith) k
bytes_field-Fits {m} {n} tag (x ∷ b) rest h hb k =
    Fits-weaken (suc (10 + (m + n))) (11 + m + n) _ (omega arith) (
      Fits-tag tag _ h
        (Fits-append (varint (length (x ∷ b))) _ (varint-Fits _) (Fits-append (x ∷ b) rest hb k)))

pub message_field-Fits :
    {m n : ℕ} (tag : ℕ) (b rest : Bytes)
    → tag < 256
    → Fits m b
    → Fits n rest
    → Fits (11 + m + n) (message_field tag (some b) rest)
unfolding message_field
message_field-Fits {m} {n} tag b rest h hb k =
    Fits-weaken (suc (10 + (m + n))) (11 + m + n) _ (omega arith) (
      Fits-tag tag _ h
        (Fits-append (varint (length b)) _ (varint-Fits _) (Fits-append b rest hb k)))

nothing : Fits 0 []
nothing = record { bytes = tt; size = omega arith }

-- The contents of a header are bytes, `n` of them at most.
pub record HasBytes (n : ℕ) (h : Header) : Type 0 where
  pub parent : Fits n h.parent
  pub data_root : Fits n h.data_root
  pub state_root : Fits n h.state_root

-- Marshal of Header writes bytes, and no more than 55 besides three slices of at most `n` bytes.
pub marshal_header-Fits :
    (n : ℕ) (h : Header) → HasBytes n h → Fits (55 + n + n + n) (marshal_header h)
unfolding marshal_header
marshal_header-Fits n h b = Fits-weaken _ (55 + n + n + n) _ (omega arith) (
    uint_field-Fits 0x08 h.view _ (omega arith) (
      bytes_field-Fits 0x12 h.parent _ (omega arith) b.parent (
        uint_field-Fits 0x18 h.parent_view _ (omega arith) (
          bytes_field-Fits 0x22 h.data_root _ (omega arith) b.data_root
            (bytes_field-Fits 0x2a h.state_root _ (omega arith) b.state_root nothing)))))

pub pack_voters-Fits : (vs : List ℕ) → Fits (10 * length vs) (pack_voters vs)
unfolding pack_voters
pack_voters-Fits [] = record { bytes = tt; size = omega arith }
pack_voters-Fits (v ∷ vs) =
    Fits-weaken (10 + 10 * length vs) (10 * suc (length vs)) _ (omega arith)
      (Fits-append (varint v) (pack_voters vs) (varint-Fits v) (pack_voters-Fits vs))

-- A certificate with a signature of at most `m` bytes for a block of at most `n`: its encoding takes
-- ten bytes for each voter and 44 besides the contents.
pub marshal_certificate-Fits :
    (n m : ℕ) (c : Certificate) (s : AggregatedSignature)
    → c.sig ≡ some s
    → Fits n c.block
    → Fits m (sig_bytes s.sig)
    → Fits (44 + n + m + 10 * length s.voters) (marshal_certificate c)
unfolding marshal_certificate marshal_signature
marshal_certificate-Fits n m c s eq hb hs = rw eq (
    Fits-weaken _ (44 + n + m + 10 * length s.voters) _ (omega arith) (
      bytes_field-Fits 0x0a c.block _ (omega arith) hb (
        message_field-Fits 0x12 _ [] (omega arith)
          (bytes_field-Fits 0x0a (pack_voters s.voters) _ (omega arith) (pack_voters-Fits s.voters)
            (bytes_field-Fits 0x12 (sig_bytes s.sig) [] (omega arith) hs nothing))
          nothing)))
