-- ===== src/Wire/Varint/RoundTrip.antt =====
-- types/types.pb.go: encodeVarintTypes and the loop that reads a varint.
use native.Mathlib.Nat.{mul-le-mul_right}
use native.Mathlib.Numerals.{towards_suc}
use Prim.Native.Nat.{bit_or, bit_and}
use coded_hotterstuff.Prelude.{
  ℕ, zero, suc, ◌+◌, ◌*◌, ◌/◌, ◌%◌, ◌^◌, ◌<◌, ◌≤◌, ◌≡◌, ap, ◌∙◌, inl, inr, leb, Bool-cases, ◌∷◌,
  ◌++◌, arith,
}
use coded_hotterstuff.Prelude.Bytes.{Bytes, IsU64}
use coded_hotterstuff.Wire.Varint.{ok, varint_loop, varint, add_group, read_loop, read_varint}
use coded_hotterstuff.Wire.Varint.Bits.{low_bits, set_top_bit, bit_or_shifted}

-- One group of seven bits, at its place above the bits that are read already.
add_group-sum :
    (acc w shift b : ℕ)
    → acc < 2 ^ shift
    → b < 256
    → b % 128 ≡ w
    → w * 2 ^ shift < 2 ^ 64
    → add_group acc b shift ≡ acc + w * 2 ^ shift
add_group-sum acc w shift b below byte low fits = rw (low_bits b byte) (
    rw low (
      let small : w * 2 ^ shift % 2 ^ 64 ≡ w * 2 ^ shift = omega arith in
      rw small (bit_or_shifted shift acc w below)))

closing_byte :
    (w acc shift : ℕ) (rest : Bytes)
    → w < 128
    → shift < 64
    → acc < 2 ^ shift
    → IsU64 (acc + w * 2 ^ shift)
    → read_loop (w ∷ rest) acc shift ≡ ok (acc + w * 2 ^ shift, rest)
unfolding read_loop
closing_byte w acc shift rest hw hs below fits =
    rw (add_group-sum acc w shift w below (omega arith) (omega arith) (omega arith)) (ground arith)

leading_byte :
    (g acc shift : ℕ) (rest : Bytes)
    → g < 128
    → shift < 64
    → acc < 2 ^ shift
    → IsU64 (acc + g * 2 ^ shift)
    → read_loop ((g + 128) ∷ rest) acc shift ≡ read_loop rest (acc + g * 2 ^ shift) (shift + 7)
unfolding read_loop
leading_byte g acc shift rest hg hs below fits =
    rw (add_group-sum acc g shift (g + 128) below (omega arith) (omega arith) (omega arith))
      (ground arith)

next_group : (s : ℕ) → 2 ^ s * 128 ≡ 2 ^ (s + 7)
next_group s = simp towards_suc (omega arith)

-- A number at place `s` is its lowest group there, and the others seven places on.
groups-sum : (s w : ℕ) → w % 128 * 2 ^ s + w / 128 * 2 ^ (s + 7) ≡ w * 2 ^ s
groups-sum s w =
    let whole : w * 2 ^ s ≡ (128 * (w / 128) + w % 128) * 2 ^ s =
      ap (λ (t : ℕ). t * 2 ^ s) (omega arith) in
    rw (← next_group s) (omega (arith, whole))

group_below : (acc g s : ℕ) → acc < 2 ^ s → g < 128 → acc + g * 2 ^ s < 2 ^ (s + 7)
group_below acc g s h k =
    let under : g + 1 ≤ 128 = omega arith in
    omega (arith, next_group s, mul-le-mul_right (2 ^ s) under)

inner_group : (w : ℕ) → bit_or (bit_and (w % 256) 0x7f) 0x80 ≡ w % 128 + 128
inner_group w =
    rw (low_bits (w % 256) (omega arith))
      (rw (set_top_bit (w % 256 % 128) (omega arith)) (omega arith))

-- `w` is what is still to be read, from bit `shift` on.
read_loop-varint_loop :
    (k w acc shift : ℕ) (rest : Bytes)
    → w < 128 ^ suc k
    → shift + 7 * k < 64
    → acc < 2 ^ shift
    → IsU64 (acc + w * 2 ^ shift)
    → read_loop (varint_loop k w ++ rest) acc shift ≡ ok (acc + w * 2 ^ shift, rest)
unfolding varint_loop
read_loop-varint_loop zero w acc shift rest hw hs below fits =
    let same : w % 256 ≡ w = omega arith in
    rw same (closing_byte w acc shift rest hw (omega arith) below fits)
read_loop-varint_loop (suc k) w acc shift rest hw hs below fits =
    elim (Bool-cases (leb (2 ^ 7) w)) [
      | inl more ↦ rw more (
          rw (inner_group w) (
            leading_byte (w % 128) acc shift (varint_loop k (w / 128) ++ rest) (omega arith)
              (omega arith) below (omega (arith, groups-sum shift w))
            ∙ read_loop-varint_loop k (w / 128) (acc + w % 128 * 2 ^ shift) (shift + 7) rest
                (omega arith) (omega arith) (group_below acc (w % 128) shift below (omega arith))
                (omega (arith, groups-sum shift w))
            ∙ ap (λ (t : ℕ). ok (t, rest)) (omega (arith, groups-sum shift w))))
      | inr last ↦
          let same : w % 256 ≡ w = ground arith in
          rw last (rw same (closing_byte w acc shift rest (ground arith) (omega arith) below fits))
    ]

-- Reading a varint gives back every uint64 that was written, and stops behind it.
pub read_varint-varint :
    (v : ℕ) (rest : Bytes) → IsU64 v → read_varint (varint v ++ rest) ≡ ok (v, rest)
unfolding read_varint varint
read_varint-varint v rest h = ground (arith, read_loop-varint_loop 9 v 0 0 rest)

-- A byte below 128 is a varint by itself.
pub read_byte : (b : ℕ) (rest : Bytes) → b < 128 → read_varint (b ∷ rest) ≡ ok (b, rest)
unfolding read_varint
read_byte b rest h = ground (arith, closing_byte b 0 0 rest)
