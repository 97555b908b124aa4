-- ===== src/Wire/Varint/Size.antt =====
-- types/types.pb.go: encodeVarintTypes and sovTypes.
use Prim.Native.Nat.{bit_or}
use coded_hotterstuff.Prelude.{
  ℕ, zero, suc, ◌+◌, ◌/◌, ◌^◌, ◌<◌, ◌≤◌, ◌≡◌, ap, sym, ◌∙◌, leb, Bool-cases, inl, inr, length,
  arith,
}
use coded_hotterstuff.Prelude.Bytes.{IsU64}
use coded_hotterstuff.Wire.Varint.{bit_length, sov, varint_loop, varint}
use coded_hotterstuff.Wire.Varint.Bits.{bit_or_one}

-- One round more changes nothing.
bit_length_round : (r x : ℕ) → x < 2 ^ r → bit_length (suc r) x ≡ bit_length r x
unfolding bit_length
bit_length_round zero x h = ground arith
bit_length_round (suc r) x h =
    let half : x / 2 < 2 ^ r = omega (arith, h) in
    let tail = bit_length_round r (x / 2) half in ground arith

-- A digit.
bit_length_half : (r x : ℕ) → 0 < x → bit_length (suc r) x ≡ bit_length r (x / 2) + 1
unfolding bit_length
bit_length_half r x h = ground arith

bit_length_odd : (r x : ℕ) → 0 < x → bit_length (suc r) (bit_or x 1) ≡ bit_length (suc r) x
bit_length_odd r x h =
    let odd = bit_or_one x in
    let positive : 0 < bit_or x 1 = omega (arith, odd) in
    let half : bit_or x 1 / 2 ≡ x / 2 = omega (arith, odd) in
    bit_length_half r (bit_or x 1) positive
    ∙ ap (λ (t : ℕ). bit_length r t + 1) half
    ∙ sym (bit_length_half r x h)

bit_length_le : (r j x : ℕ) → x < 2 ^ j → bit_length r x ≤ j
unfolding bit_length
bit_length_le zero j x h = omega arith
bit_length_le (suc r) zero x h = ground arith
bit_length_le (suc r) (suc j) x h =
    let half : x / 2 < 2 ^ j = omega (arith, h) in
    let tail = bit_length_le r j (x / 2) half in ground arith

-- Seven digits, the ones that a byte of a varint holds.
bit_length_seven :
    (r x : ℕ)
    → 128 ≤ x
    → bit_length (suc (suc (suc (suc (suc (suc (suc r))))))) x ≡ bit_length r (x / 128) + 7
bit_length_seven r x h =
    let parts : x / 2 / 2 / 2 / 2 / 2 / 2 / 2 ≡ x / 128 = omega arith in
    omega (
      arith,
      bit_length_half _ x (omega arith),
      bit_length_half _ (x / 2) (omega arith),
      bit_length_half _ (x / 2 / 2) (omega arith),
      bit_length_half _ (x / 2 / 2 / 2) (omega arith),
      bit_length_half _ (x / 2 / 2 / 2 / 2) (omega arith),
      bit_length_half _ (x / 2 / 2 / 2 / 2 / 2) (omega arith),
      bit_length_half r (x / 2 / 2 / 2 / 2 / 2 / 2) (omega arith),
      ap (bit_length r) parts,
    )

-- Enough rounds for a varint of `k` bytes and one more.
rounds : ℕ → ℕ
rounds zero = 7
rounds (suc k) = suc (suc (suc (suc (suc (suc (suc (rounds k)))))))

one_byte : (r v : ℕ) → v < 128 → (bit_length (suc r) (bit_or v 1) + 6) / 7 ≡ 1
one_byte r v h =
    let odd = bit_or_one v in
    let small : bit_or v 1 < 2 ^ 7 = omega (arith, odd) in
    let most = bit_length_le (suc r) 7 (bit_or v 1) small in
    let least = bit_length_half r (bit_or v 1) (omega (arith, odd)) in omega (arith, most, least)

odd_rounds : (k y : ℕ) → 0 < y → bit_length (rounds k) (bit_or y 1) ≡ bit_length (rounds k) y
unfolding rounds
odd_rounds zero y h = bit_length_odd 6 y h
odd_rounds (suc k) y h = bit_length_odd _ y h

length-varint_loop :
    (k v : ℕ)
    → v < 128 ^ suc k
    → length (varint_loop k v) ≡ (bit_length (rounds k) (bit_or v 1) + 6) / 7
unfolding varint_loop rounds
length-varint_loop zero v h = sym (one_byte 6 v (omega arith))
length-varint_loop (suc k) v h = elim (Bool-cases (leb (2 ^ 7) v)) [
  | inr last ↦ rw last (sym (one_byte _ v (ground arith)))
  | inl more ↦
      let big : 128 ≤ v = ground arith in
      let tail = length-varint_loop k (v / 128) (omega (arith, h)) in
      let odd = bit_or_one v in
      let seven = bit_length_seven (rounds k) (bit_or v 1) (omega (arith, odd)) in
      let same : bit_or v 1 / 128 ≡ v / 128 = omega (arith, odd) in
      let even = odd_rounds k (v / 128) (omega arith) in
      rw more (omega (arith, tail, seven, ap (bit_length (rounds k)) same, even))
]

-- 70 rounds and 64 count the same.
bit_length_70 : (x : ℕ) → x < 2 ^ 64 → bit_length 70 x ≡ bit_length 64 x
bit_length_70 x h =
    bit_length_round 69 x (omega arith)
    ∙ bit_length_round 68 x (omega arith)
    ∙ bit_length_round 67 x (omega arith)
    ∙ bit_length_round 66 x (omega arith)
    ∙ bit_length_round 65 x (omega arith)
    ∙ bit_length_round 64 x h

pub length-varint : (v : ℕ) → IsU64 v → length (varint v) ≡ sov v
unfolding varint sov rounds
length-varint v h =
    length-varint_loop 9 v (omega arith)
    ∙ ap (λ (t : ℕ). (t + 6) / 7) (bit_length_70 (bit_or v 1) (omega (arith, bit_or_one v)))
