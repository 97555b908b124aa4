-- ===== src/Wire/Varint.antt =====
-- types/types.pb.go: encodeVarintTypes, sovTypes, and the loop that reads a varint, which the
-- generated code repeats for every tag, length and number.
pub mod Bits
pub mod RoundTrip
pub mod Size
use Prim.Native.Nat.{bit_and, bit_or}
use coded_hotterstuff.Prelude.{
  ℕ, zero, suc, ◌+◌, ◌-◌, ◌*◌, ◌/◌, ◌%◌, ◌^◌, ◌<◌, ◌≤◌, ◌≡◌, refl, List, [], ◌∷◌, ◌++◌, arith,
  length, Bool, true, false, ltb, leb, ◌==◌, if◌then◌else◌,
}
use coded_hotterstuff.Prelude.Bytes.{Bytes, IsByte, IsU64}

-- The errors that Unmarshal returns, without their texts. `no_fuel` is no value of the code: a
-- loop of the model ran out of rounds.
pub data WireError : Type 0 where
  int_overflow unexpected_eof invalid_length end_group illegal_tag wrong_wire_type : WireError
  illegal_wire_type unexpected_end_of_group no_fuel : WireError

pub data Result {ℓ} (A : Type ℓ) : Type ℓ where
  ok : A → Result A
  err : WireError → Result A

-- An error that is returned at once.
abbrev pub refuse_if : Bool → WireError → Result (Unit {0})
refuse_if true why = err why
refuse_if false why = ok tt

module _ {ℓ κ} {A : Type ℓ} {B : Type κ} where
  infixl 5 ◌>>=◌ ◌>>◌
  abbrev pub ◌>>=◌ : Result A → (A → Result B) → Result B
  err why >>= next = err why
  ok value >>= next = next value

  abbrev pub ◌>>◌ : Result A → Result B → Result B
  first >> second = first >>= λ _. second

-- bits.Len64: the number of binary digits. 64 rounds serve every uint64.
unfoldable pub bit_length : ℕ → ℕ → ℕ
bit_length zero x = 0
bit_length (suc rounds) x = let more = bit_length rounds (x / 2) in if x == 0 then 0 else more + 1

-- sovTypes: the length of a varint.
unfoldable pub sov : ℕ → ℕ
unfolding bit_length
sov x = (bit_length 64 (bit_or x 1) + 6) / 7

-- The loop of encodeVarintTypes; a uint64 takes ten bytes at most, so nine rounds and the last
-- byte are enough.
unfoldable pub varint_loop : ℕ → ℕ → Bytes
varint_loop zero v = (v % 256) ∷ []
varint_loop (suc rounds) v =
    let rest = varint_loop rounds (v / 2 ^ 7) in
    if leb (2 ^ 7) v then bit_or (bit_and (v % 256) 0x7f) 0x80 ∷ rest else (v % 256) ∷ []

-- The bytes that encodeVarintTypes writes.
unfoldable pub varint : ℕ → Bytes
unfolding varint_loop
varint v = varint_loop 9 v

-- `acc |= uint64(b&0x7F) << shift`
abbrev pub add_group : ℕ → ℕ → ℕ → ℕ
add_group acc b shift = bit_or acc (bit_and b 0x7f * 2 ^ shift % 2 ^ 64)

-- The list is dAtA[iNdEx:].
unfoldable pub read_loop : Bytes → ℕ → ℕ → Result (ℕ × Bytes)
read_loop [] acc shift = if leb 64 shift then err int_overflow else err unexpected_eof
read_loop (b ∷ bs) acc shift =
    let acc' = add_group acc b shift in
    let more = read_loop bs acc' (shift + 7) in
    if leb 64 shift then err int_overflow else if ltb b 0x80 then ok (acc', bs) else more

unfoldable pub read_varint : Bytes → Result (ℕ × Bytes)
unfolding read_loop
read_varint bs = read_loop bs 0 0
