-- ===== src/Wire/Varint/Bits.antt =====
-- types/types.pb.go: the masks of the varint code, as arithmetic.
use Prim.Native.Nat.{
  ℕ, zero, suc, ◌+◌, ◌*◌, ◌/◌, ◌%◌, ◌≤◌, ◌<◌, ◌^◌, max, bit_and, bit_or, digits, bit_or-bitwise,
}
use coded_hotterstuff.Prelude.{◌≡◌, refl, ap, Bool, true, ◌&&◌, ◌==◌, arith}

-- Below a bound, an equation of numbers is checked value by value.
agree_below : ℕ → (ℕ → ℕ) → (ℕ → ℕ) → Bool
agree_below zero f g = true
agree_below (suc n) f g = f n == g n && agree_below n f g

agree_below-eq : (n : ℕ) (f g : ℕ → ℕ) (i : ℕ) → agree_below n f g ≡ true → i < n → f i ≡ g i
unfolding agree_below
agree_below-eq zero f g i e h = absurd (omega arith)
agree_below-eq (suc n) f g i e h = ground (arith, agree_below-eq n f g i)

low_table : agree_below 256 (λ b. bit_and b 0x7f) (λ b. b % 128) ≡ true
unfolding agree_below
low_table = refl

pub low_bits : (b : ℕ) → b < 256 → bit_and b 0x7f ≡ b % 128
low_bits b h = agree_below-eq 256 _ _ b low_table h

top_table : agree_below 128 (λ b. bit_or b 0x80) (λ b. b + 128) ≡ true
unfolding agree_below
top_table = refl

pub set_top_bit : (b : ℕ) → b < 128 → bit_or b 0x80 ≡ b + 128
set_top_bit b h = agree_below-eq 128 _ _ b top_table h

-- `bit_or` as it is defined, with `n` rounds for its digits; every `n` from the first number on serves.
abbrev ors : ℕ → ℕ → ℕ → ℕ
ors n x y = digits (λ y. y) max n x y

ors_rounds : (n m y x : ℕ) → x ≤ m → x ≤ n → ors n x y ≡ ors m x y
ors_rounds (suc n) (suc m) y (suc x) p q =
    let tail = ors_rounds n m (y / 2) (suc x / 2) (omega arith) (omega arith) in omega (arith, tail)
ors_rounds (suc n) (suc m) y zero p q = refl
ors_rounds zero zero y x p q = refl
ors_rounds zero (suc m) y zero p q = refl
ors_rounds zero (suc m) y (suc x) p q = absurd (omega arith)
ors_rounds (suc n) zero y zero p q = refl
ors_rounds (suc n) zero y (suc x) p q = absurd (omega arith)

zero-bit_or : (y : ℕ) → bit_or 0 y ≡ y
zero-bit_or y = bit_or-bitwise 0 y

-- The lowest digit apart from the others.
bit_or_step : (x y : ℕ) → bit_or x y ≡ bit_or (x / 2) (y / 2) * 2 + max (x % 2) (y % 2)
bit_or_step zero y =
    let whole = zero-bit_or y in let half = zero-bit_or (y / 2) in omega (arith, whole, half)
bit_or_step (suc x) y =
    let rounds = ors_rounds x (suc x / 2) (y / 2) (suc x / 2) (omega arith) (omega arith) in
    let whole = bit_or-bitwise (suc x) y in
    let half = bit_or-bitwise (suc x / 2) (y / 2) in omega (arith, rounds, whole, half)

-- Where the digits do not meet, a disjunction is a sum.
pub bit_or_shifted : (s a g : ℕ) → a < 2 ^ s → bit_or a (g * 2 ^ s) ≡ a + g * 2 ^ s
bit_or_shifted zero zero g h = omega (arith, zero-bit_or (g * 2 ^ 0))
bit_or_shifted zero (suc a) g h = absurd (omega arith)
bit_or_shifted (suc s) a g h =
    let power : 2 ^ suc s ≡ 2 ^ s * 2 = omega arith in
    let double : g * 2 ^ suc s ≡ g * 2 ^ s * 2 = omega (arith, ap (λ t. g * t) power) in
    let half : g * 2 ^ s * 2 / 2 ≡ g * 2 ^ s = omega arith in
    rw double (
      omega (
        arith,
        bit_or_step a (g * 2 ^ s * 2),
        ap (λ b. bit_or (a / 2) b) half,
        bit_or_shifted s (a / 2) g (omega arith),
      ))

bit_or-zero : (n x : ℕ) → x ≤ n → bit_or x 0 ≡ x
bit_or-zero n zero h = zero-bit_or 0
bit_or-zero zero (suc x) h = absurd (omega arith)
bit_or-zero (suc n) (suc x) h =
    omega (arith, bit_or_step (suc x) 0, bit_or-zero n (suc x / 2) (omega arith))

-- The lowest digit set.
pub bit_or_one : (x : ℕ) → bit_or x 1 ≡ x / 2 * 2 + 1
bit_or_one x = omega (arith, bit_or_step x 1, bit_or-zero x (x / 2) (omega arith))

max-lt-two : (a b : ℕ) → a < 2 → b < 2 → max a b < 2
max-lt-two a b h k = omega arith

-- A disjunction of numbers of `n` digits has `n` digits.
pub bit_or-lt : (n x y : ℕ) → x < 2 ^ n → y < 2 ^ n → bit_or x y < 2 ^ n
bit_or-lt zero x y h k =
    let nothing : x ≡ 0 = omega arith in rw nothing (omega (arith, zero-bit_or y))
bit_or-lt (suc n) x y h k = omega (
  arith,
  bit_or_step x y,
  bit_or-lt n (x / 2) (y / 2) (omega arith) (omega arith),
  max-lt-two (x % 2) (y % 2) (omega arith) (omega arith),
)
