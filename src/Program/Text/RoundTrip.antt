-- ===== src/Program/Text/RoundTrip.antt =====
-- hotstuff-node/tcpNode.go: an int, printed by strconv.Itoa and read by strconv.Atoi.
use native.Mathlib.Numerals.{unary_clauses}
use coded_hotterstuff.Prelude.{
  ℕ, zero, suc, ◌+◌, ◌-◌, ◌*◌, ◌/◌, ◌%◌, ◌^◌, ◌<◌, ◌≡◌, refl, ap, ◌∙◌, true, false, inl, inr, ltb,
  leb, ◌==◌, Bool-cases, [], ◌∷◌, some, arith,
}
use coded_hotterstuff.Prelude.Bytes.{Bytes, IsU64}
use coded_hotterstuff.Program.Text.{
  digits, itoa, is_digit, number_from, number, positive, negative, atoi,
}

number_from-digit :
    (v d w : ℕ) (rest : Bytes)
    → d < 10
    → v * 10 + d ≡ w
    → number_from v ((b'0' + d) ∷ rest) ≡ number_from w rest
unfolding number_from
number_from-digit v d w rest h p =
    let good : is_digit (b'0' + d) ≡ true = ground arith in
    rw good (ap (λ k. number_from k rest) (omega arith))

power : (f : ℕ) → 10 ^ suc f ≡ 10 ^ f * 10
power f = simp unary_clauses

-- With enough digits.
number_from-digits :
    (fuel n : ℕ) (acc : Bytes)
    → n < 10 ^ suc fuel
    → number_from 0 (digits (suc fuel) n acc) ≡ number_from n acc
unfolding digits
number_from-digits zero n acc h =
    let last : ltb n 10 ≡ true = ground arith in
    rw last (number_from-digit 0 n n acc (omega arith) (omega arith))
number_from-digits (suc fuel) n acc h = elim (Bool-cases (ltb n 10)) [
  | inl last ↦ rw last (number_from-digit 0 n n acc (ground arith) (omega arith))
  | inr more ↦ rw more (
      number_from-digits fuel (n / 10) ((b'0' + n % 10) ∷ acc) (omega (arith, power (suc fuel)))
      ∙ number_from-digit (n / 10) (n % 10) n acc (omega arith) (omega arith))
]

-- A number that is printed is not empty, and begins with a digit.
record BeginsWithDigit (text : Bytes) : Type 0 where
  digit : ℕ
  rest : Bytes
  in_range : digit < 10
  begins : text ≡ (b'0' + digit) ∷ rest

one_digit : (d : ℕ) (rest : Bytes) → d < 10 → BeginsWithDigit ((b'0' + d) ∷ rest)
one_digit d rest h = record { digit = d; rest = rest; in_range = h; begins = refl }

digits_kept : (fuel n : ℕ) (acc : Bytes) → BeginsWithDigit acc → BeginsWithDigit (digits fuel n acc)
unfolding digits
digits_kept zero n acc h = h
digits_kept (suc fuel) n acc h = elim (Bool-cases (ltb n 10)) [
  | inl last ↦ rw last (one_digit n acc (ground arith))
  | inr more ↦
      rw more
        (digits_kept fuel (n / 10) ((b'0' + n % 10) ∷ acc) (one_digit (n % 10) acc (omega arith)))
]

digits-BeginsWithDigit : (fuel n : ℕ) (acc : Bytes) → BeginsWithDigit (digits (suc fuel) n acc)
unfolding digits
digits-BeginsWithDigit fuel n acc = elim (Bool-cases (ltb n 10)) [
  | inl last ↦ rw last (one_digit n acc (ground arith))
  | inr more ↦
      rw more
        (digits_kept fuel (n / 10) ((b'0' + n % 10) ∷ acc) (one_digit (n % 10) acc (omega arith)))
]

number-BeginsWithDigit : (text : Bytes) → BeginsWithDigit text → number text ≡ number_from 0 text
unfolding number
number-BeginsWithDigit text b = rw b.begins refl

atoi-BeginsWithDigit : (text : Bytes) → BeginsWithDigit text → atoi text ≡ positive (number text)
unfolding atoi
atoi-BeginsWithDigit text b =
    let minus : (b'0' + b.digit == b'-') ≡ false = ground (arith, b.in_range) in
    let plus : (b'0' + b.digit == b'+') ≡ false = ground (arith, b.in_range) in
    rw b.begins (rw minus (rw plus refl))

number-digits : (n : ℕ) → IsU64 n → number (digits 20 n []) ≡ some n
number-digits n h =
    number-BeginsWithDigit (digits 20 n []) (digits-BeginsWithDigit 19 n [])
    ∙ number_from-digits 19 n [] (omega arith)
    ∙ (unfold number_from in refl)

-- Atoi gives back every int that Itoa printed, the negative ones included.
pub atoi-itoa : (n : ℕ) → IsU64 n → atoi (itoa n) ≡ some n
unfolding itoa
atoi-itoa n h = elim (Bool-cases (ltb n (2 ^ 63))) [
  | inl small ↦ rw small (
      atoi-BeginsWithDigit (digits 20 n []) (digits-BeginsWithDigit 19 n [])
      ∙ ap positive (number-digits n h)
      ∙ rw small refl)
  | inr large ↦ rw large (
      unfold atoi in
      (ap negative (number-digits (2 ^ 64 - n) (ground arith))
        ∙ (let fits : leb (2 ^ 64 - n) (2 ^ 63) ≡ true = ground arith in
            rw fits (ap some (omega arith)))))
]
