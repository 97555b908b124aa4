-- ===== src/Program/Text.antt =====
-- What hotstuff-node uses of Go's strconv and strings: Itoa, Atoi and Split, on bytes. An int is
-- given by its 64 bits.
pub mod RoundTrip
use coded_hotterstuff.Prelude.{
  ℕ, zero, suc, ◌+◌, ◌-◌, ◌*◌, ◌/◌, ◌%◌, ◌^◌, Bool, ◌&&◌, ◌==◌, ltb, leb, if◌then◌else◌, List, [],
  ◌∷◌, Option, none, some,
}
use coded_hotterstuff.Prelude.Bytes.{Bytes}

-- The decimal digits of a number in front of `acc`, one for each unit of fuel at most.
unfoldable pub digits : ℕ → ℕ → Bytes → Bytes
digits zero n acc = acc
digits (suc fuel) n acc =
    let more = digits fuel (n / 10) ((b'0' + n % 10) ∷ acc) in
    if ltb n 10 then (b'0' + n) ∷ acc else more

-- strconv.Itoa: a number of 64 bits has at most 20 digits.
unfoldable pub itoa : ℕ → Bytes
unfolding digits
itoa n = if ltb n (2 ^ 63) then digits 20 n [] else b'-' ∷ digits 20 (2 ^ 64 - n) []

abbrev pub is_digit : ℕ → Bool
is_digit c = leb b'0' c && leb c b'9'

unfoldable pub number_from : ℕ → Bytes → Option ℕ
number_from v [] = some v
number_from v (c ∷ cs) = if is_digit c then number_from (v * 10 + (c - b'0')) cs else none

-- One digit at least.
unfoldable pub number : Bytes → Option ℕ
unfolding number_from
number [] = none
number (c ∷ cs) = number_from 0 (c ∷ cs)

-- The range of an int.
abbrev pub positive : Option ℕ → Option ℕ
positive none = none
positive (some v) = if ltb v (2 ^ 63) then some v else none

abbrev pub negative : Option ℕ → Option ℕ
negative none = none
negative (some v) = if leb v (2 ^ 63) then some ((2 ^ 64 - v) % 2 ^ 64) else none

-- strconv.Atoi; `none` is its error.
unfoldable pub atoi : Bytes → Option ℕ
unfolding number
atoi [] = none
atoi (c ∷ cs) =
    if c == b'-'
    then negative (number cs)
    else if c == b'+'
    then positive (number cs)
    else positive (number (c ∷ cs))

behind : ℕ → List Bytes → List Bytes
behind c [] = (c ∷ []) ∷ []
behind c (part ∷ parts) = (c ∷ part) ∷ parts

-- strings.Split by a separator of one byte.
unfoldable pub split : ℕ → Bytes → List Bytes
unfolding behind
split sep [] = [] ∷ []
split sep (c ∷ cs) = let rest = split sep cs in if c == sep then [] ∷ rest else behind c rest
