-- ===== src/Wire/Fields/Yields.antt =====
-- types/types.pb.go: that the loops of Unmarshal come to an end on every input, and what the numbers
-- that they read are.
use Prim.Native.Nat.{bit_and}
use coded_hotterstuff.Prelude.{
  ℕ, zero, suc, ◌+◌, ◌-◌, ◌*◌, ◌%◌, ◌^◌, ◌<◌, ◌≤◌, ◌≡◌, ◌≢◌, refl, Bool, true, false, ltb, leb,
  ◌==◌, ◌||◌, if◌then◌else◌, not, List, [], ◌∷◌, length, take, drop, arith,
}
use coded_hotterstuff.Prelude.Bytes.{Bytes, IsU64}
use coded_hotterstuff.Wire.Varint.{
  WireError, Result, ok, err, no_fuel, refuse_if, add_group, read_loop, read_varint, ◌>>=◌, ◌>>◌,
}
use coded_hotterstuff.Wire.Varint.Bits.{bit_or-lt}
use coded_hotterstuff.Wire.Fields.{
  wire_type, field_num, take_bytes, read_bytes, read_bytes_field, read_uint_field, read_tag,
  unmarshal_loop, unmarshal,
}

-- A result of the code: a value with the property, or one of its errors.
abbrev pub Yields : {A : Type 0} → (A → Type 0) → Result A → Type 0
Yields P (ok a) = P a
Yields P (err why) = why ≢ no_fuel

module _ {A B : Type 0} where
  pub Yields-bind :
      (P : A → Type 0) (Q : B → Type 0) (r : Result A) (f : A → Result B)
      → Yields P r
      → ((a : A) → P a → Yields Q (f a))
      → Yields Q (r >>= f)
  Yields-bind P Q (ok a) f h k = k a h
  Yields-bind P Q (err why) f h k = h

module _ {A : Type 0} where
  pub Yields-if :
      (P : A → Type 0) (b : Bool) (r s : Result A)
      → Yields P r
      → Yields P s
      → Yields P (if b then r else s)
  Yields-if P true r s h k = h
  Yields-if P false r s h k = k

  pub Yields-refuse :
      (P : A → Type 0) (b : Bool) (why : WireError) (r : Result A)
      → why ≢ no_fuel
      → (b ≡ false → Yields P r)
      → Yields P (refuse_if b why >> r)
  Yields-refuse P true why r h k = h
  Yields-refuse P false why r h k = k refl

-- What is left is shorter than `n`, or no longer.
abbrev pub Below : {A : Type 0} → ℕ → A × Bytes → Type 0
Below n p = length p.1 < n

abbrev pub Within : {A : Type 0} → ℕ → A × Bytes → Type 0
Within n p = length p.1 ≤ n

-- A number that is read is a uint64, and takes a byte.
abbrev pub IsNumber : ℕ → ℕ × Bytes → Type 0
IsNumber n p = IsU64 p.0 × (length p.1 < n)

add_group-IsU64 : (acc b shift : ℕ) → IsU64 acc → IsU64 (add_group acc b shift)
add_group-IsU64 acc b shift h =
    bit_or-lt 64 acc (bit_and b 0x7f * 2 ^ shift % 2 ^ 64) h (omega arith)

read_loop-Yields :
    (bs : Bytes) (acc shift n : ℕ)
    → IsU64 acc
    → length bs ≤ n
    → Yields (IsNumber n) (read_loop bs acc shift)
unfolding read_loop
read_loop-Yields [] acc shift n h k =
    Yields-if (IsNumber n) (leb 64 shift) _ _ (λ p. cc p) (λ p. cc p)
read_loop-Yields (b ∷ bs) acc shift n h k =
    let next = add_group-IsU64 acc b shift h in
    Yields-if (IsNumber n) (leb 64 shift) _ _ (λ p. cc p)
      (Yields-if (IsNumber n) (ltb b 0x80) _ _ (next, omega arith)
        (read_loop-Yields bs (add_group acc b shift) (shift + 7) n next (omega arith)))

pub read_varint-Yields : (bs : Bytes) → Yields (IsNumber (length bs)) (read_varint bs)
unfolding read_varint
read_varint-Yields bs = read_loop-Yields bs 0 0 (length bs) (omega arith) (omega arith)

pub length-take-drop :
    {A : Type 0} (n : ℕ) (xs : List A) → length (take n xs) + length (drop n xs) ≡ length xs
length-take-drop zero xs = omega arith
length-take-drop (suc n) [] = omega arith
length-take-drop (suc n) (x ∷ xs) = omega (arith, length-take-drop n xs)

-- The bytes that are taken, and those that are left.
abbrev pub Parts : ℕ → Bytes × Bytes → Type 0
Parts n p = length p.0 + length p.1 ≤ n

pub take_bytes-Yields : (l n : ℕ) (bs : Bytes) → Yields (Parts (length bs)) (take_bytes l n bs)
unfolding take_bytes
take_bytes-Yields l n bs =
    Yields-refuse (Parts (length bs)) (leb (2 ^ 63) n) _ _ (λ p. cc p)
      λ _.
        Yields-refuse (Parts (length bs)) (leb (2 ^ 63) (l - length bs + n)) _ _ (λ p. cc p)
          λ _.
            Yields-refuse (Parts (length bs)) (ltb (length bs) n) _ _ (λ p. cc p)
              λ _. omega (arith, length-take-drop n bs)

Yields-weaken :
    {A : Type 0} (P Q : A → Type 0) (r : Result A) → Yields P r → ((a : A) → P a → Q a) → Yields Q r
Yields-weaken P Q (ok a) h k = k a h
Yields-weaken P Q (err why) h k = h

-- A length takes a byte.
pub read_bytes-Yields :
    (l : ℕ) (bs : Bytes) → Yields (λ p. length p.0 + length p.1 < length bs) (read_bytes l bs)
unfolding read_bytes
read_bytes-Yields l bs =
    Yields-bind (IsNumber (length bs)) (λ p. length p.0 + length p.1 < length bs) (read_varint bs) _
      (read_varint-Yields bs)
      λ p h.
        Yields-weaken (Parts (length p.1)) (λ q. length q.0 + length q.1 < length bs)
          (take_bytes l p.0 p.1) (take_bytes-Yields l p.0 p.1) λ q k. omega (arith, h.1, k)

pub read_bytes_field-Yields :
    (l wt : ℕ) (bs : Bytes) → Yields (Below (length bs)) (read_bytes_field l wt bs)
unfolding read_bytes_field
read_bytes_field-Yields l wt bs =
    Yields-refuse (Below (length bs)) (not (wt == 2)) _ _ (λ p. cc p)
      λ _.
        Yields-weaken (λ p. length p.0 + length p.1 < length bs) (Below (length bs))
          (read_bytes l bs) (read_bytes-Yields l bs) λ p h. omega (arith, h)

pub read_uint_field-Yields :
    (wt : ℕ) (bs : Bytes) → Yields (IsNumber (length bs)) (read_uint_field wt bs)
unfolding read_uint_field
read_uint_field-Yields wt bs =
    Yields-refuse (IsNumber (length bs)) (not (wt == 0)) _ _ (λ p. cc p) λ _. read_varint-Yields bs

-- Behind a tag there is less.
abbrev pub Behind : ℕ → ℕ × ℕ × Bytes → Type 0
Behind n t = length t.2 < n

read_tag-Yields : (bs : Bytes) → Yields (Behind (length bs)) (read_tag bs)
unfolding read_tag
read_tag-Yields bs =
    Yields-bind (IsNumber (length bs)) (Behind (length bs)) (read_varint bs) _
      (read_varint-Yields bs)
      λ p h.
        Yields-refuse (Behind (length bs)) (wire_type p.0 == 4) _ _ (λ q. cc q)
          λ _.
            Yields-refuse (Behind (length bs)) (field_num p.0 == 0 || leb (2 ^ 31) (field_num p.0))
              _ _ (λ q. cc q) λ _. h.1

-- The loop over the fields, where every field takes some bytes and keeps what is known of the message.
module _ {M : Type 0} (field : M → ℕ → ℕ → ℕ → Bytes → Bytes → Result (M × Bytes))
    (I : M → Type 0) where
  -- What a field leaves.
  abbrev pub Kept : ℕ → M × Bytes → Type 0
  Kept n p = I p.0 × (length p.1 < n)

  abbrev pub FieldYields : Type 0
  FieldYields =
      (m : M) (l num wt : ℕ) (bs from_tag : Bytes)
      → I m
      → length bs < length from_tag
      → Yields (Kept (length from_tag)) (field m l num wt bs from_tag)

  unmarshal_loop-Yields :
      FieldYields
      → (fuel l : ℕ) (m : M) (bs : Bytes) → I m
      → length bs ≤ fuel
      → Yields I (unmarshal_loop field fuel l m bs)
  unfolding unmarshal_loop
  unmarshal_loop-Yields each fuel l m [] h k = h
  unmarshal_loop-Yields each zero l m (b ∷ bs) h k = absurd (omega arith)
  unmarshal_loop-Yields each (suc fuel) l m (b ∷ bs) h k =
      Yields-bind (Behind (length (b ∷ bs))) I (read_tag (b ∷ bs)) _ (read_tag-Yields (b ∷ bs))
        λ t q.
          Yields-bind (Kept (length (b ∷ bs))) I (field m l t.0 t.1 t.2 (b ∷ bs)) _
            (each m l t.0 t.1 t.2 (b ∷ bs) h q)
            λ r s. unmarshal_loop-Yields each fuel l r.0 r.1 s.0 (omega (arith, s.1))

  pub unmarshal-Yields : FieldYields → (m : M) (bs : Bytes) → I m → Yields I (unmarshal field m bs)
  unfolding unmarshal
  unmarshal-Yields each m bs h =
      unmarshal_loop-Yields each (length bs) (length bs) m bs h (omega arith)
