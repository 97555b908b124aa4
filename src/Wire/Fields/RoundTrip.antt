-- ===== src/Wire/Fields/RoundTrip.antt =====
-- types/types.pb.go: the reading of one field that was written.
use coded_hotterstuff.Prelude.{
  append_assoc, ℕ, zero, suc, ◌^◌, ◌<◌, ◌≤◌, ◌≡◌, ◌≢◌, refl, inl, inr, ◌==◌, Bool-cases, [], ◌∷◌,
  ◌++◌, length, length-append, take-append, drop-append, arith,
}
use coded_hotterstuff.Prelude.Bytes.{Bytes, IsU64}
use coded_hotterstuff.Wire.Varint.{Result, ok, varint}
use coded_hotterstuff.Wire.Varint.RoundTrip.{read_varint-varint, read_byte}
use coded_hotterstuff.Wire.Fields.{
  uint_field, bytes_field, field_num, wire_type, read_tag, take_bytes, read_bytes, read_bytes_field,
  read_uint_field, unmarshal_loop,
}

-- A tag of one byte: a field number from 1 to 15, and a wire type that is not the end of a group.
pub record IsTag (tag : ℕ) : Type 0 where
  pub small : tag < 128
  pub numbered : field_num tag ≢ 0
  pub open_type : wire_type tag ≢ 4

read_tag-tag :
    (tag : ℕ) (rest : Bytes)
    → IsTag tag
    → read_tag (tag ∷ rest) ≡ ok (field_num tag, wire_type tag, rest)
unfolding read_tag
read_tag-tag tag rest h =
    rw (read_byte tag rest h.small) (ground (arith, h.numbered, h.open_type, h.small))

pub read_uint_field-varint :
    (v : ℕ) (rest : Bytes) → IsU64 v → read_uint_field 0 (varint v ++ rest) ≡ ok (v, rest)
unfolding read_uint_field
read_uint_field-varint v rest h = read_varint-varint v rest h

take_bytes-append :
    (l : ℕ) (b rest : Bytes)
    → length (b ++ rest) ≤ l
    → l < 2 ^ 63
    → take_bytes l (length b) (b ++ rest) ≡ ok (b, rest)
unfolding take_bytes
take_bytes-append l b rest within small =
    let long = length-append b rest in
    rw (take-append b rest) (rw (drop-append b rest) (ground (arith, long)))

pub read_bytes_field-written :
    (l : ℕ) (b rest : Bytes)
    → length (b ++ rest) ≤ l
    → l < 2 ^ 63
    → read_bytes_field l 2 (varint (length b) ++ (b ++ rest)) ≡ ok (b, rest)
unfolding read_bytes_field read_bytes
read_bytes_field-written l b rest within small =
    let long = length-append b rest in
    rw (read_varint-varint (length b) (b ++ rest) (omega (arith, long)))
      (take_bytes-append l b rest within small)

module _ {M : Type 0} (field : M → ℕ → ℕ → ℕ → Bytes → Bytes → Result (M × Bytes)) where
  -- Whatever fuel there is, as long as it covers the bytes, the loop ends with `r`.
  unfoldable pub Reads : ℕ → M → Bytes → M → Type 0
  Reads l m bs r = (fuel : ℕ) → length bs ≤ fuel → unmarshal_loop field fuel l m bs ≡ ok r

  pub Reads-end : (l : ℕ) (m : M) → Reads l m [] m
  unfolding Reads unmarshal_loop
  Reads-end l m zero h = refl
  Reads-end l m (suc fuel) h = refl

  -- One field, of any kind.
  pub Reads-field :
      (l tag : ℕ) (m m' r : M) (written rest : Bytes)
      → IsTag tag
      → ((from : Bytes)
          → field m l (field_num tag) (wire_type tag) (written ++ rest) from ≡ ok (m', rest))
      → Reads l m' rest r
      → Reads l m (tag ∷ (written ++ rest)) r
  unfolding Reads unmarshal_loop
  Reads-field l tag m m' r written rest h step next zero within = absurd (omega arith)
  Reads-field l tag m m' r written rest h step next (suc fuel) within =
      let long = length-append written rest in
      rw (read_tag-tag tag (written ++ rest) h)
        (rw (step (tag ∷ (written ++ rest))) (next fuel (omega (arith, long))))

  pub Reads-uint :
      (l tag v : ℕ) (m m' r : M) (rest : Bytes)
      → IsTag tag
      → (v ≡ 0 → m' ≡ m)
      → ((from : Bytes)
          → field m l (field_num tag) (wire_type tag) (varint v ++ rest) from ≡ ok (m', rest))
      → Reads l m' rest r
      → Reads l m (uint_field tag v rest) r
  unfolding uint_field
  Reads-uint l tag v m m' r rest h same step next = elim (Bool-cases (v == 0)) [
    | inl absent ↦ let stay : m' ≡ m = same (ground arith) in rw absent (rw (← stay) next)
    | inr present ↦ rw present (Reads-field l tag m m' r (varint v) rest h step next)
  ]

  pub Reads-bytes :
      (l tag : ℕ) (b : Bytes) (m m' r : M) (rest : Bytes)
      → IsTag tag
      → (b ≡ [] → m' ≡ m)
      → ((from : Bytes)
          → field m l (field_num tag) (wire_type tag) (varint (length b) ++ (b ++ rest)) from
            ≡ ok (m', rest))
      → Reads l m' rest r
      → Reads l m (bytes_field tag b rest) r
  unfolding bytes_field
  Reads-bytes l tag [] m m' r rest h same step next =
      let stay : m' ≡ m = same refl in rw (← stay) next
  Reads-bytes l tag (x ∷ b) m m' r rest h same step next =
      let assoc = append_assoc (varint (length (x ∷ b))) (x ∷ b) rest in
      rw (← assoc) (
        Reads-field l tag m m' r (varint (length (x ∷ b)) ++ (x ∷ b)) rest h
          (λ from. rw assoc (step from)) next)

-- The fields behind a field are no longer than all of them.
pub uint_field-length : (tag v : ℕ) (rest : Bytes) → length rest ≤ length (uint_field tag v rest)
unfolding uint_field
uint_field-length tag v rest = let long = length-append (varint v) rest in ground (arith, long)

pub bytes_field-length :
    (tag : ℕ) (b rest : Bytes)
    → (length rest ≤ length (bytes_field tag b rest))
      × (length (b ++ rest) ≤ length (bytes_field tag b rest))
unfolding bytes_field
bytes_field-length tag [] rest = (omega arith, omega arith)
bytes_field-length tag (x ∷ b) rest =
    let inner = length-append (x ∷ b) rest in
    let outer = length-append (varint (length (x ∷ b))) ((x ∷ b) ++ rest) in
    (omega (arith, inner, outer), omega (arith, inner, outer))
