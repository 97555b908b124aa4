-- ===== src/Wire/Fields/Written.antt =====
-- types/types.pb.go: the reading of a message field by field, each as Marshal wrote it.
use coded_hotterstuff.Prelude.{
  Bool, ℕ, ◌^◌, ◌<◌, ◌≤◌, ◌≡◌, ap, true, ◌&&◌, not, ltb, ◌==◌, List, [], ◌∷◌, ◌++◌, append_assoc,
  append-nil, length, length-append, Option, none, some, All, arith,
}
use coded_hotterstuff.Prelude.Bytes.{Bytes, IsU64}
use coded_hotterstuff.Wire.Varint.{Result, ok, varint}
use coded_hotterstuff.Wire.Fields.{
  messages_field, uint_field, bytes_field, message_field, field_num, wire_type, read_uint_field,
  read_bytes_field, unmarshal,
}
use coded_hotterstuff.Wire.Fields.RoundTrip.{
  IsTag, Reads, Reads-end, Reads-uint, Reads-bytes, Reads-field, read_uint_field-varint,
  read_bytes_field-written, uint_field-length, bytes_field-length,
}
use mathlib.Core.Option

-- The Boolean test of IsTag.
abbrev pub is_tag : ℕ → Bool
is_tag tag = ltb tag 128 && not (field_num tag == 0) && not (wire_type tag == 4)

is_tag-IsTag : (tag : ℕ) → is_tag tag ≡ true → IsTag tag
is_tag-IsTag tag h = record {
  small = ground arith;
  numbered = λ p. ground arith;
  open_type = λ p. ground arith;
}

-- A pointer is nil or points to what has the property.
abbrev pub OrNil : {A : Type 0} → (A → Type 0) → Option A → Type 0
OrNil P none = Unit {0}
OrNil P (some a) = P a

pub OrNil-map :
    {A : Type 0} {P Q : A → Type 0} (o : Option A) → OrNil P o → ((a : A) → P a → Q a) → OrNil Q o
OrNil-map none h f = tt
OrNil-map (some a) h f = f a h

pub All-map :
    {A : Type 0} {P Q : A → Type 0} (xs : List A) → ((a : A) → P a → Q a) → All P xs → All Q xs
All-map [] f h = tt
All-map (x ∷ xs) f (h, hs) = (f x h, All-map xs f hs)

-- A message that Unmarshal, into a new message, reads back from what Marshal wrote.
abbrev pub ReadsBack : {A : Type 0} → (A → Bytes) → (Bytes → Result A) → A → Type 0
ReadsBack write read a = read (write a) ≡ ok a

module _ {M : Type 0} (field : M → ℕ → ℕ → ℕ → Bytes → Bytes → Result (M × Bytes)) (l : ℕ)
    (small : l < 2 ^ 63) where
  -- Bytes that fit into the buffer are read to the end.
  abbrev pub ReadsIn : M → Bytes → M → Type 0
  ReadsIn m bs r = length bs ≤ l → Reads field l m bs r

  pub end_read : (m : M) → ReadsIn m [] m
  end_read m within = Reads-end field l m

  pub uint_read :
      (tag v : ℕ) (set : ℕ → M) (r : M) (rest : Bytes)
      → is_tag tag ≡ true
      → wire_type tag ≡ 0
      → ((x : ℕ) (bs behind from : Bytes)
          → read_uint_field 0 bs ≡ ok (x, behind)
          → field (set 0) l (field_num tag) 0 bs from ≡ ok (set x, behind))
      → IsU64 v
      → ReadsIn (set v) rest r
      → ReadsIn (set 0) (uint_field tag v rest) r
  uint_read tag v set r rest h wt step range next within =
      Reads-uint field l tag v (set 0) (set v) r rest (is_tag-IsTag tag h) (λ p. ap set p)
        (λ from. rw wt (step v (varint v ++ rest) rest from (read_uint_field-varint v rest range)))
        (next (omega (arith, uint_field-length tag v rest, within)))

  pub bytes_read :
      (tag : ℕ) (b : Bytes) (set : Bytes → M) (r : M) (rest : Bytes)
      → is_tag tag ≡ true
      → wire_type tag ≡ 2
      → ((x bs behind from : Bytes)
          → read_bytes_field l 2 bs ≡ ok (x, behind)
          → field (set []) l (field_num tag) 2 bs from ≡ ok (set x, behind))
      → ReadsIn (set b) rest r
      → ReadsIn (set []) (bytes_field tag b rest) r
  bytes_read tag b set r rest h wt step next within =
      let long = bytes_field-length tag b rest in
      Reads-bytes field l tag b (set []) (set b) r rest (is_tag-IsTag tag h) (λ p. ap set p)
        (λ from. rw wt (
          step b (varint (length b) ++ (b ++ rest)) rest from
            (read_bytes_field-written l b rest (omega (arith, long, within)) small)))
        (next (omega (arith, long, within)))

  -- An embedded message that is there.
  pub embedded_read :
      {A : Type 0} (tag : ℕ) (a : A) (write : A → Bytes) (read : Bytes → Result A) (m m' r : M)
      (rest : Bytes)
      → is_tag tag ≡ true
      → wire_type tag ≡ 2
      → ((bs inner behind from : Bytes)
          → read_bytes_field l 2 bs ≡ ok (inner, behind)
          → read inner ≡ ok a
          → field m l (field_num tag) 2 bs from ≡ ok (m', behind))
      → ReadsBack write read a
      → ReadsIn m' rest r
      → ReadsIn m (message_field tag (some (write a)) rest) r
  unfolding message_field
  embedded_read tag a write read m m' r rest h wt step back next within =
      let w = write a in
      let assoc = append_assoc (varint (length w)) w rest in
      let outer = length-append (varint (length w)) (w ++ rest) in
      let inner = length-append w rest in
      rw (← assoc) (
        Reads-field field l tag m m' r (varint (length w) ++ w) rest (is_tag-IsTag tag h)
          (λ from. rw wt (
            rw assoc (
              step (varint (length w) ++ (w ++ rest)) w rest from
                (read_bytes_field-written l w rest (omega (arith, outer, within)) small) back)))
          (next (omega (arith, outer, inner, within))))

  -- An embedded message behind a pointer.
  pub message_read :
      {A : Type 0} (tag : ℕ) (a : Option A) (write : A → Bytes) (read : Bytes → Result A)
      (set : Option A → M) (r : M) (rest : Bytes)
      → is_tag tag ≡ true
      → wire_type tag ≡ 2
      → ((x : A) (bs inner behind from : Bytes)
          → read_bytes_field l 2 bs ≡ ok (inner, behind)
          → read inner ≡ ok x
          → field (set none) l (field_num tag) 2 bs from ≡ ok (set (some x), behind))
      → OrNil (ReadsBack write read) a
      → ReadsIn (set a) rest r
      → ReadsIn (set none) (message_field tag (Option.map write a) rest) r
  unfolding message_field
  message_read tag none write read set r rest h wt step back next within = next within
  message_read tag (some a) write read set r rest h wt step back next within =
      embedded_read tag a write read (set none) (set (some a)) r rest h wt (step a) back next within

  -- A slice of messages, of which some are read.
  pub messages_read :
      {A : Type 0} (tag : ℕ) (xs before : List A) (write : A → Bytes) (read : Bytes → Result A)
      (set : List A → M)
      → is_tag tag ≡ true
      → wire_type tag ≡ 2
      → ((ys : List A) (x : A) (bs inner behind from : Bytes)
          → read_bytes_field l 2 bs ≡ ok (inner, behind)
          → read inner ≡ ok x
          → field (set ys) l (field_num tag) 2 bs from ≡ ok (set (ys ++ x ∷ []), behind))
      → All (ReadsBack write read) xs
      → ReadsIn (set before) (messages_field tag write xs []) (set (before ++ xs))
  unfolding messages_field
  messages_read tag [] before write read set h wt step back =
      rw (append-nil before) (end_read (set before))
  messages_read tag (x ∷ xs) before write read set h wt step (back, rest) =
      embedded_read tag x write read (set before) (set (before ++ x ∷ [])) (set (before ++ x ∷ xs))
        (messages_field tag write xs []) h wt (step before x) back
        (rw (← append_assoc before (x ∷ []) xs)
          (messages_read tag xs (before ++ x ∷ []) write read set h wt step rest))

  -- Unmarshal of a whole encoding.
  pub unmarshal_read :
      (m r : M) (bs : Bytes) → length bs ≡ l → ReadsIn m bs r → unmarshal field m bs ≡ ok r
  unfolding unmarshal Reads
  unmarshal_read m r bs whole reads =
      rw whole (reads (omega (arith, whole)) l (omega (arith, whole)))
