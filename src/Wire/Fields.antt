-- ===== src/Wire/Fields.antt =====
-- The parts that every Marshal and Unmarshal of types/types.pb.go is made of: one field written in
-- front of the bytes that are already there, the tag and the kinds of field read, the skipping of
-- an unknown field (skipTypes), and the loop over the fields of a message.
pub mod RoundTrip
pub mod Size
pub mod Sized
pub mod Written
pub mod Yields
pub mod Skips
use coded_hotterstuff.Prelude.{
  ℕ, zero, suc, ◌+◌, ◌-◌, ◌*◌, ◌/◌, ◌%◌, ◌^◌, ◌≡◌, refl, List, [], ◌∷◌, ◌++◌, arith, length, take,
  drop, Bool, true, false, ◌||◌, not, ltb, leb, ◌==◌, if◌then◌else◌, Option, none, some,
}
use coded_hotterstuff.Prelude.Bytes.{Bytes}
use coded_hotterstuff.Wire.Varint.{
  WireError, Result, ok, err, int_overflow, unexpected_eof, invalid_length, end_group, illegal_tag,
  wrong_wire_type, illegal_wire_type, unexpected_end_of_group, no_fuel, ◌>>=◌, ◌>>◌, refuse_if, sov,
  varint, read_varint,
}

-- A MarshalToSizedBuffer fills its buffer from the end: `rest` is what stands behind the field.
unfoldable pub uint_field : ℕ → ℕ → Bytes → Bytes
uint_field tag v rest = if v == 0 then rest else tag ∷ (varint v ++ rest)

unfoldable pub bytes_field : ℕ → Bytes → Bytes → Bytes
bytes_field tag [] rest = rest
bytes_field tag (b ∷ bs) rest = tag ∷ (varint (length (b ∷ bs)) ++ ((b ∷ bs) ++ rest))

-- An embedded message is written whenever its pointer is not nil, its own encoding given.
unfoldable pub message_field : ℕ → Option Bytes → Bytes → Bytes
message_field tag none rest = rest
message_field tag (some m) rest = tag ∷ (varint (length m) ++ (m ++ rest))

-- A slice of messages: the loop runs from the last to the first, in front of what is written.
unfoldable pub messages_field : {A : Type 0} → ℕ → (A → Bytes) → List A → Bytes → Bytes
messages_field tag write [] rest = rest
messages_field tag write (a ∷ more) rest =
    message_field tag (some (write a)) (messages_field tag write more rest)

-- What the Size methods count for each.
unfoldable pub uint_size : ℕ → ℕ
uint_size v = if v == 0 then 0 else 1 + sov v

unfoldable pub bytes_size : ℕ → ℕ
bytes_size l = if ltb 0 l then 1 + l + sov l else 0

unfoldable pub message_size : Option ℕ → ℕ
message_size none = 0
message_size (some l) = 1 + l + sov l

unfoldable pub messages_size : {A : Type 0} → (A → ℕ) → List A → ℕ
messages_size size [] = 0
messages_size size (a ∷ more) = message_size (some (size a)) + messages_size size more

-- `if m.X == nil { m.X = &T{} }` in front of the Unmarshal of an embedded message.
abbrev pub or_new : {A : Type 0} → A → Option A → A
or_new a none = a
or_new a (some x) = x

-- `n` bytes of dAtA[iNdEx:], where dAtA has `l` bytes; the length is an int, and int sums wrap.
unfoldable pub take_bytes : ℕ → ℕ → Bytes → Result (Bytes × Bytes)
take_bytes l n bs = do
  refuse_if (leb (2 ^ 63) n) invalid_length
  refuse_if (leb (2 ^ 63) (l - length bs + n)) invalid_length
  refuse_if (ltb (length bs) n) unexpected_eof
  ok (take n bs, drop n bs)

-- A field of wire type 2: its length, then its bytes.
unfoldable pub read_bytes : ℕ → Bytes → Result (Bytes × Bytes)
unfolding take_bytes
read_bytes l bs = do (n, rest) ← read_varint bs; take_bytes l n rest

unfoldable pub read_bytes_field : ℕ → ℕ → Bytes → Result (Bytes × Bytes)
unfolding read_bytes
read_bytes_field l wire_type bs = do
  refuse_if (not (wire_type == 2)) wrong_wire_type
  read_bytes l bs

unfoldable pub read_uint_field : ℕ → Bytes → Result (ℕ × Bytes)
read_uint_field wire_type bs = do refuse_if (not (wire_type == 0)) wrong_wire_type; read_varint bs

-- fieldNum := int32(wire >> 3), wireType := int(wire & 0x7)
abbrev pub field_num : ℕ → ℕ
field_num wire = wire / 8 % 2 ^ 32

abbrev pub wire_type : ℕ → ℕ
wire_type wire = wire % 8

-- The tag of the next field: its number, its wire type and what follows.
unfoldable pub read_tag : Bytes → Result (ℕ × ℕ × Bytes)
read_tag bs = do
  (wire, rest) ← read_varint bs
  refuse_if (wire_type wire == 4) end_group
  refuse_if (field_num wire == 0 || leb (2 ^ 31) (field_num wire)) illegal_tag
  ok (field_num wire, wire_type wire, rest)

-- `iNdEx += n` in skipTypes: the caller refuses an index past the end, and so does the loop.
skip_bytes : ℕ → Bytes → Result Bytes
skip_bytes n bs = if ltb (length bs) n then err unexpected_eof else ok (drop n bs)

-- One round of skipTypes: the depth of open groups, and what follows.
skip_value : ℕ → ℕ → ℕ → Bytes → Result (ℕ × Bytes)
unfolding skip_bytes take_bytes
skip_value l depth wt bs =
    if wt == 0
    then (do (_, rest) ← read_varint bs; ok (depth, rest))
    else if wt == 1
    then (do rest ← skip_bytes 8 bs; ok (depth, rest))
    else if wt == 2
    then (do (n, rest) ← read_varint bs; (_, rest') ← take_bytes l n rest; ok (depth, rest'))
    else if wt == 3
    then ok (depth + 1, bs)
    else if wt == 4
    then (if depth == 0 then err unexpected_end_of_group else ok (depth - 1, bs))
    else if wt == 5
    then (do rest ← skip_bytes 4 bs; ok (depth, rest))
    else err illegal_wire_type

skip_loop : ℕ → ℕ → ℕ → Bytes → Result Bytes
unfolding skip_value
skip_loop fuel l depth [] = err unexpected_eof
skip_loop zero l depth (b ∷ bs) = err no_fuel
skip_loop (suc fuel) l depth (b ∷ bs) = do
  (wire, rest) ← read_varint (b ∷ bs)
  (depth', rest') ← skip_value l depth (wire_type wire) rest
  elim depth' [ zero ↦ ok rest' | suc open_groups ↦ skip_loop fuel l (suc open_groups) rest' ]

-- skipTypes(dAtA[iNdEx:]), and iNdEx moved past the field, in a buffer of `l` bytes. Each round
-- takes a byte. (Of two errors that apply at once inside an open group, the model may name the other.)
unfoldable pub skip_field : ℕ → Bytes → Result Bytes
unfolding skip_loop
skip_field l bs = skip_loop (length bs) l 0 bs

-- Unmarshal's loop `for iNdEx < l` over the fields. `field` is the switch on the field's number:
-- it gets the message so far, l, the number, the wire type, what follows the tag, and the bytes
-- from the tag on (an unknown field is skipped from there).
module _ {M : Type 0} (field : M → ℕ → ℕ → ℕ → Bytes → Bytes → Result (M × Bytes)) where
  unfoldable pub unmarshal_loop : ℕ → ℕ → M → Bytes → Result M
  unfolding read_tag
  unmarshal_loop fuel l m [] = ok m
  unmarshal_loop zero l m (b ∷ bs) = err no_fuel
  unmarshal_loop (suc fuel) l m (b ∷ bs) = do
    (num, wt, rest) ← read_tag (b ∷ bs)
    (m', rest') ← field m l num wt rest (b ∷ bs)
    unmarshal_loop fuel l m' rest'

  -- A round takes a byte at least, so `l` rounds are enough.
  unfoldable pub unmarshal : M → Bytes → Result M
  unfolding unmarshal_loop
  unmarshal m bs = unmarshal_loop (length bs) (length bs) m bs
