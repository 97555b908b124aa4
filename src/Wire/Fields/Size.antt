-- ===== src/Wire/Fields/Size.antt =====
-- types/types.pb.go: the bytes of a field, and what Size counts for it.
use coded_hotterstuff.Prelude.{ℕ, ◌+◌, ◌≤◌, ◌≡◌, [], ◌∷◌, ◌++◌, length, length-append, some, arith}
use coded_hotterstuff.Prelude.Bytes.{Bytes, IsU64}
use coded_hotterstuff.Wire.Varint.{varint}
use coded_hotterstuff.Wire.Varint.Size.{length-varint}
use coded_hotterstuff.Wire.Fields.{
  uint_field, bytes_field, message_field, uint_size, bytes_size, message_size,
}

pub length-uint_field :
    (tag v : ℕ) (rest : Bytes)
    → IsU64 v
    → length (uint_field tag v rest) ≡ uint_size v + length rest
unfolding uint_field uint_size
length-uint_field tag v rest h =
    let long = length-append (varint v) rest in
    let size = length-varint v h in ground (arith, long, size)

pub length-bytes_field :
    (tag : ℕ) (b rest : Bytes)
    → IsU64 (length b)
    → length (bytes_field tag b rest) ≡ bytes_size (length b) + length rest
unfolding bytes_field bytes_size
length-bytes_field tag [] rest h = omega arith
length-bytes_field tag (x ∷ b) rest h =
    let outer = length-append (varint (length (x ∷ b))) ((x ∷ b) ++ rest) in
    let inner = length-append (x ∷ b) rest in
    let size = length-varint (length (x ∷ b)) h in ground (arith, outer, inner, size)

pub length-message_field :
    (tag : ℕ) (m rest : Bytes)
    → IsU64 (length m)
    → length (message_field tag (some m) rest) ≡ message_size (some (length m)) + length rest
unfolding message_field message_size
length-message_field tag m rest h =
    let outer = length-append (varint (length m)) (m ++ rest) in
    let inner = length-append m rest in
    let size = length-varint (length m) h in omega (arith, outer, inner, size)

-- A part of a field is no longer than the field.
pub bytes_field-within : (tag : ℕ) (b rest : Bytes) → length b ≤ length (bytes_field tag b rest)
unfolding bytes_field
bytes_field-within tag [] rest = omega arith
bytes_field-within tag (x ∷ b) rest =
    let outer = length-append (varint (length (x ∷ b))) ((x ∷ b) ++ rest) in
    let inner = length-append (x ∷ b) rest in omega (arith, outer, inner)
