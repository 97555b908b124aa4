-- ===== src/Wire/Fields/Sized.antt =====
-- types/types.pb.go: the length of a message field by field, and what Size counts.
use coded_hotterstuff.Prelude.{
  ℕ, ◌+◌, ◌^◌, ◌<◌, ◌≡◌, refl, List, [], ◌∷◌, ◌++◌, length, length-append, Option, none, some, All,
  arith,
}
use coded_hotterstuff.Prelude.Bytes.{Bytes, IsU64}
use coded_hotterstuff.Wire.Varint.{varint}
use coded_hotterstuff.Wire.Fields.{
  uint_field, bytes_field, message_field, messages_field, uint_size, bytes_size, message_size,
  messages_size,
}
use coded_hotterstuff.Wire.Fields.RoundTrip.{uint_field-length, bytes_field-length}
use coded_hotterstuff.Wire.Fields.Size.{
  length-uint_field, length-bytes_field, length-message_field, bytes_field-within,
}
use coded_hotterstuff.Wire.Fields.Written.{OrNil}
use mathlib.Core.Option

-- A message of fewer than 2^63 bytes has the size that Size counts.
abbrev pub HasSize : {A : Type 0} → (A → Bytes) → (A → ℕ) → A → Type 0
HasSize write size a = length (write a) < 2 ^ 63 → length (write a) ≡ size a

pub message_field-length :
    (tag : ℕ) (m rest : Bytes) → length m + length rest < length (message_field tag (some m) rest)
unfolding message_field
message_field-length tag m rest =
    let outer = length-append (varint (length m)) (m ++ rest) in
    let inner = length-append m rest in omega (arith, outer, inner)

-- The bytes, if there are fewer than 2^63, are as many as counted.
abbrev pub IsSized : Bytes → ℕ → Type 0
IsSized bs n = length bs < 2 ^ 63 → length bs ≡ n

pub end-IsSized : IsSized [] 0
end-IsSized small = refl

pub uint-IsSized :
    (tag v : ℕ) (rest : Bytes) (n : ℕ)
    → IsU64 v
    → IsSized rest n
    → IsSized (uint_field tag v rest) (uint_size v + n)
uint-IsSized tag v rest n range next small =
    let within = uint_field-length tag v rest in
    omega (arith, length-uint_field tag v rest range, next (omega (arith, within, small)))

pub bytes-IsSized :
    (tag : ℕ) (b rest : Bytes) (n : ℕ)
    → IsSized rest n
    → IsSized (bytes_field tag b rest) (bytes_size (length b) + n)
bytes-IsSized tag b rest n next small =
    let within = bytes_field-length tag b rest in
    let part = bytes_field-within tag b rest in
    omega (
      arith,
      length-bytes_field tag b rest (omega (arith, part, small)),
      next (omega (arith, within, small)),
    )

pub embedded-IsSized :
    {A : Type 0} (tag : ℕ) (a : A) (write : A → Bytes) (size : A → ℕ) (rest : Bytes) (n : ℕ)
    → HasSize write size a
    → IsSized rest n
    → IsSized (message_field tag (some (write a)) rest) (message_size (some (size a)) + n)
embedded-IsSized tag a write size rest n same next small =
    let within = message_field-length tag (write a) rest in
    let here = same (omega (arith, within, small)) in
    let range : IsU64 (length (write a)) = omega (arith, within, small) in
    rw (← here) (
      omega
        (arith, length-message_field tag (write a) rest range, next (omega (arith, within, small))))

pub message-IsSized :
    {A : Type 0} (tag : ℕ) (a : Option A) (write : A → Bytes) (size : A → ℕ) (rest : Bytes) (n : ℕ)
    → OrNil (HasSize write size) a
    → IsSized rest n
    → IsSized (message_field tag (Option.map write a) rest) (message_size (Option.map size a) + n)
unfolding message_field message_size
message-IsSized tag none write size rest n same next = λ small. omega (arith, next small)
message-IsSized tag (some a) write size rest n same next =
    unfold message_field message_size in embedded-IsSized tag a write size rest n same next

pub messages-IsSized :
    {A : Type 0} (tag : ℕ) (xs : List A) (write : A → Bytes) (size : A → ℕ)
    → All (HasSize write size) xs
    → IsSized (messages_field tag write xs []) (messages_size size xs)
unfolding messages_field messages_size
messages-IsSized tag [] write size same = end-IsSized
messages-IsSized tag (x ∷ xs) write size (same, rest) =
    embedded-IsSized tag x write size (messages_field tag write xs []) (messages_size size xs) same
      (messages-IsSized tag xs write size rest)
