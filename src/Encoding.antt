-- ===== src/Encoding.antt =====
-- encoding.go: a uint64 as eight bytes, most significant first. The two calls of
-- encoding/binary (BigEndian.PutUint64, Uint64) are written out; Uint64 panics on a short slice.
use coded_hotterstuff.Prelude.{ℕ, ◌+◌, ◌*◌, ◌/◌, ◌%◌, ◌^◌, ◌≡◌, [], ◌∷◌, arith}
use coded_hotterstuff.Exec.{Outcome, ok, crash, panic}
use coded_hotterstuff.Prelude.Bytes.{Bytes, IsU64}

unfoldable pub encode_uint64 : ℕ → Bytes
encode_uint64 u =
    (u / 2 ^ 56 % 256)
    ∷ (u / 2 ^ 48 % 256)
    ∷ (u / 2 ^ 40 % 256)
    ∷ (u / 2 ^ 32 % 256)
    ∷ (u / 2 ^ 24 % 256)
    ∷ (u / 2 ^ 16 % 256)
    ∷ (u / 2 ^ 8 % 256)
    ∷ (u % 256)
    ∷ []

-- Uint64 panics on fewer than eight bytes; bytes after the eighth are not read.
unfoldable pub decode_uint64 : Bytes → Outcome ℕ
decode_uint64 (a ∷ b ∷ c ∷ d ∷ e ∷ f ∷ g ∷ h ∷ _) =
    ok (a * 2 ^ 56 + b * 2 ^ 48 + c * 2 ^ 40 + d * 2 ^ 32 + e * 2 ^ 24 + f * 2 ^ 16 + g * 2 ^ 8 + h)
decode_uint64 _ = crash panic

-- Decoding what was encoded gives every uint64 back.
pub decode_uint64-encode_uint64 : (u : ℕ) → IsU64 u → decode_uint64 (encode_uint64 u) ≡ ok u
unfolding decode_uint64 encode_uint64
decode_uint64-encode_uint64 u h = ground arith
