-- ===== src/FirstTransport/Greets.antt =====
-- node/: a greeting that goes over a connection.
use coded_hotterstuff.Prelude.{
  ℕ, zero, suc, ◌≡◌, refl, sym, ap, ◌∙◌, Bool, true, false, if◌then◌else◌, [], ◌∷◌, ◌++◌,
  append-nil, Option, none, some,
}
use coded_hotterstuff.Prelude.Bytes.{Bytes}
use coded_hotterstuff.Exec.{Outcome, ok, crash}
use coded_hotterstuff.Framing.{
  augment, get_msg_length, read_full, read_body, read_rest, get_message,
}
use coded_hotterstuff.Framing.RoundTrip.{IsFrame, get_message-augment}
use coded_hotterstuff.FirstTransport.{
  string_to_byte_array, string_length, string_body, string_rest, get_string, printed,
  listen_strings, written,
}

-- The two copies of the framing agree.
string_length-get_msg_length : (b : Bytes) → string_length b ≡ get_msg_length b
unfolding string_length get_msg_length
string_length-get_msg_length [] = refl
string_length-get_msg_length (a ∷ []) = refl
string_length-get_msg_length (a ∷ b ∷ []) = refl
string_length-get_msg_length (a ∷ b ∷ c ∷ []) = refl
string_length-get_msg_length (a ∷ b ∷ c ∷ d ∷ _) = refl

string_body-read_body : (o : Outcome ℕ) (reader : Bytes) → string_body o reader ≡ read_body o reader
unfolding string_body read_body
string_body-read_body (crash r) reader = refl
string_body-read_body (ok n) reader = go (read_full n reader)
  where
    go :
        (o : Option (Bytes × Bytes))
        → (elim o [ none ↦ ok none | some (buf, rest) ↦ ok (some (buf, rest)) ]) ≡ ok o
    go none = refl
    go (some (buf, rest)) = refl

string_rest-read_rest : (o : Option (Bytes × Bytes)) → string_rest o ≡ read_rest o
unfolding string_rest read_rest
string_rest-read_rest none = refl
string_rest-read_rest (some (buf, rest)) =
    ap (λ (n : Outcome ℕ). string_body n rest) (string_length-get_msg_length buf)
    ∙ string_body-read_body (get_msg_length buf) rest

-- On every input, getMessageFromReader of the string transport and of hotstuff-node give the same
-- message, or both an error, or both a panic.
get_string-get_message : (reader : Bytes) → get_string reader ≡ get_message reader
unfolding get_string get_message
get_string-get_message reader = string_rest-read_rest (read_full 4 reader)

listen_none : (fuel : ℕ) → listen_strings fuel [] ≡ ok []
unfolding listen_strings get_string read_full string_rest
listen_none zero = refl
listen_none (suc fuel) = refl

framed : (msg : Bytes) → string_to_byte_array msg ≡ augment msg ++ []
unfolding string_to_byte_array augment
framed msg = sym (append-nil (augment msg))

listen_one :
    (fuel : ℕ) (reader msg rest : Bytes)
    → get_string reader ≡ ok (some (msg, rest))
    → listen_strings (suc fuel) reader ≡ printed msg (listen_strings fuel rest)
unfolding listen_strings
listen_one fuel reader msg rest h =
    ap
      (λ (o : Outcome (Option (Bytes × Bytes))). elim o [
        | crash r ↦ crash r
        | ok none ↦ ok []
        | ok (some (msg, rest)) ↦ printed msg (listen_strings fuel rest)
      ])
      h

-- A node that dials or is dialled prints what the other end wrote: its message, once, if it was to
-- send one, and nothing else.
pub listen_strings-written :
    (send_msg : Bool) (msg : Bytes) (fuel : ℕ)
    → IsFrame msg
    → listen_strings (suc fuel) (written send_msg msg) ≡ ok (if send_msg then msg ∷ [] else [])
unfolding written
listen_strings-written false msg fuel h = listen_none (suc fuel)
listen_strings-written true msg fuel h =
    listen_one fuel (string_to_byte_array msg) msg [] (
      get_string-get_message (string_to_byte_array msg)
      ∙ ap get_message (framed msg)
      ∙ get_message-augment msg [] h)
    ∙ ap (printed msg) (listen_none fuel)
