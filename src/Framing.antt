-- ===== src/Framing.antt =====
-- hotstuff-node/bytes_encoding.go, and the loops of hotstuff-node/tcpNode.go: messages on a
-- connection, each behind its length. A reader is the list of bytes that are still to come before the
-- connection ends.
pub mod RoundTrip
use coded_hotterstuff.Prelude.{
  ℕ, zero, suc, ◌+◌, ◌*◌, ◌/◌, ◌%◌, ◌^◌, Bool, true, false, if◌then◌else◌, ltb, List, [], ◌∷◌, ◌++◌,
  length, take, drop, Option, none, some,
}
use coded_hotterstuff.Prelude.Bytes.{Bytes}
use coded_hotterstuff.Exec.{Outcome, ok, crash, panic}

-- BYTES_ARRAY_PREFIX_LENGTH
abbrev pub prefix_length : ℕ
prefix_length = 4

-- binary.BigEndian.PutUint32 of `uint32(length)`: the length wraps.
unfoldable pub put_uint32 : ℕ → Bytes
put_uint32 u = (u / 2 ^ 24 % 256) ∷ (u / 2 ^ 16 % 256) ∷ (u / 2 ^ 8 % 256) ∷ (u % 256) ∷ []

-- augmentByteArrayWithLength, and toByteArray on the bytes of its string.
unfoldable pub augment : Bytes → Bytes
unfolding put_uint32
augment msg = put_uint32 (length msg % 2 ^ 32) ++ msg

-- getMsgLength: Uint32 panics on fewer than four bytes.
unfoldable pub get_msg_length : Bytes → Outcome ℕ
get_msg_length (a ∷ b ∷ c ∷ d ∷ _) = ok (a * 2 ^ 24 + b * 2 ^ 16 + c * 2 ^ 8 + d)
get_msg_length _ = crash panic

-- io.ReadFull: as many bytes as the buffer has, or an error.
unfoldable pub read_full : ℕ → Bytes → Option (Bytes × Bytes)
read_full n reader = if ltb (length reader) n then none else some (take n reader, drop n reader)

unfoldable pub read_body : Outcome ℕ → Bytes → Outcome (Option (Bytes × Bytes))
read_body (crash r) reader = crash r
read_body (ok n) reader = ok (read_full n reader)

unfoldable pub read_rest : Option (Bytes × Bytes) → Outcome (Option (Bytes × Bytes))
unfolding read_body
read_rest none = ok none
read_rest (some (buf, rest)) = read_body (get_msg_length buf) rest

-- getMessageFromReader: a message and the reader behind it, or an error.
unfoldable pub get_message : Bytes → Outcome (Option (Bytes × Bytes))
unfolding read_rest
get_message reader = read_rest (read_full prefix_length reader)

-- `inMsgsChan <- msg`, before what the loop goes on to hand over.
abbrev pub handed : Bytes → Outcome (List Bytes) → Outcome (List Bytes)
handed msg (ok msgs) = ok (msg ∷ msgs)
handed msg (crash r) = crash r

-- The loop of listenForMessages, up to the read that fails: what is handed to Unmarshal. Each
-- message takes four bytes at least, so as many rounds as there are bytes are enough.
unfoldable pub listen : ℕ → Bytes → Outcome (List Bytes)
listen zero reader = ok []
listen (suc fuel) reader = elim (get_message reader) [
  | crash r ↦ crash r
  | ok none ↦ ok []
  | ok (some (msg, rest)) ↦ handed msg (listen fuel rest)
]

-- What sendMessages writes for the messages that it takes from its channel.
unfoldable pub send_all : List Bytes → Bytes
unfolding augment
send_all [] = []
send_all (msg ∷ msgs) = augment msg ++ send_all msgs
