-- ===== src/FirstTransport.antt =====
-- node/: an earlier transport, of strings, with its own copy of the framing. Each node dials the nodes
-- before it, and on every connection it sends one greeting, or none.
pub mod Greets
use coded_hotterstuff.Prelude.{
  ℕ, zero, suc, ◌+◌, ◌*◌, ◌/◌, ◌%◌, ◌^◌, Bool, true, false, not, ◌&&◌, ltb, if◌then◌else◌, List, [],
  ◌∷◌, ◌++◌, length, take, drop, get_elem?, Option, none, some,
}
use coded_hotterstuff.Prelude.Bytes.{Bytes, bytes_eq}
use coded_hotterstuff.Exec.{Outcome, ok, crash, panic, fatal}
use coded_hotterstuff.Framing.{put_uint32, read_full}
use coded_hotterstuff.Program.{first}
use coded_hotterstuff.Program.Text.{itoa}

-- BYTES_ARRAY_PREFIX_LENGTH, and DEFAULT_ADDRESS_NUMBER and NUMBER_OF_NODES of node/main.go.
abbrev pub string_prefix_length : ℕ
string_prefix_length = 4

abbrev pub first_address_number : ℕ
first_address_number = 8000

abbrev pub first_number_of_nodes : ℕ
first_number_of_nodes = 4

-- toByteArray
unfoldable pub string_to_byte_array : Bytes → Bytes
unfolding put_uint32
string_to_byte_array msg = put_uint32 (length msg % 2 ^ 32) ++ msg

-- getMsgLength
unfoldable pub string_length : Bytes → Outcome ℕ
string_length (a ∷ b ∷ c ∷ d ∷ _) = ok (a * 2 ^ 24 + b * 2 ^ 16 + c * 2 ^ 8 + d)
string_length _ = crash panic

-- toString: the bytes of the string are those of the slice.
abbrev pub to_string : Bytes → Bytes
to_string b = b

string_body : Outcome ℕ → Bytes → Outcome (Option (Bytes × Bytes))
unfolding read_full
string_body (crash r) reader = crash r
string_body (ok n) reader = elim (read_full n reader) [
  | none ↦ ok none
  | some (buf, rest) ↦ ok (some (to_string buf, rest))
]

string_rest : Option (Bytes × Bytes) → Outcome (Option (Bytes × Bytes))
unfolding string_body
string_rest none = ok none
string_rest (some (buf, rest)) = string_body (string_length buf) rest

-- getMessageFromReader
unfoldable pub get_string : Bytes → Outcome (Option (Bytes × Bytes))
unfolding string_rest
get_string reader = string_rest (read_full string_prefix_length reader)

-- The strings that the loop of listenForMessages prints, up to the read that fails; one round for
-- each byte is enough.
abbrev pub printed : Bytes → Outcome (List Bytes) → Outcome (List Bytes)
printed msg (ok msgs) = ok (msg ∷ msgs)
printed msg (crash r) = crash r

unfoldable pub listen_strings : ℕ → Bytes → Outcome (List Bytes)
listen_strings zero reader = ok []
listen_strings (suc fuel) reader = elim (get_string reader) [
  | crash r ↦ crash r
  | ok none ↦ ok []
  | ok (some (msg, rest)) ↦ printed msg (listen_strings fuel rest)
]

-- handleConnection: what it writes to the connection, in its call of sendMessages.
unfoldable pub written : Bool → Bytes → Bytes
unfolding string_to_byte_array
written send_msg msg = if send_msg then string_to_byte_array msg else []

-- acceptConnections: a connection that failed is handled too, and its nil is read from.
unfoldable pub accept_all : {A : Type 0} → List (Option A) → Outcome (List A)
accept_all [] = ok []
accept_all (none ∷ rest) = crash panic
accept_all (some conn ∷ rest) = elim (accept_all rest) [
  | crash r ↦ crash r
  | ok conns ↦ ok (conn ∷ conns)
]

-- listenForConnections
unfoldable pub listen_at : {A : Type 0} → Bool → List (Option A) → Outcome (List A)
unfolding accept_all
listen_at false accepted = crash fatal
listen_at true accepted = accept_all accepted

-- initiateConnection: the first dial that fails ends it, and one that stands is waited for for good.
unfoldable pub initiate : {A : Type 0} → Option A → Option A
initiate none = none
initiate (some conn) = some conn

-- getAddressList
ports_from : ℕ → ℕ → List Bytes
ports_from i zero = []
ports_from i (suc n) = (b':' ∷ itoa (first_address_number + i)) ∷ ports_from (suc i) n

unfoldable pub first_addresses : List Bytes
unfolding ports_from
first_addresses = ports_from 0 first_number_of_nodes

-- "listen" and "initiate"
abbrev pub listen_mode : Bytes
listen_mode = b'l' ∷ b'i' ∷ b's' ∷ b't' ∷ b'e' ∷ b'n' ∷ []

abbrev pub initiate_mode : Bytes
initiate_mode = b'i' ∷ b'n' ∷ b'i' ∷ b't' ∷ b'i' ∷ b'a' ∷ b't' ∷ b'e' ∷ []

unfoldable pub check_flags : Bytes → Outcome (Unit {0})
check_flags mode =
    if not (bytes_eq mode listen_mode) && not (bytes_eq mode initiate_mode)
    then crash panic
    else ok tt

-- "hello from node "
abbrev pub hello : Bytes
hello =
    b'h' ∷ b'e' ∷ b'l' ∷ b'l' ∷ b'o' ∷ b' ' ∷ b'f' ∷ b'r' ∷ b'o' ∷ b'm' ∷ b' ' ∷ b'n' ∷ b'o' ∷ b'd'
    ∷ b'e' ∷ b' ' ∷ []

-- main: the greeting, the address to listen at, and those to dial; an index that is not one of the
-- nodes' panics.
unfoldable pub greeting : ℕ → Bytes
unfolding itoa
greeting index = hello ++ itoa index

plan : Option Bytes → List Bytes → Outcome (Bytes × List Bytes)
plan none dialled = crash panic
plan (some address) dialled = ok (address, dialled)

checked : Outcome (Unit {0}) → Outcome (Bytes × List Bytes) → Outcome (Bytes × List Bytes)
checked (ok _) o = o
checked (crash r) o = crash r

unfoldable pub first_main : Bytes → ℕ → Outcome (Bytes × List Bytes)
unfolding check_flags plan checked
first_main mode index =
    checked (check_flags mode)
      (plan (get_elem? first_addresses index) (first index first_addresses))
