-- ===== src/Connection.antt =====
-- hotstuff-node/tcpNode.go: how a connection is set up. A connection is given by the bytes that come
-- in on it and by whether a write to it succeeds; what dialling and accepting give is a parameter.
pub mod Meets
pub mod Messages
use coded_hotterstuff.Prelude.{
  ℕ, ◌%◌, ◌^◌, Bool, true, false, List, [], ◌∷◌, ◌++◌, length, get_elem?, Option, none, some,
}
use coded_hotterstuff.Prelude.Bytes.{Bytes}
use coded_hotterstuff.Exec.{Outcome, ok, crash, panic, fatal}
use coded_hotterstuff.Framing.{put_uint32, get_message}
use coded_hotterstuff.Program.Text.{itoa, atoi}

-- A connection from outside: `incoming` is what its reader gives, and `writes` that writing succeeds.
pub record Conn : Type 0 where
  pub incoming : Bytes
  pub writes : Bool

-- A connection that handleConnection goes on with: the node at its other end, whose channel its
-- sendMessages takes from, and what its listenForMessages reads.
pub record Link (A : Type 0) : Type 0 where
  pub peer : ℕ
  pub channel : A
  pub reader : Bytes

-- toByteArray
unfoldable pub to_byte_array : Bytes → Bytes
unfolding put_uint32
to_byte_array msg = put_uint32 (length msg % 2 ^ 32) ++ msg

-- What exchangeIDs writes.
unfoldable pub id_message : ℕ → Bytes
unfolding to_byte_array itoa
id_message my_id = to_byte_array (itoa my_id)

read_id : Bytes → Option ℕ → Option (ℕ × Bytes)
read_id rest none = none
read_id rest (some id) = some (id, rest)

parse_id : Outcome (Option (Bytes × Bytes)) → Outcome (Option (ℕ × Bytes))
unfolding read_id atoi
parse_id (crash r) = crash r
parse_id (ok none) = ok none
parse_id (ok (some (msg, rest))) = ok (read_id rest (atoi msg))

-- exchangeIDs, after its write: the other's id and the reader behind it, or an error.
unfoldable pub exchange_ids : Conn → Outcome (Option (ℕ × Bytes))
unfolding parse_id get_message
exchange_ids conn = elim conn.writes [
  | false ↦ ok none
  | true ↦ parse_id (get_message conn.incoming)
]

-- `arrayOfChannels[yourID]`
take_channel : {A : Type 0} → ℕ → Bytes → Option A → Outcome (Option (Link A))
take_channel peer rest none = crash panic
take_channel peer rest (some channel) =
    ok (some (record { peer = peer; channel = channel; reader = rest }))

linked : {A : Type 0} → List A → Outcome (Option (ℕ × Bytes)) → Outcome (Option (Link A))
unfolding take_channel
linked channels (crash r) = crash r
linked channels (ok none) = ok none
linked channels (ok (some (peer, rest))) = take_channel peer rest (get_elem? channels peer)

-- handleConnection, up to its two goroutines; `none` if it closes the connection at once.
unfoldable pub handle_connection : {A : Type 0} → List A → Conn → Outcome (Option (Link A))
unfolding linked exchange_ids
handle_connection channels conn = linked channels (exchange_ids conn)

-- The loop of acceptConnections: what it hands to handleConnection. A connection that failed is
-- handed over too, and its nil is written to.
unfoldable pub accept_connections : List (Option Conn) → Outcome (List Conn)
accept_connections [] = ok []
accept_connections (none ∷ rest) = crash panic
accept_connections (some conn ∷ rest) = elim (accept_connections rest) [
  | crash r ↦ crash r
  | ok conns ↦ ok (conn ∷ conns)
]

-- listenForConnections: net.Listen, whose error is fatal.
unfoldable pub listen_for_connections : Bool → List (Option Conn) → Outcome (List Conn)
unfolding accept_connections
listen_for_connections false accepted = crash fatal
listen_for_connections true accepted = accept_connections accepted

-- The loop of initiateConnection: it dials until a connection stands, and then waits for good for a
-- WaitGroup that nobody calls Done on. `none` if no connection stands yet.
unfoldable pub initiate_connection : List (Option Conn) → Option Conn
initiate_connection [] = none
initiate_connection (none ∷ rest) = initiate_connection rest
initiate_connection (some conn ∷ rest) = some conn
