-- ===== src/Connection/Meets.antt =====
-- hotstuff-node/tcpNode.go: two nodes at the ends of one connection.
use coded_hotterstuff.Prelude.{
  ℕ, zero, suc, ◌+◌, ◌-◌, ◌/◌, ◌%◌, ◌^◌, ◌≤◌, ◌≡◌, refl, ap, ◌∙◌, true, inl, inr, ltb, Bool-cases,
  List, [], ◌∷◌, ◌++◌, length, get_elem?, All, Option, some, arith,
}
use coded_hotterstuff.Prelude.Bytes.{Bytes, IsU64}
use coded_hotterstuff.Exec.{ok}
use coded_hotterstuff.Framing.{augment, get_message, listen, send_all}
use coded_hotterstuff.Framing.RoundTrip.{IsFrame, get_message-augment, listen-send_all}
use coded_hotterstuff.Program.Text.{digits, itoa}
use coded_hotterstuff.Program.Text.RoundTrip.{atoi-itoa}
use coded_hotterstuff.Connection.{
  Conn, Link, to_byte_array, id_message, read_id, parse_id, exchange_ids, take_channel, linked,
  handle_connection,
}

length-digits : (fuel n : ℕ) (acc : Bytes) → length (digits fuel n acc) ≤ fuel + length acc
unfolding digits
length-digits zero n acc = omega arith
length-digits (suc fuel) n acc = elim (Bool-cases (ltb n 10)) [
  | inl last ↦ rw last (omega arith)
  | inr more ↦ rw more (omega (arith, length-digits fuel (n / 10) ((b'0' + n % 10) ∷ acc)))
]

itoa-IsFrame : (n : ℕ) → IsFrame (itoa n)
unfolding itoa
itoa-IsFrame n = elim (Bool-cases (ltb n (2 ^ 63))) [
  | inl small ↦ rw small (omega (arith, length-digits 20 n []))
  | inr large ↦ rw large (omega (arith, length-digits 20 (2 ^ 64 - n) []))
]

-- Both framings are the same.
to_byte_array-augment : (msg : Bytes) → to_byte_array msg ≡ augment msg
unfolding to_byte_array augment
to_byte_array-augment msg = refl

exchange_ids-id_message :
    (conn : Conn) (id : ℕ) (rest : Bytes)
    → conn.writes ≡ true
    → conn.incoming ≡ id_message id ++ rest
    → IsU64 id
    → exchange_ids conn ≡ ok (some (id, rest))
unfolding exchange_ids parse_id read_id id_message
exchange_ids-id_message conn id rest writes incoming range = rw writes (
    rw incoming (
      ap (λ (m : Bytes). parse_id (get_message (m ++ rest))) (to_byte_array-augment (itoa id))
      ∙ ap parse_id (get_message-augment (itoa id) rest (itoa-IsFrame id))
      ∙ ap (λ (o : Option ℕ). ok (read_id rest o)) (atoi-itoa id range)))

-- At one end of a connection whose other end is node `peer`, which has sent its id and then the
-- messages of its channel: handleConnection sends what it takes from the channel of `peer`, and listenForMessages
-- hands over the messages that were sent, all of them and in order. The peer is one of the nodes, and
-- each message is shorter than 2^32 bytes.
pub handle_connection-listens :
    {A : Type 0} (channels : List A) (conn : Conn) (peer : ℕ) (channel : A) (msgs : List Bytes)
    → conn.writes ≡ true
    → conn.incoming ≡ id_message peer ++ send_all msgs
    → IsU64 peer
    → get_elem? channels peer ≡ some channel
    → All IsFrame msgs
    → (link : Link A) × (handle_connection channels conn ≡ ok (some link))
      × (link.peer ≡ peer)
      × (link.channel ≡ channel)
      × (listen (length link.reader) link.reader ≡ ok msgs)
unfolding handle_connection linked take_channel
handle_connection-listens channels conn peer channel msgs writes incoming range there frames = (
  record { peer = peer; channel = channel; reader = send_all msgs },
  ap (linked channels) (exchange_ids-id_message conn peer (send_all msgs) writes incoming range)
      ∙ rw there refl,
  refl,
  refl,
  listen-send_all msgs (length (send_all msgs)) frames (omega arith),
)
