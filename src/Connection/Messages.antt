-- ===== src/Connection/Messages.antt =====
-- hotstuff-node/tcpNode.go: sendMessages and listenForMessages between two channels of messages.
use coded_hotterstuff.Framing.RoundTrip.{listen-send_all, IsFrame}
use coded_hotterstuff.Framing.{send_all, listen}
use coded_hotterstuff.Wire.Message.{unmarshal_message, oneof_field, marshal_message}
use coded_hotterstuff.Wire.Fields.{unmarshal, read_tag, unmarshal_loop}
use mathlib.Core.List
use coded_hotterstuff.Prelude.{
  refl, zero, [], List, ◌∷◌, ap, suc, ◌^◌, ◌≤◌, ◌≡◌, ◌<◌, length, All, List, ℕ,
}
use coded_hotterstuff.Wire.Message.RoundTrip.{IsEncodable, unmarshal_message-marshal_message}
use coded_hotterstuff.Prelude.Bytes.{Bytes}
use coded_hotterstuff.Wire.Varint.{Result, ok, err, ◌>>=◌}
use coded_hotterstuff.Exec as Exec
use coded_hotterstuff.Types.{Message, empty}

-- One field of Message: its tag, and the switch.
unfoldable pub read_oneof : ℕ → Message → Bytes → Result (Message × Bytes)
read_oneof l m bs = do (num, wt, rest) ← read_tag bs; oneof_field m l num wt rest bs

-- What Unmarshal leaves in the message when it returns, an error or nil. The oneof is assigned when
-- its field has been read to the end.
unfoldable pub oneof_loop : ℕ → ℕ → Message → Bytes → Message
unfolding read_oneof
oneof_loop fuel l m [] = m
oneof_loop zero l m (b ∷ bs) = m
oneof_loop (suc fuel) l m (b ∷ bs) = elim (read_oneof l m (b ∷ bs)) [
  | err why ↦ m
  | ok (m', rest) ↦ oneof_loop fuel l m' rest
]

-- listenForMessages does not look at the error of Unmarshal.
unfoldable pub received_message : Bytes → Message
unfolding oneof_loop
received_message bs = oneof_loop (length bs) (length bs) empty bs

abbrev pub all_received : Exec.Outcome (List Bytes) → Exec.Outcome (List Message)
all_received (Exec.ok frames) = Exec.ok (List.map received_message frames)
all_received (Exec.crash r) = Exec.crash r

-- What listenForMessages puts into the channel of incoming messages, up to the read that fails.
unfoldable pub listen_messages : ℕ → Bytes → Exec.Outcome (List Message)
listen_messages fuel reader = all_received (listen fuel reader)

-- What sendMessages writes for the messages of its channel.
unfoldable pub send_messages : List Message → Bytes
send_messages msgs = send_all (List.map marshal_message msgs)

oneof_loop-unmarshal_loop :
    (fuel l : ℕ) (m r : Message) (bs : Bytes)
    → unmarshal_loop oneof_field fuel l m bs ≡ ok r
    → oneof_loop fuel l m bs ≡ r
unfolding unmarshal_loop oneof_loop
oneof_loop-unmarshal_loop zero l m r [] h = cc
oneof_loop-unmarshal_loop (suc fuel) l m r [] h = cc
oneof_loop-unmarshal_loop zero l m r (b ∷ bs) h = cc
oneof_loop-unmarshal_loop (suc fuel) l m r (b ∷ bs) h =
    unfold read_oneof in
    tagged (read_tag (b ∷ bs)) h λ m' rest. oneof_loop-unmarshal_loop fuel l m' r rest
  where
    fielded :
        (f : Result (Message × Bytes))
        → (f >>= λ p. unmarshal_loop oneof_field fuel l p.0 p.1) ≡ ok r
        → ((m' : Message) (rest : Bytes)
            → unmarshal_loop oneof_field fuel l m' rest ≡ ok r
            → oneof_loop fuel l m' rest ≡ r)
        → elim f [ err why ↦ m | ok (m', rest) ↦ oneof_loop fuel l m' rest ] ≡ r
    fielded (err why) q later = cc
    fielded (ok (m', rest)) q later = later m' rest q

    tagged :
        (t : Result (ℕ × ℕ × Bytes))
        → (t >>= λ t.
            (oneof_field m l t.0 t.1 t.2 (b ∷ bs) >>= λ p.
            unmarshal_loop oneof_field fuel l p.0 p.1))
          ≡ ok r
        → ((m' : Message) (rest : Bytes)
            → unmarshal_loop oneof_field fuel l m' rest ≡ ok r
            → oneof_loop fuel l m' rest ≡ r)
        → elim (t >>= λ t. oneof_field m l t.0 t.1 t.2 (b ∷ bs)) [
          | err why ↦ m
          | ok (m', rest) ↦ oneof_loop fuel l m' rest
        ]
          ≡ r
    tagged (err why) q later = cc
    tagged (ok (num, wt, rest)) q later = fielded (oneof_field m l num wt rest (b ∷ bs)) q later

received_message-marshal_message :
    (m : Message) → IsEncodable m → received_message (marshal_message m) ≡ m
unfolding received_message
received_message-marshal_message m e =
    oneof_loop-unmarshal_loop (length (marshal_message m)) (length (marshal_message m)) empty m
      (marshal_message m)
      (unfold unmarshal_message unmarshal in unmarshal_message-marshal_message m e)

-- A message that can be sent: it can be encoded, and the length fits the prefix.
pub record IsSendable (m : Message) : Type 0 where
  pub encodable : IsEncodable m
  pub short : length (marshal_message m) < 2 ^ 32

frames-IsFrame : (ms : List Message) → All IsSendable ms → All IsFrame (List.map marshal_message ms)
frames-IsFrame [] h = tt
frames-IsFrame (m ∷ ms) (h, hs) = (h.short, frames-IsFrame ms hs)

all_same :
    (ms : List Message)
    → All IsSendable ms
    → List.map received_message (List.map marshal_message ms) ≡ ms
all_same [] h = refl
all_same (m ∷ ms) (h, hs) =
    rw (received_message-marshal_message m h.encodable) (rw (all_same ms hs) refl)

-- What listenForMessages puts into its channel are the messages that sendMessages took from the
-- other end's channel, all of them, unchanged and in their order, if each can be encoded in fewer
-- than 2^32 bytes.
pub listen_messages-send_messages :
    (ms : List Message) (fuel : ℕ)
    → All IsSendable ms
    → length (send_messages ms) ≤ fuel
    → listen_messages fuel (send_messages ms) ≡ Exec.ok ms
unfolding listen_messages send_messages
listen_messages-send_messages ms fuel h enough =
    rw (listen-send_all (List.map marshal_message ms) fuel (frames-IsFrame ms h) enough)
      (ap Exec.ok (all_same ms h))
