-- ===== src/Framing/RoundTrip.antt =====
-- hotstuff-node/bytes_encoding.go: what is sent, and what is received.
use coded_hotterstuff.Prelude.{
  ℕ, zero, suc, ◌<◌, ◌≤◌, ◌%◌, ◌^◌, ◌≡◌, refl, ap, ◌∙◌, List, [], ◌∷◌, ◌++◌, append_assoc, length,
  length-append, take-append, drop-append, All, Option, none, some, arith,
}
use coded_hotterstuff.Prelude.Bytes.{Bytes}
use coded_hotterstuff.Exec.{Outcome, ok, crash}
use coded_hotterstuff.Framing.{
  handed, put_uint32, augment, get_msg_length, read_full, read_body, read_rest, get_message, listen,
  send_all,
}

-- A length that fits the prefix.
abbrev pub IsFrame : Bytes → Type 0
IsFrame msg = length msg < 2 ^ 32

get_msg_length-put_uint32 : (u : ℕ) → u < 2 ^ 32 → get_msg_length (put_uint32 u) ≡ ok u
unfolding get_msg_length put_uint32
get_msg_length-put_uint32 u h = ground arith

read_full-append : (b rest : Bytes) → read_full (length b) (b ++ rest) ≡ some (b, rest)
unfolding read_full
read_full-append b rest =
    let long = length-append b rest in
    rw (take-append b rest) (rw (drop-append b rest) (ground (arith, long)))

-- A message shorter than 2^32 bytes is read from the reader as it was sent, and the reader stands
-- behind it.
pub get_message-augment :
    (msg rest : Bytes) → IsFrame msg → get_message (augment msg ++ rest) ≡ ok (some (msg, rest))
unfolding get_message augment read_rest read_body
get_message-augment msg rest h =
    let whole : length msg % 2 ^ 32 ≡ length msg = omega arith in
    rw whole (
      rw (append_assoc (put_uint32 (length msg)) msg rest) (
        ap read_rest (read_full-append (put_uint32 (length msg)) (msg ++ rest))
        ∙ ap (λ (n : Outcome ℕ). read_body n (msg ++ rest))
            (get_msg_length-put_uint32 (length msg) h)
        ∙ ap (λ (o : Option (Bytes × Bytes)). ok o) (read_full-append msg rest)))

listen_step :
    (fuel : ℕ) (reader msg rest : Bytes)
    → get_message reader ≡ ok (some (msg, rest))
    → listen (suc fuel) reader ≡ handed msg (listen fuel rest)
unfolding listen
listen_step fuel reader msg rest h =
    ap
      (λ (o : Outcome (Option (Bytes × Bytes))). elim o [
        | crash r ↦ crash r
        | ok none ↦ ok []
        | ok (some (msg, rest)) ↦ handed msg (listen fuel rest)
      ])
      h

send_all-longer :
    (msg : Bytes) (msgs : List Bytes) → length (send_all msgs) < length (send_all (msg ∷ msgs))
unfolding send_all augment put_uint32
send_all-longer msg msgs = omega (arith, length-append msg (send_all msgs))

listen_first :
    (msg : Bytes) (msgs : List Bytes) (fuel : ℕ)
    → IsFrame msg
    → listen (suc fuel) (send_all (msg ∷ msgs)) ≡ handed msg (listen fuel (send_all msgs))
unfolding send_all
listen_first msg msgs fuel h =
    listen_step fuel (augment msg ++ send_all msgs) msg (send_all msgs)
      (get_message-augment msg (send_all msgs) h)

-- A receiver gets the messages that were sent on its connection, all of them and in their order,
-- if each is shorter than 2^32 bytes, and it makes no more than one round for each byte.
pub listen-send_all :
    (msgs : List Bytes) (fuel : ℕ)
    → All IsFrame msgs
    → length (send_all msgs) ≤ fuel
    → listen fuel (send_all msgs) ≡ ok msgs
listen-send_all [] zero h within = unfold listen in refl
listen-send_all [] (suc fuel) h within =
    unfold listen send_all get_message read_full read_rest in refl
listen-send_all (msg ∷ msgs) zero h within = absurd (omega (arith, send_all-longer msg msgs))
listen-send_all (msg ∷ msgs) (suc fuel) (hm, hs) within =
    listen_first msg msgs fuel hm
    ∙ ap (handed msg) (listen-send_all msgs fuel hs (omega (arith, send_all-longer msg msgs)))
