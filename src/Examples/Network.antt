-- ===== src/Examples/Network.antt =====
-- The theorems about messages on a connection at concrete inputs.
use coded_hotterstuff.Wire.Fields.{message_field, bytes_field, uint_field}
use coded_hotterstuff.Wire.Signature.{pack_voters, marshal_signature}
use coded_hotterstuff.Wire.Vote.{marshal_vote}
use coded_hotterstuff.Wire.Proposal.{marshal_proposal}
use coded_hotterstuff.Wire.Message.Size.{length-marshal_message}
use coded_hotterstuff.Wire.Certificate.{marshal_certificate}
use coded_hotterstuff.Framing.{put_uint32, augment, send_all}
use coded_hotterstuff.Wire.Header.{marshal_header}
use coded_hotterstuff.Wire.Message.{size_message, marshal_message, unmarshal_message}
use coded_hotterstuff.Connection.Messages.{
  listen_messages-send_messages, send_messages, listen_messages,
}
use coded_hotterstuff.Prelude.{◌≤◌, ◌^◌, [], ◌<◌, ◌≡◌, none, ◌∷◌, arith, length, some}
use coded_hotterstuff.Wire.Message.RoundTrip.{unmarshal_message-marshal_message, IsEncodable, Holds}
use coded_hotterstuff.Types.{Certificate, Header, Message, proposal, vote}
use coded_hotterstuff.Wire.Varint.{varint_loop, varint, ok}
use coded_hotterstuff.Exec as Exec

-- Everything that Marshal and Size are made of.
unfoldable all_marshals : Unit {0}
unfolding marshal_message size_message marshal_proposal marshal_vote marshal_header
    marshal_certificate marshal_signature pack_voters uint_field bytes_field message_field varint
    varint_loop
all_marshals = tt

abbrev a_header : Header
a_header = record {
  view = 300;
  parent = 1 ∷ 2 ∷ [];
  parent_view = 299;
  data_root = 7 ∷ [];
  state_root = [];
}

abbrev a_cert : Certificate
a_cert = record {
  block = 1 ∷ 2 ∷ [];
  sig = some (record { voters = 0 ∷ 200 ∷ []; sig = some (9 ∷ []) });
}

abbrev a_proposal : Message
a_proposal = proposal (record {
  header = some a_header;
  payload = none;
  sig = 5 ∷ [];
  parent_cert = some a_cert;
  timeout = none;
})

abbrev a_vote : Message
a_vote = vote (record { block = 1 ∷ 2 ∷ []; view = 300; voter = 3; sig = 8 ∷ [] })

a_header_size : length (marshal_header a_header) < 2 ^ 63
unfolding all_marshals
a_header_size = omega arith

a_cert_size : length (marshal_certificate a_cert) < 2 ^ 63
unfolding all_marshals
a_cert_size = omega arith

a_proposal_short : length (marshal_message a_proposal) < 2 ^ 32
unfolding all_marshals
a_proposal_short = omega arith

a_proposal-Holds : Holds a_proposal
unfolding all_marshals
a_proposal-Holds = record {
  header = record { view = omega arith; parent_view = omega arith; size = a_header_size };
  payload = tt;
  parent_cert = record {
    sig = record { voters = (omega arith, (omega arith, tt)); sig = λ p. cc };
    size = a_cert_size;
  };
  timeout = tt;
  size = omega arith;
}

a_proposal-IsEncodable : IsEncodable a_proposal
a_proposal-IsEncodable = record { holds = a_proposal-Holds; size = omega (arith, a_proposal_short) }

a_vote-IsEncodable : IsEncodable a_vote
unfolding all_marshals
a_vote-IsEncodable = record {
  holds = record { view = omega arith; voter = omega arith; size = omega arith };
  size = omega arith;
}

a_vote_short : length (marshal_message a_vote) < 2 ^ 32
unfolding all_marshals
a_vote_short = omega arith

unmarshal_message-marshal_message_example :
    unmarshal_message (marshal_message a_proposal) ≡ ok a_proposal
unmarshal_message-marshal_message_example =
    unmarshal_message-marshal_message a_proposal a_proposal-IsEncodable

length-marshal_message_example : length (marshal_message a_proposal) ≡ size_message a_proposal
length-marshal_message_example = length-marshal_message a_proposal a_proposal-IsEncodable

sent_size : length (send_messages (a_vote ∷ a_proposal ∷ [])) ≤ 100
unfolding send_messages send_all augment put_uint32 all_marshals
sent_size = omega arith

listen_messages-send_messages_example :
    listen_messages 100 (send_messages (a_vote ∷ a_proposal ∷ []))
    ≡ Exec.ok (a_vote ∷ a_proposal ∷ [])
listen_messages-send_messages_example =
    listen_messages-send_messages (a_vote ∷ a_proposal ∷ []) 100
      (
        record { encodable = a_vote-IsEncodable; short = a_vote_short },
        (record { encodable = a_proposal-IsEncodable; short = a_proposal_short }, tt),
      )
      sent_size
