-- ===== src/Examples/Codecs.antt =====
-- The theorems about encodings at concrete inputs.
use coded_hotterstuff.Wire.Certificate.Yields.{unmarshal_certificate-Yields, CertVoters}
use coded_hotterstuff.Wire.Header.Yields.{unmarshal_header-Yields, HasViews}
use coded_hotterstuff.Wire.Fields.Yields.{Yields}
use coded_hotterstuff.FirstTransport.Greets.{listen_strings-written}
use coded_hotterstuff.FirstTransport.{written, greeting, listen_strings}
use coded_hotterstuff.Connection.Meets.{handle_connection-listens}
use coded_hotterstuff.Program.Text.{digits, itoa}
use coded_hotterstuff.Connection.{handle_connection, id_message, Link, Conn}
use coded_hotterstuff.Wire.Varint.RoundTrip.{read_varint-varint}
use coded_hotterstuff.Wire.Header.Size.{length-marshal_header}
use coded_hotterstuff.Wire.Data.RoundTrip.{unmarshal_data-marshal_data}
use coded_hotterstuff.Wire.Data.{marshal_transaction, marshal_data, unmarshal_data}
use coded_hotterstuff.Wire.Varint.{read_varint, varint}
use coded_hotterstuff.Framing.RoundTrip.{IsFrame, listen-send_all}
use coded_hotterstuff.Wire.Certificate.RoundTrip.{unmarshal_certificate-marshal_certificate}
use coded_hotterstuff.Wire.Header.RoundTrip.{unmarshal_header-marshal_header}
use coded_hotterstuff.Wire.Fields.{messages_field, message_field, bytes_field, uint_field}
use coded_hotterstuff.Wire.Signature.{pack_voters, marshal_signature}
use coded_hotterstuff.Exec.{ok}
use coded_hotterstuff.Wire.Header.{size_header, marshal_header, unmarshal_header}
use coded_hotterstuff.Prelude.Bytes.{Bytes}
use coded_hotterstuff.Framing.{listen, send_all}
use coded_hotterstuff.Wire.Certificate.{marshal_certificate, unmarshal_certificate}
use coded_hotterstuff.Types.{Data, Certificate, Header}
use coded_hotterstuff.Encoding.{decode_uint64-encode_uint64, encode_uint64, decode_uint64}
use coded_hotterstuff.Wire.Header.RoundTrip as HeaderRoundTrip
use coded_hotterstuff.Wire.Certificate.RoundTrip as CertificateRoundTrip
use coded_hotterstuff.Wire.Varint.{Result}
use coded_hotterstuff.Wire.Data.RoundTrip as DataRoundTrip
use coded_hotterstuff.Prelude.{
  get_elem?, true, ◌++◌, ◌<◌, ◌≡◌, List, [], ◌∷◌, length, some, arith, ◌^◌,
}

decode_uint64-encode_uint64_example : decode_uint64 (encode_uint64 258) ≡ ok 258
decode_uint64-encode_uint64_example = decode_uint64-encode_uint64 258 (omega arith)

abbrev block : Header
block = record {
  view = 300;
  parent = 1 ∷ 2 ∷ [];
  parent_view = 0;
  data_root = 7 ∷ [];
  state_root = [];
}

block_size : length (marshal_header block) < 2 ^ 63
unfolding marshal_header uint_field bytes_field varint
block_size = omega arith

block-IsEncodable : HeaderRoundTrip.IsEncodable block
block-IsEncodable = record { view = omega arith; parent_view = omega arith; size = block_size }

unmarshal_header-marshal_header_example : unmarshal_header (marshal_header block) ≡ Result.ok block
unmarshal_header-marshal_header_example = unmarshal_header-marshal_header block block-IsEncodable

abbrev signed : Certificate
signed = record {
  block = 1 ∷ 2 ∷ [];
  sig = some (record { voters = 0 ∷ 300 ∷ []; sig = some (9 ∷ []) });
}

signed_size : length (marshal_certificate signed) < 2 ^ 63
unfolding marshal_certificate marshal_signature pack_voters message_field bytes_field varint
signed_size = omega arith

signed-IsEncodable : CertificateRoundTrip.IsEncodable signed
signed-IsEncodable = record {
  sig = record { voters = (omega arith, (omega arith, tt)); sig = λ p. cc };
  size = signed_size;
}

unmarshal_certificate-marshal_certificate_example :
    unmarshal_certificate (marshal_certificate signed) ≡ Result.ok signed
unmarshal_certificate-marshal_certificate_example =
    unmarshal_certificate-marshal_certificate signed signed-IsEncodable

length-marshal_header_example : length (marshal_header block) ≡ size_header block
length-marshal_header_example = length-marshal_header block block-IsEncodable

abbrev payment : Data
payment = record {
  transactions =
      record { account = 1 ∷ []; nonce = 2 ^ 40; payload = []; sig = 9 ∷ 9 ∷ [] }
      ∷ record { account = []; nonce = 0; payload = 5 ∷ []; sig = [] }
      ∷ [];
}

payment_size : length (marshal_data payment) < 2 ^ 63
unfolding marshal_data messages_field marshal_transaction message_field uint_field bytes_field
    varint
payment_size = omega arith

payment-IsEncodable : DataRoundTrip.IsEncodable payment
payment-IsEncodable = record { nonces = (omega arith, (omega arith, tt)); size = payment_size }

unmarshal_data-marshal_data_example : unmarshal_data (marshal_data payment) ≡ Result.ok payment
unmarshal_data-marshal_data_example = unmarshal_data-marshal_data payment payment-IsEncodable

read_varint-varint_example : read_varint (varint 300 ++ 7 ∷ []) ≡ Result.ok (300, 7 ∷ [])
read_varint-varint_example = read_varint-varint 300 (7 ∷ []) (omega arith)

abbrev frames : List Bytes
frames = (1 ∷ 2 ∷ 3 ∷ []) ∷ [] ∷ (4 ∷ []) ∷ []

listen-send_all_example : listen 20 (send_all frames) ≡ ok frames
unfolding send_all
listen-send_all_example =
    listen-send_all frames 20 (omega arith, (omega arith, (omega arith, tt))) (omega arith)

-- The contents of `block` are bytes.
abbrev four_channels : List (List Bytes)
four_channels = [] ∷ ((1 ∷ []) ∷ []) ∷ ((2 ∷ []) ∷ []) ∷ ((3 ∷ []) ∷ []) ∷ []

-- Node 3 has sent its id, and the three frames.
abbrev from_three : Conn
from_three = record { incoming = id_message 3 ++ send_all frames; writes = true }

three_writes : from_three.writes ≡ true
three_writes = λ i. true

three_sent : from_three.incoming ≡ id_message 3 ++ send_all frames
three_sent = λ i. from_three.incoming

channel_of_three : get_elem? four_channels 3 ≡ some ((3 ∷ []) ∷ [])
channel_of_three = λ i. some ((3 ∷ []) ∷ [])

handle_connection-listens_example :
    (link : Link (List Bytes)) × (handle_connection four_channels from_three ≡ ok (some link))
    × (link.peer ≡ 3)
    × (link.channel ≡ (3 ∷ []) ∷ [])
    × (listen (length link.reader) link.reader ≡ ok frames)
handle_connection-listens_example =
    handle_connection-listens four_channels from_three 3 ((3 ∷ []) ∷ []) frames three_writes
      three_sent (omega arith) channel_of_three (omega arith, (omega arith, (omega arith, tt)))

greeting-IsFrame : IsFrame (greeting 2)
unfolding greeting itoa digits
greeting-IsFrame = omega arith

listen_strings-written_example :
    listen_strings 30 (written true (greeting 2)) ≡ ok (greeting 2 ∷ [])
listen_strings-written_example = listen_strings-written true (greeting 2) 29 greeting-IsFrame

-- A tag of field 1 without a value.
unmarshal_header-Yields_example : Yields HasViews (unmarshal_header (8 ∷ []))
unmarshal_header-Yields_example = unmarshal_header-Yields (8 ∷ [])

unmarshal_certificate-Yields_example :
    Yields CertVoters (unmarshal_certificate (18 ∷ 2 ∷ 8 ∷ 7 ∷ []))
unmarshal_certificate-Yields_example = unmarshal_certificate-Yields (18 ∷ 2 ∷ 8 ∷ 7 ∷ [])
