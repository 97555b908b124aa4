-- ===== src/Wire/Data.antt =====
-- types/types.pb.go: Marshal, Size and Unmarshal of Transaction and of Data.
pub mod RoundTrip
pub mod Size
use coded_hotterstuff.Prelude.{ℕ, ◌+◌, ◌==◌, if◌then◌else◌, List, [], ◌∷◌, ◌++◌, length, some}
use coded_hotterstuff.Prelude.Bytes.{Bytes}
use coded_hotterstuff.Types.{Transaction, Data}
use coded_hotterstuff.Wire.Varint.{Result, ok, ◌>>=◌}
use coded_hotterstuff.Wire.Fields.{
  messages_field, messages_size, uint_field, bytes_field, message_field, uint_size, bytes_size,
  message_size, read_uint_field, read_bytes_field, skip_field, unmarshal,
}

unfoldable pub marshal_transaction : Transaction → Bytes
marshal_transaction t =
    bytes_field 0x0a t.account
      (uint_field 0x10 t.nonce (bytes_field 0x1a t.payload (bytes_field 0x22 t.sig [])))

unfoldable pub size_transaction : Transaction → ℕ
size_transaction t =
    bytes_size (length t.account)
    + uint_size t.nonce
    + bytes_size (length t.payload)
    + bytes_size (length t.sig)

-- &Transaction{}
abbrev pub empty_transaction : Transaction
empty_transaction = record { account = []; nonce = 0; payload = []; sig = [] }

unfoldable pub transaction_field :
    Transaction → ℕ → ℕ → ℕ → Bytes → Bytes → Result (Transaction × Bytes)
transaction_field m l num wt bs from_tag =
    if num == 1
    then (do (b, rest) ← read_bytes_field l wt bs; ok (record m { account = b }, rest))
    else if num == 2
    then (do (v, rest) ← read_uint_field wt bs; ok (record m { nonce = v }, rest))
    else if num == 3
    then (do (b, rest) ← read_bytes_field l wt bs; ok (record m { payload = b }, rest))
    else if num == 4
    then (do (b, rest) ← read_bytes_field l wt bs; ok (record m { sig = b }, rest))
    else (do rest ← skip_field l from_tag; ok (m, rest))

unfoldable pub unmarshal_transaction : Bytes → Result Transaction
unfolding transaction_field
unmarshal_transaction bs = unmarshal transaction_field empty_transaction bs

unfoldable pub marshal_data : Data → Bytes
marshal_data d = messages_field 0x0a marshal_transaction d.transactions []

unfoldable pub size_data : Data → ℕ
size_data d = messages_size size_transaction d.transactions

unfoldable pub data_field : Data → ℕ → ℕ → ℕ → Bytes → Bytes → Result (Data × Bytes)
data_field m l num wt bs from_tag =
    if num == 1
    then (do
      (b, rest) ← read_bytes_field l wt bs
      t ← unmarshal_transaction b
      ok (record { transactions = m.transactions ++ t ∷ [] }, rest))
    else (do rest ← skip_field l from_tag; ok (m, rest))

-- &types.Data{}
abbrev pub empty_data : Data
empty_data = record { transactions = [] }

unfoldable pub unmarshal_data : Bytes → Result Data
unfolding data_field
unmarshal_data bs = unmarshal data_field empty_data bs
