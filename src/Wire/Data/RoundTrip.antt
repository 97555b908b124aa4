-- ===== src/Wire/Data/RoundTrip.antt =====
-- types/types.pb.go: Marshal and Unmarshal of Transaction and of Data, one after the other.
use coded_hotterstuff.Wire.Fields.Sized.{message_field-length}
use coded_hotterstuff.Wire.Fields.Written.{
  end_read, uint_read, bytes_read, messages_read, unmarshal_read, ReadsIn, ReadsBack,
}
use coded_hotterstuff.Prelude.{ℕ, ◌<◌, ◌^◌, ◌≡◌, refl, List, [], ◌∷◌, length, All, arith}
use coded_hotterstuff.Prelude.Bytes.{IsU64}
use coded_hotterstuff.Types.{Transaction, Data}
use coded_hotterstuff.Wire.Varint.{ok}
use coded_hotterstuff.Wire.Fields.{messages_field, unmarshal}
use coded_hotterstuff.Wire.Data.{
  empty_data, marshal_transaction, empty_transaction, transaction_field, unmarshal_transaction,
  marshal_data, data_field, unmarshal_data,
}

read_transaction :
    (l : ℕ) (small : l < 2 ^ 63) (t : Transaction)
    → IsU64 t.nonce
    → ReadsIn transaction_field l small empty_transaction (marshal_transaction t) t
unfolding transaction_field marshal_transaction
read_transaction l small t range =
    bytes_read transaction_field l small 0x0a t.account
      (λ x. record { account = x; nonce = 0; payload = []; sig = [] }) t _ refl refl
      (λ x bs behind from p. rw p refl)
      (uint_read transaction_field l small 0x10 t.nonce
        (λ x. record { account = t.account; nonce = x; payload = []; sig = [] }) t _ refl refl
        (λ x bs behind from p. rw p refl) range
        (bytes_read transaction_field l small 0x1a t.payload
          (λ x. record { account = t.account; nonce = t.nonce; payload = x; sig = [] }) t _ refl
          refl (λ x bs behind from p. rw p refl)
          (bytes_read transaction_field l small 0x22 t.sig
            (λ x. record { account = t.account; nonce = t.nonce; payload = t.payload; sig = x }) t _
            refl refl (λ x bs behind from p. rw p refl) (end_read transaction_field l small t))))

unmarshal_transaction-marshal_transaction :
    (t : Transaction)
    → IsU64 t.nonce
    → length (marshal_transaction t) < 2 ^ 63
    → unmarshal_transaction (marshal_transaction t) ≡ ok t
unfolding unmarshal_transaction
unmarshal_transaction-marshal_transaction t range small =
    unmarshal_read transaction_field (length (marshal_transaction t)) small empty_transaction t
      (marshal_transaction t) refl (read_transaction (length (marshal_transaction t)) small t range)

abbrev pub HasNonce : Transaction → Type 0
HasNonce t = IsU64 t.nonce

-- Each transaction fits into the buffer when all of them do.
transactions-ReadsBack :
    (ts : List Transaction)
    → All HasNonce ts
    → length (messages_field 0x0a marshal_transaction ts []) < 2 ^ 63
    → All (ReadsBack marshal_transaction unmarshal_transaction) ts
unfolding messages_field
transactions-ReadsBack [] h small = tt
transactions-ReadsBack (t ∷ ts) (range, ranges) small =
    let long =
      message_field-length 0x0a (marshal_transaction t)
        (messages_field 0x0a marshal_transaction ts []) in
    (
      unmarshal_transaction-marshal_transaction t range (omega (arith, long, small)),
      transactions-ReadsBack ts ranges (omega (arith, long, small)),
    )

read_data :
    (l : ℕ) (small : l < 2 ^ 63) (x : Data)
    → All HasNonce x.transactions
    → ReadsIn data_field l small empty_data (marshal_data x) x
unfolding data_field marshal_data
read_data l small x nonces within =
    messages_read data_field l small 0x0a x.transactions [] marshal_transaction
      unmarshal_transaction (λ ts. record { transactions = ts }) refl refl
      (λ ys t bs inner behind from p q. rw p (rw q refl))
      (transactions-ReadsBack x.transactions nonces (omega (arith, within, small))) within

-- What Go's types and memory grant.
pub record IsEncodable (x : Data) : Type 0 where
  pub nonces : All HasNonce x.transactions
  pub size : length (marshal_data x) < 2 ^ 63

-- Unmarshal gives back the data of every block that Marshal wrote, its transactions in their order,
-- if the nonces are uint64s and the encoding is shorter than 2^63 bytes.
pub unmarshal_data-marshal_data :
    (x : Data) → IsEncodable x → unmarshal_data (marshal_data x) ≡ ok x
unfolding unmarshal_data
unmarshal_data-marshal_data x e =
    unmarshal_read data_field (length (marshal_data x)) e.size empty_data x (marshal_data x) refl
      (read_data (length (marshal_data x)) e.size x e.nonces)

pub marshal_data-ReadsBack :
    (v : Data) → IsEncodable v → ReadsBack marshal_data (unmarshal data_field empty_data) v
marshal_data-ReadsBack v e = unfold unmarshal_data in unmarshal_data-marshal_data v e
