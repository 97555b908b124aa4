-- ===== src/Wire/Data/Size.antt =====
-- types/types.pb.go: Marshal and Size of Transaction and of Data.
use coded_hotterstuff.Wire.Fields.Written.{All-map}
use coded_hotterstuff.Wire.Fields.Sized.{
  messages-IsSized, end-IsSized, uint-IsSized, bytes-IsSized, HasSize,
}
use coded_hotterstuff.Types.{Transaction, Data}
use coded_hotterstuff.Prelude.{arith}
use coded_hotterstuff.Wire.Data.{size_data, size_transaction, marshal_data, marshal_transaction}
use coded_hotterstuff.Wire.Data.RoundTrip.{IsEncodable, HasNonce}

marshal_transaction-HasSize :
    (t : Transaction) → HasNonce t → HasSize marshal_transaction size_transaction t
unfolding marshal_transaction size_transaction
marshal_transaction-HasSize t range small =
    let whole =
      (bytes-IsSized 0x0a t.account _ _ (
          uint-IsSized 0x10 t.nonce _ _ range
            (bytes-IsSized 0x1a t.payload _ _ (bytes-IsSized 0x22 t.sig _ _ end-IsSized))))
        small in
    omega (arith, whole)

pub marshal_data-HasSize : (x : Data) → IsEncodable x → HasSize marshal_data size_data x
unfolding marshal_data size_data
marshal_data-HasSize x e =
    messages-IsSized 0x0a x.transactions marshal_transaction size_transaction
      (All-map x.transactions marshal_transaction-HasSize e.nonces)
