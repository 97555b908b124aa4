-- ===== src/Store.antt =====
-- store.go: the block store over the database, types/hash.go and HashSum of utils.go.
-- `none` is an error that the method returns.
pub mod Keys
pub mod Laws
pub mod Puts
pub mod Blocks
pub mod Iterator
use mathlib.Core.Option
use coded_hotterstuff.Prelude.{ℕ, Option, none, some, List, [], ◌∷◌}
use coded_hotterstuff.Prelude.Bytes.{Bytes}
use coded_hotterstuff.Exec.{Outcome}
use coded_hotterstuff.Types.{Header, Certificate, Data, Block}
use coded_hotterstuff.Encoding.{encode_uint64, decode_uint64}
use coded_hotterstuff.Env.{Env}
use coded_hotterstuff.Wire.Varint.{Result}
use coded_hotterstuff.Wire.Header.{marshal_header, unmarshal_header}
use coded_hotterstuff.Wire.Certificate.{marshal_certificate, unmarshal_certificate}
use coded_hotterstuff.Wire.Data.{marshal_data, unmarshal_data}

infixl 5 ◌>>=◌
abbrev pub ◌>>=◌ {ℓ κ} : {A : Type ℓ} {B : Type κ} → Option A → (A → Option B) → Option B
none >>= f = none
some a >>= f = f a

-- The error of an Unmarshal, handed on.
abbrev pub no_error {ℓ} : {A : Type ℓ} → Result A → Option A
no_error (Result.ok a) = some a
no_error (Result.err e) = none

-- headerBucket, dataBucket, certBucket, viewBucket, votedBucket
abbrev pub header_bucket : ℕ
header_bucket = 1

abbrev pub data_bucket : ℕ
data_bucket = 2

abbrev pub cert_bucket : ℕ
cert_bucket = 3

abbrev pub view_bucket : ℕ
view_bucket = 4

abbrev pub voted_bucket : ℕ
voted_bucket = 5

-- Tag("p"), Tag("l"), Tag("d"); ExecTag is not used.
pub data Tag : Type 0 where
  prepare_tag locked_tag decide_tag : Tag

unfoldable pub tag_bytes : Tag → Bytes
tag_bytes prepare_tag = b'p' ∷ []
tag_bytes locked_tag = b'l' ∷ []
tag_bytes decide_tag = b'd' ∷ []

unfoldable pub parts_key : ℕ → Bytes → Bytes
parts_key part hash = part ∷ hash

unfoldable pub header_key : Bytes → Bytes
unfolding parts_key
header_key hash = parts_key header_bucket hash

unfoldable pub data_key : Bytes → Bytes
unfolding parts_key
data_key hash = parts_key data_bucket hash

unfoldable pub cert_key : Bytes → Bytes
unfolding parts_key
cert_key hash = parts_key cert_bucket hash

module _ (env : Env) where
  open env use {Db, db_get, db_put, blake2s}

  -- utils.go
  unfoldable pub hash_sum : Bytes → Bytes
  hash_sum buf = blake2s buf

  -- types/hash.go
  unfoldable pub header_hash : Header → Bytes
  header_hash h = blake2s (marshal_header h)

  unfoldable pub get_header : Db → Bytes → Option Header
  get_header d hash = do buf ← db_get d (header_key hash); no_error (unmarshal_header buf)

  unfoldable pub save_header : Db → Header → Option Db
  save_header d h = db_put d (header_key (header_hash h)) (marshal_header h)

  unfoldable pub get_certificate : Db → Bytes → Option Certificate
  get_certificate d hash = do buf ← db_get d (cert_key hash); no_error (unmarshal_certificate buf)

  unfoldable pub save_certificate : Db → Certificate → Option Db
  save_certificate d c = db_put d (cert_key c.block) (marshal_certificate c)

  unfoldable pub save_data : Db → Bytes → Data → Option Db
  save_data d hash payload = db_put d (data_key hash) (marshal_data payload)

  unfoldable pub get_data : Db → Bytes → Option Data
  get_data d hash = do buf ← db_get d (data_key hash); no_error (unmarshal_data buf)

  unfoldable pub set_tag : Db → Tag → Bytes → Option Db
  set_tag d tag hash = db_put d (tag_bytes tag) hash

  unfoldable pub get_tag : Db → Tag → Option Bytes
  get_tag d tag = db_get d (tag_bytes tag)

  unfoldable pub get_tag_header : Db → Tag → Option Header
  get_tag_header d tag = do hash ← get_tag d tag; get_header d hash

  unfoldable pub get_tag_cert : Db → Tag → Option Certificate
  get_tag_cert d tag = do hash ← get_tag d tag; get_certificate d hash

  unfoldable pub save_view : Db → ℕ → Option Db
  save_view d view = db_put d (view_bucket ∷ []) (encode_uint64 view)

  -- DecodeUint64 may panic beside the error that `Get` returns.
  unfoldable pub get_view : Db → Option (Outcome ℕ)
  get_view d = Option.map decode_uint64 (db_get d (view_bucket ∷ []))

  unfoldable pub save_voted : Db → ℕ → Option Db
  save_voted d voted = db_put d (voted_bucket ∷ []) (encode_uint64 voted)

  unfoldable pub get_voted : Db → Option (Outcome ℕ)
  get_voted d = Option.map decode_uint64 (db_get d (voted_bucket ∷ []))

  -- The block's three pointers have been found not nil by the caller.
  unfoldable pub save_block : Db → Header → Certificate → Data → Option Db
  save_block d h c payload = do
    d1 ← save_header d h
    d2 ← save_certificate d1 c
    save_data d2 (header_hash h) payload

  unfoldable pub get_block : Db → Bytes → Option Block
  get_block d hash = do
    h ← get_header d hash
    c ← get_certificate d hash
    payload ← get_data d hash
    some (record { header = some h; payload = some payload; cert = some c })
