-- ===== src/Types.antt =====
-- The messages of types/types.proto, as types/types.pb.go declares them.
-- A Go pointer to a message is an `Option`, and so is the one byte slice for which the code tells
-- nil from empty, `AggregatedSignature.Sig`. A uint64 is a number; `IsU64` states its range.
use coded_hotterstuff.Prelude.{ℕ, List, Option}
use coded_hotterstuff.Prelude.Bytes.{Bytes}

pub record Header : Type 0 where
  pub view : ℕ
  pub parent : Bytes
  pub parent_view : ℕ
  pub data_root : Bytes
  pub state_root : Bytes

pub record AggregatedSignature : Type 0 where
  pub voters : List ℕ
  pub sig : Option Bytes

pub record Certificate : Type 0 where
  pub block : Bytes
  pub sig : Option AggregatedSignature

pub record TimeoutCertificate : Type 0 where
  pub view : ℕ
  pub sig : Option AggregatedSignature

pub record Transaction : Type 0 where
  pub account : Bytes
  pub nonce : ℕ
  pub payload : Bytes
  pub sig : Bytes

-- The message `Data`; its one field is named `data` in the source.
pub record Data : Type 0 where
  pub transactions : List Transaction

pub record Block : Type 0 where
  pub header : Option Header
  pub payload : Option Data
  pub cert : Option Certificate

pub record Proposal : Type 0 where
  pub header : Option Header
  pub payload : Option Data
  pub sig : Bytes
  pub parent_cert : Option Certificate
  pub timeout : Option TimeoutCertificate

pub record NewView : Type 0 where
  pub view : ℕ
  pub voter : ℕ
  pub sig : Bytes
  pub cert : Option Certificate

pub record Vote : Type 0 where
  pub block : Bytes
  pub view : ℕ
  pub voter : ℕ
  pub sig : Bytes

pub record Sync : Type 0 where
  pub blocks : List Block

-- A limit of zero asks for all.
pub record SyncRequest : Type 0 where
  pub from : Option Header
  pub limit : ℕ

-- The oneof of `Message`; `empty` is a message whose `Type` is nil.
pub data Message : Type 0 where
  proposal : Proposal → Message
  newview : NewView → Message
  vote : Vote → Message
  sync : Sync → Message
  empty : Message
