-- ===== src/Wire.antt =====
-- The protobuf wire format, as the generated code of types/types.pb.go reads and writes it.
pub mod Varint
pub mod Bounds
pub mod Fields
pub mod Header
pub mod Signature
pub mod Certificate
pub mod Data
pub mod Vote
pub mod NewView
pub mod Timeout
pub mod Block
pub mod Proposal
pub mod SyncRequest
pub mod Sync
pub mod Message
