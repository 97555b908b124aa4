-- ===== src/Utils.antt =====
-- utils.go: the collection of votes and of timeouts, and the import of the genesis block.
pub mod Votes
pub mod Timeouts
pub mod Genesis
