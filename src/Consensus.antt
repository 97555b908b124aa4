-- ===== src/Consensus.antt =====
-- consensus.go: the replica's state machine.
pub mod State
pub mod Round
pub mod Chain
pub mod Handlers
pub mod Machine
pub mod Restart
pub mod VoteRule
pub mod Quorum
pub mod Rotation
pub mod Evolves
pub mod Locks
pub mod Ends
