-- ===== src/Examples.antt =====
-- Concrete inputs: an environment for which everything computes, runs of the code, and the
-- theorems at inputs that meet their hypotheses.
pub mod Toy
pub mod World
mod Programs
mod Processes
mod Calls
mod Network
pub mod Runs
pub mod Signatures
pub mod Codecs
pub mod Stores
pub mod Walks
pub mod Elections
pub mod Witnesses
