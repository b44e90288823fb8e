-- ===== src/Credit.antt =====
-- The entries of an Entry Credit block: the types that implement EcBlockEntry.
pub mod Numbers
pub mod IncreaseBalance
pub mod CommitEntry
pub mod CommitChain
mod Tests
