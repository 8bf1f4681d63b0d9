-- ===== src/Staking/Candidate.antt =====
-- `CandidateMetadata` of pallets/sequencer-staking/src/types.rs. A method takes the metadata and
-- returns it changed; the caller writes it back. After an error the callers drop it.
pub mod Book
pub mod Adjust
pub mod Bond
pub mod Untouched
pub mod Kick
pub mod Pending
pub mod Invariant
pub mod Splitting
pub mod Adding
pub mod Admission
pub mod Without
pub mod Removing
pub mod Removal
pub mod Finding
pub mod Adjusted
pub mod Adjusting
