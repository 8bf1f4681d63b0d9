-- ===== src/Staking.antt =====
-- pallets/sequencer-staking: sequencer candidates, their delegations, rounds and rewards.
pub mod Set
pub mod Types
pub mod Storage
pub mod Delegations
pub mod Pool
pub mod Delegator
pub mod Candidate
pub mod Calls
pub mod Requests
pub mod Delegating
pub mod Selection
pub mod Payouts
pub mod Rounds
pub mod Genesis
mod Sample
mod RoundSample
mod RoundExamples
mod Examples
mod CallExamples
