-- ===== src/Staking/Candidate/Invariant.antt =====
-- The state of a candidate's delegations that the metadata caches: what the methods of
-- `CandidateMetadata` in pallets/sequencer-staking/src/types.rs rely on and keep.
use popsicle.Prelude.{ℕ, ◌+◌, ◌≤◌, ◌<◌, ◌≡◌, ◌⊎◌, true, some, length, saturating_add, max_u32}
use popsicle.Staking.Types.{Delegations, CandidateMetadata, is_active}
use popsicle.Staking.Storage.{Config, Storage}
use popsicle.Staking.Pool.Laws.{IsListed}
use popsicle.Staking.Delegations.{capacity, lowest_delegation_amount, highest_delegation_amount}
use popsicle.Staking.Delegations.Insertion.{AtMost, IsDescending}
use popsicle.Staking.Delegations.Sums.{sum}

-- The bounds on delegations are positive and do not overflow a count.
pub record HasBounds (T : Config) : Type 0 where
  pub top_pos : 0 < T.max_top_delegations_per_candidate
  pub bottom_pos : 0 < T.max_bottom_delegations_per_candidate
  pub fits : T.max_top_delegations_per_candidate + T.max_bottom_delegations_per_candidate ≤ max_u32

-- The two lists of a candidate: each sorted and within its bound, the top with its total, nothing at
-- the bottom unless the top is full, and nothing at the bottom above the lowest top.
pub record IsSplit (T : Config) (top bottom : Delegations) : Type 0 where
  pub top_sorted : IsDescending top.delegations
  pub bottom_sorted : IsDescending bottom.delegations
  pub top_fits : length top.delegations ≤ T.max_top_delegations_per_candidate
  pub bottom_fits : length bottom.delegations ≤ T.max_bottom_delegations_per_candidate
  pub top_total : top.total ≡ sum top.delegations
  pub spill :
      (length bottom.delegations ≡ 0)
      ⊎ (length top.delegations ≡ T.max_top_delegations_per_candidate)
  pub layered : AtMost (lowest_delegation_amount top) bottom.delegations

-- The metadata caches the two lists.
pub record Caches (T : Config) (m : CandidateMetadata) (top bottom : Delegations) : Type 0 where
  pub lowest_top : m.lowest_top_delegation_amount ≡ lowest_delegation_amount top
  pub top_cap : m.top_capacity ≡ capacity T.max_top_delegations_per_candidate top.delegations
  pub counted : m.total_counted ≡ saturating_add m.bond top.total
  pub lowest_bottom : m.lowest_bottom_delegation_amount ≡ lowest_delegation_amount bottom
  pub highest_bottom : m.highest_bottom_delegation_amount ≡ highest_delegation_amount bottom
  pub bottom_cap :
      m.bottom_capacity ≡ capacity T.max_bottom_delegations_per_candidate bottom.delegations
  pub count : m.delegation_count ≡ length top.delegations + length bottom.delegations

-- The candidate `c` with metadata `m` in the storage: its two lists are there, the metadata caches
-- them, and the pool lists it while it is active.
pub record IsBook (T : Config) (c : ℕ) (m : CandidateMetadata) (s : Storage T)
    (top bottom : Delegations) : Type 0 where
  pub has_top : s.top_delegations c ≡ some top
  pub has_bottom : s.bottom_delegations c ≡ some bottom
  pub split : IsSplit T top bottom
  pub caches : Caches T m top bottom
  pub listed : is_active m ≡ true → IsListed T c s.candidate_pool
