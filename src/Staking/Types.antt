-- ===== src/Staking/Types.antt =====
-- The data of pallets/sequencer-staking: src/types.rs and the requests of
-- src/delegation_requests.rs. An account is a number, of which the code uses the order alone; a
-- balance is a u128, a round index a u32.
use popsicle.Prelude.{
  ℕ, Bool, true, false, Option, none, List, [], if◌then◌else◌, ◌==◌, ◌&&◌, ◌∷◌, saturating_add_u32,
  sub_u32, leb,
}

pub record Bond : Type 0 where
  pub owner : ℕ
  pub amount : ℕ

-- `Bond::from_owner`
abbrev pub from_owner : ℕ → Bond
from_owner owner = record { owner = owner; amount = 0 }

-- What `Ord` and `PartialEq` of a bond read.
abbrev pub bond_key : Bond → ℕ
bond_key b = b.owner

pub data SequencerStatus : Type 0 where
  active : SequencerStatus
  idle : SequencerStatus
  leaving : ℕ → SequencerStatus

pub record SequencerSnapshot : Type 0 where
  pub bond : ℕ
  pub delegations : List Bond
  pub total : ℕ

-- The loop over the zipped delegations in `SequencerSnapshot::eq`.
abbrev pub same_delegations : List Bond → List Bond → Bool
same_delegations [] ys = true
same_delegations (x ∷ xs) [] = true
same_delegations (x ∷ xs) (y ∷ ys) =
    if (x.owner == y.owner) && (x.amount == y.amount) then same_delegations xs ys else false

-- `SequencerSnapshot::eq`
pub snapshot_eq : SequencerSnapshot → SequencerSnapshot → Bool
snapshot_eq a b =
    if (a.bond == b.bond) && (a.total == b.total)
    then same_delegations a.delegations b.delegations
    else false

pub record DelayedPayout : Type 0 where
  pub total_staking_reward : ℕ
  pub sequencer_commission : ℕ

pub record CandidateBondLessRequest : Type 0 where
  pub amount : ℕ
  pub when_executable : ℕ

pub record Delegations : Type 0 where
  pub delegations : List Bond
  pub total : ℕ

-- `Delegations::default`
abbrev pub no_delegations : Delegations
no_delegations = record { delegations = []; total = 0 }

pub data CapacityStatus : Type 0 where
  full empty partial : CapacityStatus

abbrev pub is_full : CapacityStatus → Bool
is_full CapacityStatus.full = true
is_full CapacityStatus.empty = false
is_full CapacityStatus.partial = false

abbrev pub is_empty : CapacityStatus → Bool
is_empty CapacityStatus.full = false
is_empty CapacityStatus.empty = true
is_empty CapacityStatus.partial = false

pub record CandidateMetadata : Type 0 where
  pub bond : ℕ
  pub delegation_count : ℕ
  pub total_counted : ℕ
  pub lowest_top_delegation_amount : ℕ
  pub highest_bottom_delegation_amount : ℕ
  pub lowest_bottom_delegation_amount : ℕ
  pub top_capacity : CapacityStatus
  pub bottom_capacity : CapacityStatus
  pub request : Option CandidateBondLessRequest
  pub status : SequencerStatus

-- `CandidateMetadata::new`
unfoldable pub new_candidate : ℕ → CandidateMetadata
new_candidate bond = record {
  bond = bond;
  delegation_count = 0;
  total_counted = bond;
  lowest_top_delegation_amount = 0;
  highest_bottom_delegation_amount = 0;
  lowest_bottom_delegation_amount = 0;
  top_capacity = CapacityStatus.empty;
  bottom_capacity = CapacityStatus.empty;
  request = none;
  status = SequencerStatus.active;
}

abbrev status_is_active : SequencerStatus → Bool
status_is_active SequencerStatus.active = true
status_is_active SequencerStatus.idle = false
status_is_active (SequencerStatus.leaving _) = false

abbrev status_is_leaving : SequencerStatus → Bool
status_is_leaving SequencerStatus.active = false
status_is_leaving SequencerStatus.idle = false
status_is_leaving (SequencerStatus.leaving _) = true

-- `CandidateMetadata::is_active`
abbrev pub is_active : CandidateMetadata → Bool
is_active m = status_is_active m.status

-- `CandidateMetadata::is_leaving`
abbrev pub is_leaving : CandidateMetadata → Bool
is_leaving m = status_is_leaving m.status

-- `CandidateMetadata::go_offline`
abbrev pub go_offline : CandidateMetadata → CandidateMetadata
go_offline m = record m { status = SequencerStatus.idle }

-- `CandidateMetadata::go_online`
abbrev pub go_online : CandidateMetadata → CandidateMetadata
go_online m = record m { status = SequencerStatus.active }

pub data DelegatorAdded : Type 0 where
  added_to_top : ℕ → DelegatorAdded
  added_to_bottom : DelegatorAdded

pub data DelegatorStatus : Type 0 where
  active : DelegatorStatus
  leaving : ℕ → DelegatorStatus

pub record Delegator : Type 0 where
  pub id : ℕ
  pub delegations : List Bond
  pub total : ℕ
  pub less_total : ℕ
  pub status : DelegatorStatus

pub data DelegationAction : Type 0 where
  revoke : ℕ → DelegationAction
  decrease : ℕ → DelegationAction

-- `DelegationAction::amount`
abbrev pub action_amount : DelegationAction → ℕ
action_amount (revoke amount) = amount
action_amount (decrease amount) = amount

pub record ScheduledRequest : Type 0 where
  pub delegator : ℕ
  pub when_executable : ℕ
  pub action : DelegationAction

pub record CancelledScheduledRequest : Type 0 where
  pub when_executable : ℕ
  pub action : DelegationAction

pub record RoundInfo : Type 0 where
  pub current : ℕ
  pub first : ℕ
  pub length : ℕ
  pub snapshot_time_point : ℕ

-- `RoundInfo::should_update`
unfoldable pub should_update : RoundInfo → ℕ → Bool
should_update r now = leb r.length (sub_u32 now r.first)

-- `RoundInfo::update`
unfoldable pub next_round : RoundInfo → ℕ → RoundInfo
next_round r now = record r { current = saturating_add_u32 r.current 1; first = now }

-- `RoundInfo::should_snapshot`
unfoldable pub should_snapshot : RoundInfo → ℕ → Bool
should_snapshot r now = sub_u32 now r.first == r.snapshot_time_point

-- `RoundInfo::default`
abbrev pub default_round : RoundInfo
default_round = record { current = 1; first = 1; length = 20; snapshot_time_point = 15 }
