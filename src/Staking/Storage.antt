-- ===== src/Staking/Storage.antt =====
-- The configuration, storage, events and errors of pallets/sequencer-staking/src/lib.rs. A storage
-- map is a function; `none` is a missing entry of an `OptionQuery` map. The assets and currency
-- pallets are not part of this repository: their state is `Ledger`, their calls are fields of the
-- configuration.
use popsicle.Prelude.{ℕ, Bool, List, ◌∷◌, Option, none, some, update}
use popsicle.Prelude.Effects.{Action, ok, err, modify}
use popsicle.Staking.Types.{
  Bond, SequencerSnapshot, DelayedPayout, Delegations, CandidateMetadata, DelegatorAdded, Delegator,
  ScheduledRequest, CancelledScheduledRequest, RoundInfo,
}

pub record Config : Type 1 where
  -- the states of `T::Assets` and `T::Currency`
  pub Ledger : Type 0
  -- `T::Assets::reducible_balance(T::BTC, who, Expendable, Polite)`
  pub reducible_balance : Ledger → ℕ → ℕ
  -- `T::Assets::transfer(T::BTC, from, to, amount, Expendable)`
  pub transfer : ℕ → ℕ → ℕ → Ledger → Option Ledger
  -- `T::Currency::free_balance`
  pub free_balance : Ledger → ℕ → ℕ
  -- `T::Currency::set_lock(SEQUENCER_LOCK_ID, who, amount, all)`
  pub set_lock : ℕ → ℕ → Ledger → Ledger
  -- `T::Currency::remove_lock(SEQUENCER_LOCK_ID, who)`
  pub remove_lock : ℕ → Ledger → Ledger
  -- `T::Currency::transfer(from, to, amount, AllowDeath)`
  pub transfer_native : ℕ → ℕ → ℕ → Ledger → Option Ledger
  -- `T::Currency::transfer(from, to, amount, KeepAlive)`
  pub transfer_keep_alive : ℕ → ℕ → ℕ → Ledger → Option Ledger
  -- whether the storage iterates over the entry of one account before that of another: the order of
  -- their hashed keys
  pub key_before : ℕ → ℕ → Bool
  -- `Pallet::account_id()`
  pub account_id : ℕ
  pub min_blocks_per_round : ℕ
  pub max_offline_rounds : ℕ
  pub leave_candidates_delay : ℕ
  pub candidate_bond_less_delay : ℕ
  pub revoke_delegation_delay : ℕ
  pub delegation_bond_less_delay : ℕ
  pub reward_payment_delay : ℕ
  pub max_top_delegations_per_candidate : ℕ
  pub max_bottom_delegations_per_candidate : ℕ
  pub max_delegations_per_delegator : ℕ
  pub min_candidate_stk : ℕ
  pub min_delegation : ℕ
  pub round_reward : ℕ
  pub max_candidates : ℕ

pub data Event : Type 0 where
  new_round : ℕ → ℕ → ℕ → Event
  candidates_selected : ℕ → ℕ → ℕ → Event
  joined_sequencer_candidates : ℕ → ℕ → Event
  sequencer_chosen : ℕ → ℕ → ℕ → Event
  candidate_bond_less_requested : ℕ → ℕ → ℕ → Event
  candidate_bonded_more : ℕ → ℕ → ℕ → Event
  candidate_bonded_less : ℕ → ℕ → ℕ → Event
  candidate_went_offline : ℕ → Event
  candidate_back_online : ℕ → Event
  candidate_scheduled_exit : ℕ → ℕ → ℕ → Event
  cancelled_candidate_exit : ℕ → Event
  cancelled_candidate_bond_less : ℕ → ℕ → ℕ → Event
  candidate_left : ℕ → ℕ → ℕ → Event
  delegation_decrease_scheduled : ℕ → ℕ → ℕ → ℕ → Event
  delegation_increased : ℕ → ℕ → ℕ → Bool → Event
  delegation_decreased : ℕ → ℕ → ℕ → Bool → Event
  delegation_revocation_scheduled : ℕ → ℕ → ℕ → ℕ → Event
  delegator_left : ℕ → ℕ → Event
  delegation_revoked : ℕ → ℕ → ℕ → Event
  delegation_kicked : ℕ → ℕ → ℕ → Event
  cancelled_delegation_request : ℕ → CancelledScheduledRequest → ℕ → Event
  delegation : ℕ → ℕ → ℕ → DelegatorAdded → Event
  delegator_left_candidate : ℕ → ℕ → ℕ → ℕ → Event
  rewarded : ℕ → ℕ → Event
  total_selected_set : ℕ → ℕ → Event
  sequencer_commission_set : ℕ → ℕ → Event
  blocks_per_round_set : ℕ → ℕ → ℕ → ℕ → Event

-- `bad_origin` is frame_system's, `currency_error` stands for those of `T::Currency`.
pub data Error : Type 0 where
  delegator_dne : Error
  candidate_dne : Error
  delegation_dne : Error
  delegator_exists : Error
  candidate_exists : Error
  candidate_bond_below_min : Error
  insufficient_balance : Error
  delegator_bond_below_min : Error
  delegation_below_min : Error
  already_offline : Error
  already_active : Error
  candidate_already_leaving : Error
  candidate_not_leaving : Error
  candidate_cannot_leave_yet : Error
  cannot_go_online_if_leaving : Error
  exceed_max_delegations_per_delegator : Error
  already_delegated_candidate : Error
  cannot_set_below_min : Error
  round_length_must_be_greater_than_total_selected_sequencers : Error
  no_writing_same_value : Error
  too_low_candidate_count_weight_hint_join_candidates : Error
  too_low_candidate_count_weight_hint_cancel_leave_candidates : Error
  too_low_candidate_count_to_leave_candidates : Error
  too_low_delegation_count_to_delegate : Error
  too_low_candidate_delegation_count_to_delegate : Error
  too_low_candidate_delegation_count_to_leave_candidates : Error
  pending_candidate_requests_dne : Error
  pending_candidate_request_already_exists : Error
  pending_candidate_request_not_due_yet : Error
  pending_delegation_request_dne : Error
  pending_delegation_request_already_exists : Error
  pending_delegation_request_not_due_yet : Error
  cannot_delegate_less_than_or_equal_to_lowest_bottom_when_full : Error
  pending_delegation_revoke : Error
  too_low_sequencer_count_to_notify_as_inactive : Error
  cannot_be_notified_as_inactive : Error
  candidate_limit_reached : Error
  cannot_set_above_max_candidates : Error
  marking_offline_not_enabled : Error
  current_round_too_low : Error
  transfer_failed : Error
  bad_origin : Error
  currency_error : Error

pub record Storage (T : Config) : Type 0 where
  pub sequencer_commission : ℕ
  pub round : RoundInfo
  pub delegator_state : ℕ → Option Delegator
  pub candidate_info : ℕ → Option CandidateMetadata
  pub delegation_scheduled_requests : ℕ → List ScheduledRequest
  pub top_delegations : ℕ → Option Delegations
  pub bottom_delegations : ℕ → Option Delegations
  pub selected_candidates : List ℕ
  pub total : ℕ
  pub candidate_pool : List Bond
  -- the snapshots of a round, in the order in which the storage iterates over them
  pub at_stake : ℕ → List (ℕ × SequencerSnapshot)
  pub delayed_payouts : ℕ → Option DelayedPayout
  pub points : ℕ → ℕ
  pub awarded_pts : ℕ → ℕ → ℕ
  pub enable_marking_offline : Bool
  -- the events deposited so far, the latest first
  pub events : List Event
  pub ledger : T.Ledger

-- A call of the pallet.
abbrev pub Call : Config → Type 0 → Type 0
Call T A = Action (Storage T) Error A

-- `Pallet::deposit_event`
abbrev pub deposit_event : (T : Config) → Event → Call T (Unit {0})
deposit_event T e = modify λ s. record s { events = e ∷ s.events }

-- `T::Assets::transfer(T::BTC, from, to, amount, Expendable).map_err(|_| TransferFailed)?`
abbrev pub transfer_btc : (T : Config) → ℕ → ℕ → ℕ → Call T (Unit {0})
transfer_btc T from to amount s = elim (T.transfer from to amount s.ledger) [
  | none ↦ (err transfer_failed, s)
  | some l ↦ (ok tt, record s { ledger = l })
]

module _ (T : Config) where
  abbrev pub put_total : ℕ → Call T (Unit {0})
  put_total n = modify λ s. record s { total = n }

  abbrev pub put_pool : List Bond → Call T (Unit {0})
  put_pool p = modify λ s. record s { candidate_pool = p }

  abbrev pub insert_candidate : ℕ → CandidateMetadata → Call T (Unit {0})
  insert_candidate c m =
      modify λ s. record s { candidate_info = update s.candidate_info c (some m) }

  abbrev pub insert_delegator : ℕ → Delegator → Call T (Unit {0})
  insert_delegator d x =
      modify λ s. record s { delegator_state = update s.delegator_state d (some x) }

  abbrev pub remove_delegator : ℕ → Call T (Unit {0})
  remove_delegator d = modify λ s. record s { delegator_state = update s.delegator_state d none }

  abbrev pub insert_top : ℕ → Delegations → Call T (Unit {0})
  insert_top c d = modify λ s. record s { top_delegations = update s.top_delegations c (some d) }

  abbrev pub insert_bottom : ℕ → Delegations → Call T (Unit {0})
  insert_bottom c d =
      modify λ s. record s { bottom_delegations = update s.bottom_delegations c (some d) }

  abbrev pub insert_requests : ℕ → List ScheduledRequest → Call T (Unit {0})
  insert_requests c r =
      modify
        λ s. record s { delegation_scheduled_requests = update s.delegation_scheduled_requests c r }
