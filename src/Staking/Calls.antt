-- ===== src/Staking/Calls.antt =====
-- The calls of candidates in pallets/sequencer-staking/src/lib.rs, each with its inner function.
-- `total_selected` of the grouping pallet is an argument where it is read.
pub mod Pooled
pub mod Enrolment
pub mod Bonding
pub mod History
use popsicle.Prelude.{
  ℕ, Bool, true, false, not, ◌||◌, Option, none, some, List, length, update, leb, ltb, ◌==◌,
  if◌then◌else◌,
}
use popsicle.Prelude.Effects.{ok, err, panic, pure, fail, gets, ok_or, ensure, modify, ◌>>=◌, ◌>>◌}
use popsicle.Prelude.Origin.{Origin, ensure_root, ensure_signed}
use popsicle.Staking.Set.{remove, try_insert}
use popsicle.Staking.Types.{
  Bond, from_owner, bond_key, CandidateMetadata, new_candidate, no_delegations, is_active,
  is_leaving, go_offline, go_online,
}
use popsicle.Staking.Storage
use popsicle.Staking.Storage.{
  Config, Storage, Call, deposit_event, put_pool, insert_candidate, insert_top, insert_bottom,
  bad_origin, candidate_dne, candidate_exists, delegator_exists, insufficient_balance,
  already_offline, already_active, candidate_not_leaving, cannot_go_online_if_leaving,
  candidate_limit_reached, cannot_set_below_min, no_writing_same_value,
  round_length_must_be_greater_than_total_selected_sequencers,
  too_low_candidate_count_weight_hint_join_candidates,
  too_low_candidate_count_weight_hint_cancel_leave_candidates,
  too_low_candidate_count_to_leave_candidates, joined_sequencer_candidates,
  candidate_scheduled_exit, cancelled_candidate_exit, candidate_went_offline, candidate_back_online,
  candidate_bond_less_requested, sequencer_commission_set, blocks_per_round_set,
}
use popsicle.Staking.Pool.{update_active}
use popsicle.Staking.Candidate.Bond.{
  schedule_leave, bond_more, schedule_bond_less, execute_bond_less, cancel_bond_less,
}

abbrev is_some {ℓ} : {A : Type ℓ} → Option A → Bool
is_some none = false
is_some (some _) = true

-- `is_delegator` and `is_candidate`
abbrev pub is_delegator : (T : Config) → ℕ → Storage T → Bool
is_delegator T acc s = is_some (s.delegator_state acc)

abbrev pub is_candidate : (T : Config) → ℕ → Storage T → Bool
is_candidate T acc s = is_some (s.candidate_info acc)

-- `<CandidateInfo<T>>::get(&candidate).ok_or(Error::<T>::CandidateDNE)?`
abbrev pub get_candidate : (T : Config) → ℕ → Call T CandidateMetadata
get_candidate T c = do m ← gets (λ (s : Storage T). s.candidate_info c); ok_or candidate_dne m

-- `set_sequencer_commission`; a `Perbill` is the number of its parts.
unfoldable pub set_sequencer_commission : (T : Config) → Origin → ℕ → Call T (Unit {0})
set_sequencer_commission T origin new = do
  ensure_root bad_origin origin
  old ← gets (λ (s : Storage T). s.sequencer_commission)
  ensure (not (old == new)) no_writing_same_value
  modify (λ s. record s { sequencer_commission = new })
  deposit_event T (sequencer_commission_set old new)

-- `set_blocks_per_round`
unfoldable pub set_blocks_per_round : (T : Config) → ℕ → Origin → ℕ → Call T (Unit {0})
set_blocks_per_round T total_selected origin new = do
  ensure_root bad_origin origin
  ensure (leb T.min_blocks_per_round new) cannot_set_below_min
  round ← gets (λ (s : Storage T). s.round)
  ensure (not (round.length == new)) no_writing_same_value
  ensure (ltb total_selected new) round_length_must_be_greater_than_total_selected_sequencers
  modify (λ s. record s { round = record round { length = new } })
  deposit_event T (blocks_per_round_set round.current round.first round.length new)

-- `enable_marking_offline`
unfoldable pub enable_marking_offline : (T : Config) → Origin → Bool → Call T (Unit {0})
enable_marking_offline T origin value = do
  ensure_root bad_origin origin
  modify λ s. record s { enable_marking_offline = value }

-- `candidates.try_insert(…).map_err(|_| CandidateLimitReached)?` with the check that it was absent
unfoldable pub enter_pool : (T : Config) → Storage.Error → Bond → List Bond → Call T (List Bond)
enter_pool T present bond candidates = do
  (inserted, pool) ←
      ok_or candidate_limit_reached (try_insert bond_key T.max_candidates bond candidates)
  ensure inserted present
  pure pool

-- `join_candidates_inner`
unfoldable pub join_candidates_inner : (T : Config) → ℕ → ℕ → Call T (Unit {0})
join_candidates_inner T acc candidate_count = do
  s ← gets (λ (s : Storage T). s)
  ensure (not (is_candidate T acc s)) candidate_exists
  ensure (not (is_delegator T acc s)) delegator_exists
  ensure (leb (length s.candidate_pool) candidate_count)
      too_low_candidate_count_weight_hint_join_candidates
  pool ← enter_pool T candidate_exists (from_owner acc) s.candidate_pool
  ensure (leb T.min_candidate_stk (T.free_balance s.ledger acc)) insufficient_balance
  modify (λ s. record s { ledger = T.set_lock acc T.min_candidate_stk s.ledger })
  insert_candidate T acc (new_candidate 0)
  insert_top T acc no_delegations
  insert_bottom T acc no_delegations
  put_pool T pool
  deposit_event T (joined_sequencer_candidates acc T.min_candidate_stk)

-- `join_candidates`
unfoldable pub join_candidates : (T : Config) → Origin → ℕ → Call T (Unit {0})
join_candidates T origin candidate_count = do
  acc ← ensure_signed bad_origin origin
  join_candidates_inner T acc candidate_count

-- `force_join_candidates`
unfoldable pub force_join_candidates : (T : Config) → Origin → ℕ → ℕ → ℕ → Call T (Unit {0})
force_join_candidates T origin account bond candidate_count = do
  ensure_root bad_origin origin
  join_candidates_inner T account candidate_count

-- `if candidates.remove(&Bond::from_owner(…)) { put }`
unfoldable pub leave_pool : (T : Config) → ℕ → List Bond → Call T (Unit {0})
leave_pool T c candidates =
    let (removed, pool) = remove bond_key (from_owner c) candidates in
    if removed then put_pool T pool else pure tt

-- `schedule_leave_candidates`
unfoldable pub schedule_leave_candidates : (T : Config) → Origin → ℕ → Call T (Unit {0})
schedule_leave_candidates T origin candidate_count = do
  sequencer ← ensure_signed bad_origin origin
  state ← get_candidate T sequencer
  (now, when, state') ← schedule_leave T state
  candidates ← gets (λ (s : Storage T). s.candidate_pool)
  ensure (leb (length candidates) candidate_count) too_low_candidate_count_to_leave_candidates
  leave_pool T sequencer candidates
  insert_candidate T sequencer state'
  deposit_event T (candidate_scheduled_exit now sequencer when)

-- `cancel_leave_candidates`
unfoldable pub cancel_leave_candidates : (T : Config) → Origin → ℕ → Call T (Unit {0})
cancel_leave_candidates T origin candidate_count = do
  sequencer ← ensure_signed bad_origin origin
  state ← get_candidate T sequencer
  ensure (is_leaving state) candidate_not_leaving
  candidates ← gets (λ (s : Storage T). s.candidate_pool)
  ensure (leb (length candidates) candidate_count)
      too_low_candidate_count_weight_hint_cancel_leave_candidates
  pool ←
      enter_pool T already_active
        (record { owner = sequencer; amount = (go_online state).total_counted }) candidates
  put_pool T pool
  insert_candidate T sequencer (go_online state)
  deposit_event T (cancelled_candidate_exit sequencer)

-- `go_offline_inner`
unfoldable pub go_offline_inner : (T : Config) → ℕ → Call T (Unit {0})
go_offline_inner T sequencer = do
  state ← get_candidate T sequencer
  candidates ← gets (λ (s : Storage T). s.candidate_pool)
  ensure (is_active state) already_offline
  leave_pool T sequencer candidates
  insert_candidate T sequencer (go_offline state)
  deposit_event T (candidate_went_offline sequencer)

-- `go_online_inner`
unfoldable pub go_online_inner : (T : Config) → ℕ → Call T (Unit {0})
go_online_inner T sequencer = do
  state ← get_candidate T sequencer
  candidates ← gets (λ (s : Storage T). s.candidate_pool)
  ensure (not (is_active state)) already_active
  ensure (not (is_leaving state)) cannot_go_online_if_leaving
  pool ←
      enter_pool T already_active
        (record { owner = sequencer; amount = (go_online state).total_counted }) candidates
  put_pool T pool
  insert_candidate T sequencer (go_online state)
  deposit_event T (candidate_back_online sequencer)

-- `candidate_bond_more_inner`
unfoldable pub candidate_bond_more_inner : (T : Config) → ℕ → ℕ → Call T (Unit {0})
candidate_bond_more_inner T sequencer more = do
  state ← get_candidate T sequencer
  state' ← bond_more T sequencer more state
  insert_candidate T sequencer state'
  if is_active state' then update_active T sequencer state'.total_counted else pure tt

-- `schedule_candidate_bond_less`
unfoldable pub schedule_candidate_bond_less : (T : Config) → Origin → ℕ → Call T (Unit {0})
schedule_candidate_bond_less T origin less = do
  sequencer ← ensure_signed bad_origin origin
  state ← get_candidate T sequencer
  (when, state') ← schedule_bond_less T less state
  insert_candidate T sequencer state'
  deposit_event T (candidate_bond_less_requested sequencer less when)

-- `execute_candidate_bond_less_inner`
unfoldable pub execute_candidate_bond_less_inner : (T : Config) → ℕ → Call T (Unit {0})
execute_candidate_bond_less_inner T candidate = do
  state ← get_candidate T candidate
  state' ← execute_bond_less T candidate state
  insert_candidate T candidate state'

-- `cancel_candidate_bond_less`
unfoldable pub cancel_candidate_bond_less : (T : Config) → Origin → Call T (Unit {0})
cancel_candidate_bond_less T origin = do
  sequencer ← ensure_signed bad_origin origin
  state ← get_candidate T sequencer
  state' ← cancel_bond_less T sequencer state
  insert_candidate T sequencer state'

-- `go_offline`, `go_online`, `candidate_bond_more` and `execute_candidate_bond_less`
unfoldable pub go_offline_call : (T : Config) → Origin → Call T (Unit {0})
go_offline_call T origin = do
  sequencer ← ensure_signed bad_origin origin
  go_offline_inner T sequencer

unfoldable pub go_online_call : (T : Config) → Origin → Call T (Unit {0})
go_online_call T origin = do
  sequencer ← ensure_signed bad_origin origin
  go_online_inner T sequencer

unfoldable pub candidate_bond_more : (T : Config) → Origin → ℕ → Call T (Unit {0})
candidate_bond_more T origin more = do
  candidate ← ensure_signed bad_origin origin
  candidate_bond_more_inner T candidate more

unfoldable pub execute_candidate_bond_less : (T : Config) → Origin → ℕ → Call T (Unit {0})
execute_candidate_bond_less T origin candidate = do
  ensure_signed bad_origin origin
  execute_candidate_bond_less_inner T candidate
