-- ===== src/Staking/Candidate/Book.antt =====
-- How `CandidateMetadata` of pallets/sequencer-staking/src/types.rs enters a delegation in the top
-- or bottom delegations of its candidate, and takes one out.
use popsicle.Prelude.{
  ℕ, Bool, true, false, not, ◌&&◌, ◌||◌, Option, none, some, length, last?, init, uncons,
  saturating_add, saturating_sub, saturating_add_u32, leb, ltb, ◌==◌, if◌then◌else◌,
}
use popsicle.Prelude.Effects.{pure, gets, expect, ok_or, ensure, on_error, ◌>>=◌, ◌>>◌}
use popsicle.Staking.Types.{
  Bond, Delegations, is_full, is_empty, CandidateMetadata, is_active, DelegatorAdded, added_to_top,
  added_to_bottom,
}
use popsicle.Staking.Storage.{
  Config, Storage, Error, delegation_dne,
  cannot_delegate_less_than_or_equal_to_lowest_bottom_when_full, delegation_kicked, delegator_left,
  Call, deposit_event, insert_top, insert_bottom, insert_delegator, remove_delegator,
}
use popsicle.Staking.Delegations.{
  insert_sorted_greatest_to_least, capacity, lowest_delegation_amount, highest_delegation_amount,
}
use popsicle.Staking.Pool.{update_active}
use popsicle.Staking.Delegator.{
  matched_amount, without, rm_delegation, delegation_remove_request_with_state,
}

abbrev pub is_delegation_dne : Error → Bool
is_delegation_dne delegation_dne = true
is_delegation_dne _ = false

-- The fields that `reset_top_data` sets.
abbrev pub with_top : (T : Config) → Delegations → CandidateMetadata → CandidateMetadata
with_top T top m = record m {
  lowest_top_delegation_amount = lowest_delegation_amount top;
  top_capacity = capacity T.max_top_delegations_per_candidate top.delegations;
  total_counted = saturating_add m.bond top.total;
}

-- `reset_top_data`
unfoldable pub reset_top_data :
    (T : Config) → ℕ → Delegations → CandidateMetadata → Call T CandidateMetadata
reset_top_data T candidate top m =
    let m' = with_top T top m in
    if not (m.total_counted == m'.total_counted) && is_active m'
    then update_active T candidate m'.total_counted >> pure m'
    else pure m'

-- `reset_bottom_data`
abbrev pub reset_bottom_data : (T : Config) → Delegations → CandidateMetadata → CandidateMetadata
reset_bottom_data T bottom m = record m {
  lowest_bottom_delegation_amount = lowest_delegation_amount bottom;
  highest_bottom_delegation_amount = highest_delegation_amount bottom;
  bottom_capacity = capacity T.max_bottom_delegations_per_candidate bottom.delegations;
}

-- What `add_bottom_delegation` does to the delegator whose delegation it kicks.
unfoldable pub kick : (T : Config) → ℕ → Bond → Call T (Unit {0})
kick T candidate kicked = do
  state ← expect (← gets (λ (s : Storage T). s.delegator_state kicked.owner))
  let leaving = length state.delegations == 1
  (_, state') ← rm_delegation T candidate state
  state'' ← delegation_remove_request_with_state T candidate kicked.owner state'
  deposit_event T (delegation_kicked kicked.owner candidate kicked.amount)
  if leaving
      then remove_delegator T kicked.owner
        >> deposit_event T (delegator_left kicked.owner kicked.amount)
      else insert_delegator T kicked.owner state''

-- Whether a list of that length is at the bound, and the list without its last element.
unfoldable pub make_room : (T : Config) → ℕ → Delegations → Call T (Bool × Delegations)
make_room T candidate bottom =
    if length bottom.delegations == T.max_bottom_delegations_per_candidate
    then (do
      kicked ← expect (last? bottom.delegations)
      kick T candidate kicked
      pure (
        true,
        record {
          delegations = init bottom.delegations;
          total = saturating_sub bottom.total kicked.amount;
        },
      ))
    else pure (false, bottom)

-- `add_bottom_delegation`
unfoldable pub add_bottom_delegation :
    (T : Config) → Bool → ℕ → Bond → CandidateMetadata → Call T CandidateMetadata
add_bottom_delegation T bumped_from_top candidate delegation m = do
  bottom ← expect (← gets (λ (s : Storage T). s.bottom_delegations candidate))
  (kicked, room) ← make_room T candidate bottom
  let increase_delegation_count = not kicked && not bumped_from_top
  let bottom' = insert_sorted_greatest_to_least delegation room
  let m' = record m {
    delegation_count =
        if increase_delegation_count
        then saturating_add_u32 m.delegation_count 1
        else m.delegation_count;
  }
  insert_bottom T candidate bottom'
  pure (reset_bottom_data T bottom' m')

-- What `add_top_delegation` does when the top is full: the lowest top delegation moves to the bottom.
unfoldable pub bump_lowest_top :
    (T : Config)
    → ℕ
    → Delegations
    → CandidateMetadata
    → Call T (Option ℕ × Delegations × CandidateMetadata)
bump_lowest_top T candidate top m =
    if length top.delegations == T.max_top_delegations_per_candidate
    then (do
      lowest ← expect (last? top.delegations)
      let less = if is_full m.bottom_capacity then some m.lowest_bottom_delegation_amount else none
      m' ← add_bottom_delegation T true candidate lowest m
      pure (
        less,
        record {
          delegations = init top.delegations;
          total = saturating_sub top.total lowest.amount;
        },
        m',
      ))
    else pure (none, top, m)

abbrev pub count_unless_kicked : Option ℕ → CandidateMetadata → CandidateMetadata
count_unless_kicked none m = record m { delegation_count = saturating_add_u32 m.delegation_count 1 }
count_unless_kicked (some _) m = m

-- `add_top_delegation`: the amount of a delegation that fell out at the bottom, if one did.
unfoldable pub add_top_delegation :
    (T : Config) → ℕ → Bond → CandidateMetadata → Call T (Option ℕ × CandidateMetadata)
add_top_delegation T candidate delegation m = do
  top ← expect (← gets (λ (s : Storage T). s.top_delegations candidate))
  (less_total_staked, room, m') ← bump_lowest_top T candidate top m
  let top' = insert_sorted_greatest_to_least delegation room
  m'' ← reset_top_data T candidate top' m'
  insert_top T candidate top'
  pure (less_total_staked, count_unless_kicked less_total_staked m'')

-- `add_delegation`
unfoldable pub add_delegation :
    (T : Config)
    → ℕ
    → Bond
    → CandidateMetadata
    → Call T (DelegatorAdded × Option ℕ × CandidateMetadata)
add_delegation T candidate delegation m =
    if is_full m.top_capacity && not (ltb m.lowest_top_delegation_amount delegation.amount)
    then (do
      ensure
          (not (is_full m.bottom_capacity)
            || ltb m.lowest_bottom_delegation_amount delegation.amount)
          cannot_delegate_less_than_or_equal_to_lowest_bottom_when_full
      let less = if is_full m.bottom_capacity then some m.lowest_bottom_delegation_amount else none
      m' ← add_bottom_delegation T false candidate delegation m
      pure (added_to_bottom, less, m'))
    else (do
      (less, m') ← add_top_delegation T candidate delegation m
      let reported = if is_full m.top_capacity then less else none
      pure (added_to_top m'.total_counted, reported, m'))

-- What `rm_top_delegation` does where there are bottom delegations: the highest moves to the top.
unfoldable pub promote_highest_bottom :
    (T : Config) → ℕ → Delegations → CandidateMetadata → Call T (Delegations × CandidateMetadata)
promote_highest_bottom T candidate top m = if is_empty m.bottom_capacity then pure (top, m) else (do
  bottom ← expect (← gets (λ (s : Storage T). s.bottom_delegations candidate))
  (highest, rest) ← expect (uncons bottom.delegations)
  let bottom' : Delegations = record {
    delegations = rest;
    total = saturating_sub bottom.total highest.amount;
  }
  insert_bottom T candidate bottom'
  pure (insert_sorted_greatest_to_least highest top, reset_bottom_data T bottom' m))

abbrev pub count_down : CandidateMetadata → CandidateMetadata
count_down m = record m { delegation_count = saturating_sub m.delegation_count 1 }

-- `rm_top_delegation`
unfoldable pub rm_top_delegation :
    (T : Config) → ℕ → ℕ → CandidateMetadata → Call T (Bool × CandidateMetadata)
rm_top_delegation T candidate delegator m = do
  top ← expect (← gets (λ (s : Storage T). s.top_delegations candidate))
  amount ← ok_or delegation_dne (matched_amount delegator top.delegations)
  (top', m') ←
      promote_highest_bottom T candidate
        (record {
          delegations = without delegator top.delegations;
          total = saturating_sub top.total amount;
        })
        m
  m'' ← reset_top_data T candidate top' m'
  insert_top T candidate top'
  pure (m.total_counted == m''.total_counted, count_down m'')

-- `rm_bottom_delegation`
unfoldable pub rm_bottom_delegation :
    (T : Config) → ℕ → ℕ → CandidateMetadata → Call T (Bool × CandidateMetadata)
rm_bottom_delegation T candidate delegator m = do
  bottom ← expect (← gets (λ (s : Storage T). s.bottom_delegations candidate))
  amount ← ok_or delegation_dne (matched_amount delegator bottom.delegations)
  let bottom' : Delegations = record {
    delegations = without delegator bottom.delegations;
    total = saturating_sub bottom.total amount;
  }
  insert_bottom T candidate bottom'
  pure (false, count_down (reset_bottom_data T bottom' m))

-- `rm_delegation_if_exists`
unfoldable pub rm_delegation_if_exists :
    (T : Config) → ℕ → ℕ → ℕ → CandidateMetadata → Call T (Bool × CandidateMetadata)
rm_delegation_if_exists T candidate delegator amount m =
    let geq = leb m.lowest_top_delegation_amount amount in
    let same = m.lowest_top_delegation_amount == m.highest_bottom_delegation_amount in
    if not (is_full m.top_capacity) || (geq && not same)
    then rm_top_delegation T candidate delegator m
    else if geq && same
    then on_error is_delegation_dne (rm_top_delegation T candidate delegator m)
        (rm_bottom_delegation T candidate delegator m)
    else rm_bottom_delegation T candidate delegator m
