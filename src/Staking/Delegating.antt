-- ===== src/Staking/Delegating.antt =====
-- The calls of delegators in pallets/sequencer-staking/src/lib.rs, `Delegator::increase_delegation` of
-- src/types.rs, and the exit of a candidate, which pays all its delegators.
pub mod Joining
use popsicle.Prelude.{
  ℕ, ◌+◌, ◌-◌, Bool, true, false, not, ◌||◌, ◌&&◌, Option, none, some, List, [], ◌∷◌, find?, length,
  update, saturating_add, saturating_sub, leb, ltb, ◌==◌, if◌then◌else◌,
}
use popsicle.Prelude.Effects.{
  ok, err, panic, pure, fail, gets, ok_or, expect, ensure, modify, ◌>>=◌, ◌>>◌,
}
use popsicle.Prelude.Origin.{Origin, ensure_root, ensure_signed}
use popsicle.Staking.Types.{
  Bond, Delegations, Delegator, DelegatorAdded, CandidateMetadata, is_active,
}
use popsicle.Staking.Storage.{
  Config, Storage, Call, deposit_event, transfer_btc, put_total, insert_candidate, insert_delegator,
  remove_delegator, bad_origin, candidate_dne, delegator_dne, delegation_dne, candidate_exists,
  candidate_not_leaving, insufficient_balance, delegation_below_min, pending_delegation_revoke,
  too_low_delegation_count_to_delegate, exceed_max_delegations_per_delegator,
  already_delegated_candidate, too_low_candidate_delegation_count_to_delegate,
  too_low_candidate_delegation_count_to_leave_candidates, delegation, delegation_increased,
  candidate_left,
}
use popsicle.Staking.Pool.{update_active}
use popsicle.Staking.Delegator.{
  new_delegator, add_delegation, rm_delegation, delegation_remove_request_with_state,
}
use popsicle.Staking.Candidate.Book
use popsicle.Staking.Candidate.Adjust
use popsicle.Staking.Candidate.Bond.{can_leave, bond_less}
use popsicle.Staking.Calls.{is_candidate}
use popsicle.Staking.Requests.{
  delegation_request_revoke_exists, delegation_schedule_revoke, delegation_schedule_bond_decrease,
  delegation_cancel_request, delegation_execute_scheduled_request,
}

-- The state of the delegator with the new delegation, in `delegate_inner`.
unfoldable pub joined_state : (T : Config) → ℕ → ℕ → ℕ → ℕ → Option Delegator → Call T Delegator
joined_state T candidate delegator amount hint none = do
  s ← gets (λ (s : Storage T). s)
  ensure (not (is_candidate T delegator s)) candidate_exists
  pure (new_delegator delegator candidate amount)
joined_state T candidate delegator amount hint (some state) = do
  ensure (leb (length state.delegations) hint) too_low_delegation_count_to_delegate
  ensure (ltb (length state.delegations) T.max_delegations_per_delegator)
      exceed_max_delegations_per_delegator
  let (added, state') = add_delegation (record { owner = candidate; amount = amount }) state
  ensure added already_delegated_candidate
  pure state'

abbrev active_candidate : Option CandidateMetadata → Bool
active_candidate none = false
active_candidate (some c) = is_active c

abbrev pub net_increase : ℕ → Option ℕ → ℕ
net_increase amount none = amount
net_increase amount (some less) = saturating_sub amount less

-- `delegate_inner`
unfoldable pub delegate_inner : (T : Config) → ℕ → ℕ → ℕ → ℕ → ℕ → Call T (Unit {0})
delegate_inner T candidate delegator amount candidate_delegation_count_hint delegation_count_hint =
    do
      s ← gets (λ (s : Storage T). s)
      ensure (active_candidate (s.candidate_info candidate)) candidate_dne
      ensure (leb amount (T.reducible_balance s.ledger delegator)) insufficient_balance
      ensure (leb T.min_delegation amount) delegation_below_min
      delegator_state ←
          joined_state T candidate delegator amount delegation_count_hint
            (s.delegator_state delegator)
      candidate_state ← ok_or candidate_dne (s.candidate_info candidate)
      ensure (leb candidate_state.delegation_count candidate_delegation_count_hint)
          too_low_candidate_delegation_count_to_delegate
      (delegator_position, less_total_staked, candidate_state') ←
          Book.add_delegation T candidate (record { owner = delegator; amount = amount })
            candidate_state
      transfer_btc T delegator T.account_id amount
      total ← gets (λ (s : Storage T). s.total)
      put_total T (saturating_add total (net_increase amount less_total_staked))
      insert_candidate T candidate candidate_state'
      insert_delegator T delegator delegator_state
      deposit_event T (delegation delegator amount candidate delegator_position)

-- `delegate`
unfoldable pub delegate : (T : Config) → Origin → ℕ → ℕ → ℕ → ℕ → Call T (Unit {0})
delegate T origin candidate amount candidate_delegation_count delegation_count = do
  delegator ← ensure_signed bad_origin origin
  delegate_inner T candidate delegator amount candidate_delegation_count delegation_count

-- The loop of an increase ends at the first delegation to the candidate.
abbrev pub raise_first : ℕ → ℕ → List Bond → List Bond
raise_first candidate amount [] = []
raise_first candidate amount (x ∷ xs) =
    let rest = raise_first candidate amount xs in
    if x.owner == candidate
    then record x { amount = saturating_add x.amount amount } ∷ xs
    else x ∷ rest

-- `Delegator::increase_delegation`
unfoldable pub increase_delegation : (T : Config) → ℕ → ℕ → Delegator → Call T Bool
increase_delegation T candidate amount d = do
  x ← ok_or delegation_dne (find? (λ (b : Bond). b.owner == candidate) d.delegations)
  let d' : Delegator = record d {
    delegations = raise_first candidate amount d.delegations;
    total = saturating_add d.total amount;
  }
  transfer_btc T d.id T.account_id amount
  sequencer_state ← ok_or candidate_dne (← gets (λ (s : Storage T). s.candidate_info candidate))
  (in_top, sequencer_state') ←
      Adjust.increase_delegation T candidate d.id x.amount amount sequencer_state
  if is_active sequencer_state'
        && not (sequencer_state.total_counted == sequencer_state'.total_counted)
      then update_active T candidate sequencer_state'.total_counted
      else pure tt
  insert_candidate T candidate sequencer_state'
  total ← gets (λ (s : Storage T). s.total)
  put_total T (saturating_add total amount)
  insert_delegator T d.id d'
  pure in_top

-- `delegation_bond_more_without_event`
unfoldable pub delegation_bond_more_without_event : (T : Config) → ℕ → ℕ → ℕ → Call T Bool
delegation_bond_more_without_event T delegator candidate more = do
  state ← ok_or delegator_dne (← gets (λ (s : Storage T). s.delegator_state delegator))
  s ← gets (λ (s : Storage T). s)
  ensure (not (delegation_request_revoke_exists T candidate delegator s)) pending_delegation_revoke
  increase_delegation T candidate more state

-- `delegator_bond_more`
unfoldable pub delegator_bond_more : (T : Config) → Origin → ℕ → ℕ → Call T (Unit {0})
delegator_bond_more T origin candidate more = do
  delegator ← ensure_signed bad_origin origin
  in_top ← delegation_bond_more_without_event T delegator candidate more
  deposit_event T (delegation_increased delegator candidate more in_top)

-- `schedule_revoke_delegation`
unfoldable pub schedule_revoke_delegation : (T : Config) → Origin → ℕ → Call T (Unit {0})
schedule_revoke_delegation T origin sequencer = do
  delegator ← ensure_signed bad_origin origin
  delegation_schedule_revoke T sequencer delegator

-- `schedule_delegator_bond_less`
unfoldable pub schedule_delegator_bond_less : (T : Config) → Origin → ℕ → ℕ → Call T (Unit {0})
schedule_delegator_bond_less T origin candidate less = do
  delegator ← ensure_signed bad_origin origin
  delegation_schedule_bond_decrease T candidate delegator less

-- `execute_delegation_request`
unfoldable pub execute_delegation_request : (T : Config) → Origin → ℕ → ℕ → Call T (Unit {0})
execute_delegation_request T origin delegator candidate = do
  ensure_signed bad_origin origin
  delegation_execute_scheduled_request T candidate delegator

-- `cancel_delegation_request`
unfoldable pub cancel_delegation_request : (T : Config) → Origin → ℕ → Call T (Unit {0})
cancel_delegation_request T origin candidate = do
  delegator ← ensure_signed bad_origin origin
  delegation_cancel_request T candidate delegator

-- the closure `return_stake` of `execute_leave_candidates_inner`
unfoldable pub return_stake : (T : Config) → ℕ → Bond → Call T (Unit {0})
return_stake T candidate bond = do
  delegator ← expect (← gets (λ (s : Storage T). s.delegator_state bond.owner))
  (remaining, delegator') ← rm_delegation T candidate delegator
  elim remaining [
    | none ↦ pure tt
    | some balance ↦ do
      delegator'' ← delegation_remove_request_with_state T candidate bond.owner delegator'
      if balance == 0
          then remove_delegator T bond.owner
          else insert_delegator T bond.owner delegator''
  ]

unfoldable pub return_stakes : (T : Config) → ℕ → List Bond → Call T (Unit {0})
unfolding return_stake
return_stakes T candidate [] = pure tt
return_stakes T candidate (b ∷ bs) = return_stake T candidate b >> return_stakes T candidate bs

-- `take` of a storage map that must have an entry
abbrev take_top : (T : Config) → ℕ → Call T Delegations
take_top T candidate = do
  top ← expect (← gets (λ (s : Storage T). s.top_delegations candidate))
  modify (λ s. record s { top_delegations = update s.top_delegations candidate none })
  pure top

abbrev take_bottom : (T : Config) → ℕ → Call T Delegations
take_bottom T candidate = do
  bottom ← expect (← gets (λ (s : Storage T). s.bottom_delegations candidate))
  modify (λ s. record s { bottom_delegations = update s.bottom_delegations candidate none })
  pure bottom

-- `execute_leave_candidates_inner`
unfoldable pub execute_leave_candidates_inner : (T : Config) → ℕ → Call T (Unit {0})
execute_leave_candidates_inner T candidate = do
  state ← ok_or candidate_dne (← gets (λ (s : Storage T). s.candidate_info candidate))
  can_leave T state
  top ← take_top T candidate
  return_stakes T candidate top.delegations
  bottom ← take_bottom T candidate
  return_stakes T candidate bottom.delegations
  let total_backing = saturating_add (saturating_add state.bond top.total) bottom.total
  modify (λ s. record s {
    ledger = T.remove_lock candidate s.ledger;
    candidate_info = update s.candidate_info candidate none;
    delegation_scheduled_requests = update s.delegation_scheduled_requests candidate [];
    top_delegations = update s.top_delegations candidate none;
    bottom_delegations = update s.bottom_delegations candidate none;
  })
  total ← gets (λ (s : Storage T). s.total)
  put_total T (saturating_sub total total_backing)
  deposit_event T (candidate_left candidate total_backing (saturating_sub total total_backing))

-- `execute_leave_candidates`
unfoldable pub execute_leave_candidates : (T : Config) → Origin → ℕ → ℕ → Call T (Unit {0})
execute_leave_candidates T origin candidate candidate_delegation_count = do
  ensure_signed bad_origin origin
  state ← ok_or candidate_dne (← gets (λ (s : Storage T). s.candidate_info candidate))
  ensure (leb state.delegation_count candidate_delegation_count)
      too_low_candidate_delegation_count_to_leave_candidates
  execute_leave_candidates_inner T candidate

-- `set_candidate_bond_to_zero`: what `bond_less` answers is dropped.
unfoldable pub set_candidate_bond_to_zero : (T : Config) → ℕ → Call T (Unit {0})
set_candidate_bond_to_zero T acc s = elim (s.candidate_info acc) [
  | none ↦ (ok tt, s)
  | some state ↦
      let (state', r, s') = bond_less T acc state.bond state s in
      elim r [
        | ok _ ↦ insert_candidate T acc state' s'
        | err _ ↦ insert_candidate T acc state' s'
        | panic ↦ (panic, s')
      ]
]
