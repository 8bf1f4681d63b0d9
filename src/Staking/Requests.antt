-- ===== src/Staking/Requests.antt =====
-- pallets/sequencer-staking/src/delegation_requests.rs: a delegator schedules the revocation or the
-- decrease of a delegation, and cancels or executes it later. With `delegator_leaves_candidate` of
-- src/lib.rs and `total_sub_if` of src/types.rs.
pub mod Roundtrip
pub mod Execution
use popsicle.Prelude.{
  ℕ, ◌+◌, ◌-◌, Bool, true, false, not, ◌||◌, ◌&&◌, Option, none, some, List, [], ◌∷◌, find?,
  position, get_elem?, remove_at, push, any, length, saturating_add, saturating_sub,
  saturating_add_u32, leb, ltb, ◌==◌, if◌then◌else◌,
}
use popsicle.Prelude.Effects.{ok, err, panic, pure, fail, gets, ok_or, expect, ensure, ◌>>=◌, ◌>>◌}
use popsicle.Staking.Types.{
  Bond, Delegator, DelegationAction, revoke, decrease, action_amount, ScheduledRequest,
}
use popsicle.Staking.Storage
use popsicle.Staking.Storage.{
  Config, Storage, Call, deposit_event, transfer_btc, put_total, insert_candidate, insert_delegator,
  remove_delegator, insert_requests, delegator_dne, delegation_dne, candidate_dne,
  pending_delegation_request_already_exists, exceed_max_delegations_per_delegator,
  delegator_bond_below_min, delegation_below_min, pending_delegation_request_dne,
  pending_delegation_request_not_due_yet, delegation_revocation_scheduled,
  delegation_decrease_scheduled, cancelled_delegation_request, delegation_revoked, delegator_left,
  delegation_decreased, delegator_left_candidate,
}
use popsicle.Staking.Delegator.{get_bond_amount, cancel_request_with_state, rm_delegation}
use popsicle.Staking.Candidate.Book.{rm_delegation_if_exists}
use popsicle.Staking.Candidate.Adjust.{decrease_delegation}

abbrev pub requested_by : ℕ → ScheduledRequest → Bool
requested_by delegator req = req.delegator == delegator

-- `delegation_request_exists`
unfoldable pub delegation_request_exists : (T : Config) → ℕ → ℕ → Storage T → Bool
delegation_request_exists T sequencer delegator s =
    any (requested_by delegator) (s.delegation_scheduled_requests sequencer)

abbrev is_revoke : DelegationAction → Bool
is_revoke (revoke _) = true
is_revoke (decrease _) = false

-- `delegation_request_revoke_exists`
unfoldable pub delegation_request_revoke_exists : (T : Config) → ℕ → ℕ → Storage T → Bool
delegation_request_revoke_exists T sequencer delegator s =
    any (λ (req : ScheduledRequest). requested_by delegator req && is_revoke req.action)
      (s.delegation_scheduled_requests sequencer)

-- `scheduled_requests.try_push(…)`, with the bound of the vector
abbrev pub push_request :
    (T : Config) → ScheduledRequest → List ScheduledRequest → Option (List ScheduledRequest)
push_request T r requests =
    if ltb (length requests)
      (T.max_top_delegations_per_candidate + T.max_bottom_delegations_per_candidate)
    then some (push requests r)
    else none

-- What both kinds of request do in the end, up to the event: the request and the amount are recorded.
unfoldable pub record_request :
    (T : Config)
    → ℕ
    → ℕ
    → ℕ
    → DelegationAction
    → Delegator
    → List ScheduledRequest
    → Call T (Unit {0})
record_request T sequencer delegator when action state requests = do
  requests' ← ok_or exceed_max_delegations_per_delegator (
      push_request T (record { delegator = delegator; when_executable = when; action = action })
        requests)
  insert_requests T sequencer requests'
  insert_delegator T delegator
      (record state { less_total = saturating_add state.less_total (action_amount action) })

-- `delegation_schedule_revoke`
unfoldable pub delegation_schedule_revoke : (T : Config) → ℕ → ℕ → Call T (Unit {0})
delegation_schedule_revoke T sequencer delegator = do
  state ← ok_or delegator_dne (← gets (λ (s : Storage T). s.delegator_state delegator))
  requests ← gets (λ (s : Storage T). s.delegation_scheduled_requests sequencer)
  ensure (not (any (requested_by delegator) requests)) pending_delegation_request_already_exists
  bonded_amount ← ok_or delegation_dne (get_bond_amount sequencer state)
  now ← gets (λ (s : Storage T). s.round.current)
  let when = saturating_add_u32 now T.revoke_delegation_delay
  record_request T sequencer delegator when (revoke bonded_amount) state requests
  deposit_event T (delegation_revocation_scheduled now delegator sequencer when)

-- `delegation_schedule_bond_decrease`; the delay is that of a revocation, as in the source.
unfoldable pub delegation_schedule_bond_decrease : (T : Config) → ℕ → ℕ → ℕ → Call T (Unit {0})
delegation_schedule_bond_decrease T sequencer delegator decrease_amount = do
  state ← ok_or delegator_dne (← gets (λ (s : Storage T). s.delegator_state delegator))
  requests ← gets (λ (s : Storage T). s.delegation_scheduled_requests sequencer)
  ensure (not (any (requested_by delegator) requests)) pending_delegation_request_already_exists
  bonded_amount ← ok_or delegation_dne (get_bond_amount sequencer state)
  ensure (ltb decrease_amount bonded_amount) delegator_bond_below_min
  ensure (leb T.min_delegation (bonded_amount - decrease_amount)) delegation_below_min
  let net_total = saturating_sub state.total state.less_total
  ensure (leb decrease_amount (saturating_sub net_total T.min_delegation)) delegator_bond_below_min
  now ← gets (λ (s : Storage T). s.round.current)
  let when = saturating_add_u32 now T.revoke_delegation_delay
  record_request T sequencer delegator when (decrease decrease_amount) state requests
  deposit_event T (delegation_decrease_scheduled delegator sequencer decrease_amount when)

-- `delegation_cancel_request`
unfoldable pub delegation_cancel_request : (T : Config) → ℕ → ℕ → Call T (Unit {0})
delegation_cancel_request T sequencer delegator = do
  state ← ok_or delegator_dne (← gets (λ (s : Storage T). s.delegator_state delegator))
  requests ← gets (λ (s : Storage T). s.delegation_scheduled_requests sequencer)
  (request, state', requests') ←
      ok_or pending_delegation_request_dne (cancel_request_with_state delegator state requests)
  insert_requests T sequencer requests'
  insert_delegator T delegator state'
  deposit_event T (
      cancelled_delegation_request delegator
        (record { when_executable = request.when_executable; action = request.action }) sequencer)

-- `delegator_leaves_candidate`
unfoldable pub delegator_leaves_candidate : (T : Config) → ℕ → ℕ → ℕ → Call T (Unit {0})
delegator_leaves_candidate T candidate delegator amount = do
  state ← ok_or candidate_dne (← gets (λ (s : Storage T). s.candidate_info candidate))
  (_, state') ← rm_delegation_if_exists T candidate delegator amount state
  total ← gets (λ (s : Storage T). s.total)
  put_total T (saturating_sub total amount)
  insert_candidate T candidate state'
  deposit_event T (delegator_left_candidate delegator candidate amount state'.total_counted)

-- `Delegator::total_sub_if`, where `test` on the new total decides whether it fails with `e`
unfoldable pub total_sub_if :
    (T : Config) → ℕ → (ℕ → Bool) → Storage.Error → Delegator → Call T Delegator
total_sub_if T amount test e d = do
  let total = saturating_sub d.total amount
  ensure (test total) e
  transfer_btc T T.account_id d.id amount
  pure (record d { total = total })

-- the revocation in `delegation_execute_scheduled_request`, with the requests that are left
unfoldable pub execute_revoke :
    (T : Config) → ℕ → ℕ → ℕ → Delegator → List ScheduledRequest → Call T (Unit {0})
execute_revoke T sequencer delegator amount state requests = do
  let leaving = length state.delegations == 1
  ensure (leaving || leb amount (saturating_sub state.total T.min_delegation))
      delegator_bond_below_min
  (_, state') ←
      rm_delegation T sequencer
        (record state { less_total = saturating_sub state.less_total amount })
  delegator_leaves_candidate T sequencer delegator amount
  deposit_event T (delegation_revoked delegator sequencer amount)
  insert_requests T sequencer requests
  if leaving
      then remove_delegator T delegator >> deposit_event T (delegator_left delegator amount)
      else insert_delegator T delegator state'

-- The loop of a decrease ends at the first delegation to the sequencer.
abbrev pub lower_first : ℕ → ℕ → List Bond → List Bond
lower_first sequencer amount [] = []
lower_first sequencer amount (x ∷ xs) =
    let rest = lower_first sequencer amount xs in
    if x.owner == sequencer
    then record x { amount = saturating_sub x.amount amount } ∷ xs
    else x ∷ rest

-- the decrease in `delegation_execute_scheduled_request`, with the requests that are left
unfoldable pub execute_decrease :
    (T : Config) → ℕ → ℕ → ℕ → Delegator → List ScheduledRequest → Call T (Unit {0})
execute_decrease T sequencer delegator amount state requests = do
  bond ← ok_or delegation_dne (find? (λ (b : Bond). b.owner == sequencer) state.delegations)
  ensure (ltb amount bond.amount) delegation_below_min
  sequencer_info ← ok_or candidate_dne (← gets (λ (s : Storage T). s.candidate_info sequencer))
  state' ← total_sub_if T amount (leb T.min_delegation) delegation_below_min (record state {
    less_total = saturating_sub state.less_total amount;
    delegations = lower_first sequencer amount state.delegations;
  })
  (in_top, sequencer_info') ←
      decrease_delegation T sequencer delegator bond.amount amount sequencer_info
  insert_candidate T sequencer sequencer_info'
  total ← gets (λ (s : Storage T). s.total)
  put_total T (saturating_sub total amount)
  insert_requests T sequencer requests
  insert_delegator T delegator state'
  deposit_event T (delegation_decreased delegator sequencer amount in_top)

abbrev run_action :
    (T : Config) → ℕ → ℕ → DelegationAction → Delegator → List ScheduledRequest → Call T (Unit {0})
run_action T sequencer delegator (revoke amount) state requests =
    execute_revoke T sequencer delegator amount state requests
run_action T sequencer delegator (decrease amount) state requests =
    execute_decrease T sequencer delegator amount state requests

-- `delegation_execute_scheduled_request`
unfoldable pub delegation_execute_scheduled_request : (T : Config) → ℕ → ℕ → Call T (Unit {0})
delegation_execute_scheduled_request T sequencer delegator = do
  state ← ok_or delegator_dne (← gets (λ (s : Storage T). s.delegator_state delegator))
  requests ← gets (λ (s : Storage T). s.delegation_scheduled_requests sequencer)
  idx ← ok_or pending_delegation_request_dne (position (requested_by delegator) requests)
  request ← expect (get_elem? requests idx)
  now ← gets (λ (s : Storage T). s.round.current)
  ensure (leb request.when_executable now) pending_delegation_request_not_due_yet
  run_action T sequencer delegator request.action state (remove_at idx requests)
