-- ===== src/Staking/Delegator.antt =====
-- `Delegator` of pallets/sequencer-staking/src/types.rs, and the removal of its pending request.
use popsicle.Prelude.{
  ℕ, Bool, true, false, not, Option, none, some, List, [], ◌∷◌, filter, find?, position, get_elem?,
  remove_at, saturating_add, saturating_sub, ◌==◌, if◌then◌else◌,
}
use popsicle.Prelude.Effects.{pure, gets, expect_ok, ◌>>=◌, ◌>>◌}
use popsicle.Staking.Set.{from, insert}
use popsicle.Staking.Types.{
  Bond, bond_key, Delegator, DelegatorStatus, ScheduledRequest, action_amount,
}
use popsicle.Staking.Storage.{Config, Storage, Call, transfer_btc, insert_requests}

-- The amount that the closure of a filter over delegations has kept in the end, that of the last
-- delegation of `owner`.
abbrev pub matched_amount : ℕ → List Bond → Option ℕ
matched_amount owner [] = none
matched_amount owner (x ∷ xs) =
    let rest = matched_amount owner xs in
    elim rest [ some a ↦ some a | none ↦ if x.owner == owner then some x.amount else none ]

-- What such a filter lets through.
abbrev pub without : ℕ → List Bond → List Bond
without owner = filter λ x. not (x.owner == owner)

-- `Delegator::new`
unfoldable pub new_delegator : ℕ → ℕ → ℕ → Delegator
unfolding from
new_delegator id sequencer amount = record {
  id = id;
  delegations = from bond_key (record { owner = sequencer; amount = amount } ∷ []);
  total = amount;
  less_total = 0;
  status = DelegatorStatus.active;
}

-- `Delegator::add_delegation`: whether the bond was added, and the state after it.
unfoldable pub add_delegation : Bond → Delegator → Bool × Delegator
unfolding insert
add_delegation bond d =
    let (inserted, delegations) = insert bond_key bond d.delegations in
    if inserted
    then (true, record d { delegations = delegations; total = saturating_add d.total bond.amount })
    else (false, d)

-- `Delegator::total_sub`
abbrev pub total_sub : (T : Config) → ℕ → Delegator → Call T Delegator
total_sub T amount d = do
  transfer_btc T T.account_id d.id amount
  pure (record d { total = saturating_sub d.total amount })

-- `Delegator::rm_delegation`: the remaining total, if there was a delegation, and the state after it.
unfoldable pub rm_delegation : (T : Config) → ℕ → Delegator → Call T (Option ℕ × Delegator)
unfolding from
rm_delegation T sequencer d = elim (matched_amount sequencer d.delegations) [
  | none ↦ pure (none, d)
  | some balance ↦ do
    d' ← expect_ok (
        total_sub T balance
          (record d { delegations = from bond_key (without sequencer d.delegations) }))
    pure (some d'.total, d')
]

-- `Delegator::get_bond_amount`
unfoldable pub get_bond_amount : ℕ → Delegator → Option ℕ
get_bond_amount sequencer d = elim (find? (λ b. b.owner == sequencer) d.delegations) [
  | none ↦ none
  | some b ↦ some b.amount
]

-- `Pallet::cancel_request_with_state` of src/delegation_requests.rs: the request taken out, if there
-- is one, with the state and the requests after it.
unfoldable pub cancel_request_with_state :
    ℕ
    → Delegator
    → List ScheduledRequest
    → Option (ScheduledRequest × Delegator × List ScheduledRequest)
cancel_request_with_state delegator state requests =
    elim (position (λ req. req.delegator == delegator) requests) [
      | none ↦ none
      | some idx ↦ elim (get_elem? requests idx) [
        | none ↦ none
        | some request ↦ some (
          request,
          record state {
            less_total = saturating_sub state.less_total (action_amount request.action);
          },
          remove_at idx requests,
        )
      ]
    ]

-- `Pallet::delegation_remove_request_with_state` of src/delegation_requests.rs
unfoldable pub delegation_remove_request_with_state :
    (T : Config) → ℕ → ℕ → Delegator → Call T Delegator
unfolding cancel_request_with_state
delegation_remove_request_with_state T sequencer delegator state = do
  requests ← gets (λ (s : Storage T). s.delegation_scheduled_requests sequencer)
  elim (cancel_request_with_state delegator state requests) [
    | none ↦ pure state
    | some (_, state', requests') ↦ do insert_requests T sequencer requests'; pure state'
  ]
