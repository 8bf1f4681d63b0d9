-- ===== src/Staking/CallExamples.antt =====
-- Concrete calls of pallets/sequencer-staking: a history of candidates, and requests of delegators.
use popsicle.Prelude.{ℕ, ◌≡◌, inl, inr, refl, true, [], ◌∷◌, some, update, arith}
use popsicle.Prelude.Effects.{ok, err}
use popsicle.Staking.Types.{revoke}
use popsicle.Staking.Set.{try_insert, remove}
use popsicle.Staking.Storage.{Storage, pending_delegation_request_not_due_yet}
use popsicle.Staking.Calls.{
  join_candidates_inner, go_offline_inner, candidate_bond_more_inner, enter_pool, leave_pool,
}
use popsicle.Staking.Pool.{update_active}
use popsicle.Staking.Candidate.Bond.{bond_more}
use popsicle.Staking.Delegator.{
  get_bond_amount, rm_delegation, delegation_remove_request_with_state,
}
use popsicle.Staking.Delegations.{insert_sorted_greatest_to_least}
use popsicle.Staking.Candidate.Book.{
  add_delegation, add_top_delegation, bump_lowest_top, add_bottom_delegation, make_room, kick,
  reset_top_data,
}
use popsicle.Staking.Calls.Enrolment.{Agrees}
use popsicle.Staking.Calls.History.{
  Reach, here, next, joins, goes_offline, bonds_more, Reach-Agrees,
}
use popsicle.Staking.Requests.{
  delegation_request_revoke_exists, delegation_schedule_revoke, delegation_cancel_request,
  delegation_execute_scheduled_request,
}
use popsicle.Staking.Requests.Roundtrip.{
  IsFree, Restored, delegation_schedule_revoke-Restored, delegation_schedule_revoke_early,
}
use popsicle.Staking.Requests.Execution.{
  IsDue, Revoked, delegation_execute_scheduled_request-Revoked,
}
use popsicle.Staking.Delegating.{delegate_inner}
use popsicle.Staking.Delegating.Joining.{IsOpen, Delegated, delegate_inner-Delegated}
use popsicle.Staking.Sample.{
  pay, small_config, bond, full_top, full_bottom, packed, lowest_delegator, staked, two_candidates,
  has_bounds, is_book, can_make_room,
}

-- both listed candidates with their metadata
abbrev enrolled : Storage small_config
enrolled = record staked {
  candidate_info = update staked.candidate_info 2 (some (record packed { total_counted = 60 }));
}

enrolled-Agrees : Agrees small_config enrolled
enrolled-Agrees = record {
  ordered = two_candidates;
  bounded = omega arith;
  agrees = λ c. ground arith;
}

-- Account 5 joins, candidate 1 goes offline, candidate 2 raises its bond.
abbrev joined : Storage small_config
joined = (join_candidates_inner small_config 5 4 enrolled).1

abbrev rested : Storage small_config
rested = (go_offline_inner small_config 1 joined).1

history : Reach small_config enrolled (candidate_bond_more_inner small_config 2 40 rested).1
history =
    next (next (next here (joins enrolled 5 4)) (goes_offline joined 1)) (bonds_more rested 2 40)

Reach-Agrees_example : Agrees small_config (candidate_bond_more_inner small_config 2 40 rested).1
Reach-Agrees_example = Reach-Agrees small_config enrolled-Agrees history

pool_after :
    (candidate_bond_more_inner small_config 2 40 rested).1.candidate_pool
    ≡ bond 2 100 ∷ bond 5 0 ∷ []
unfolding candidate_bond_more_inner go_offline_inner join_candidates_inner enter_pool try_insert
    leave_pool remove bond_more update_active
pool_after = refl

is_free : IsFree small_config 1 13 5 lowest_delegator staked
unfolding get_bond_amount
is_free = record { has_state = refl; bonded = refl; none_pending = refl; room = omega arith }

delegation_schedule_revoke-Restored_example :
    let (r, t) = delegation_schedule_revoke small_config 1 13 staked in
    let (r', u) = delegation_cancel_request small_config 1 13 t in
    (r ≡ ok tt)
    × (delegation_request_revoke_exists small_config 1 13 t ≡ true)
    × (r' ≡ ok tt)
    × Restored small_config staked u
delegation_schedule_revoke-Restored_example =
    delegation_schedule_revoke-Restored small_config 1 13 5 lowest_delegator staked is_free
      (omega arith)

delegation_schedule_revoke_early_example :
    let (r, t) = delegation_schedule_revoke small_config 1 13 staked in
    (r ≡ ok tt)
    × (delegation_execute_scheduled_request small_config 1 13 t
        ≡ (err pending_delegation_request_not_due_yet, t))
delegation_schedule_revoke_early_example =
    delegation_schedule_revoke_early small_config 1 13 5 lowest_delegator staked is_free
      (omega arith) (omega arith)

-- The revocation of the delegation of 13 to candidate 1 is due.
abbrev waiting : Storage small_config
waiting = record staked {
  delegation_scheduled_requests =
      update staked.delegation_scheduled_requests 1
        (record { delegator = 13; when_executable = 1; action = revoke 5 } ∷ []);
}

is_due : IsDue small_config 1 13 5 waiting
is_due = record {
  state = lowest_delegator;
  has_state = refl;
  index = 0;
  request = record { delegator = 13; when_executable = 1; action = revoke 5 };
  first = refl;
  has_request = refl;
  revokes = refl;
  due = omega arith;
  enough = refl;
  bonded = refl;
  ledger = _;
  pays = refl;
}

delegation_execute_scheduled_request-Revoked_example :
    let (r, t) = delegation_execute_scheduled_request small_config 1 13 waiting in
    (r ≡ ok tt) × Revoked small_config 1 13 5 full_top full_bottom waiting is_due t
delegation_execute_scheduled_request-Revoked_example =
    delegation_execute_scheduled_request-Revoked small_config 1 13 5 packed waiting full_top
      full_bottom has_bounds is_due refl
      (record {
        has_top = is_book.has_top;
        has_bottom = is_book.has_bottom;
        split = is_book.split;
        caches = is_book.caches;
        listed = is_book.listed;
      })
      (omega arith) (inr (refl, refl, refl))

is_open : IsOpen small_config 1 14 25 4 0 packed staked
is_open = record {
  known = refl;
  active = refl;
  funds = omega arith;
  minimum = omega arith;
  counted = omega arith;
  place = inl (refl, refl);
}

-- Delegator 13 has been paid its 5, and delegator 14 pays 25.
abbrev balances_after : ℕ → ℕ
balances_after = update (update (update (update (λ _. 1000) 0 995) 13 1005) 14 975) 0 1020

pays :
    pay 14 0 25 (add_delegation small_config 1 (bond 14 25) packed staked).1.ledger
    ≡ some balances_after
unfolding add_delegation add_top_delegation bump_lowest_top add_bottom_delegation make_room kick
    rm_delegation delegation_remove_request_with_state reset_top_data
    insert_sorted_greatest_to_least update_active try_insert remove
pays = refl

delegate_inner-Delegated_example :
    let (r, t) = delegate_inner small_config 1 14 25 4 0 staked in
    (r ≡ ok tt) × Delegated small_config 1 14 25 full_top full_bottom staked t
delegate_inner-Delegated_example =
    delegate_inner-Delegated small_config 1 14 25 4 0 packed staked full_top full_bottom
      balances_after has_bounds is_open is_book can_make_room (omega arith)
      (inr (inl (omega arith))) pays
