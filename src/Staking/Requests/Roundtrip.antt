-- ===== src/Staking/Requests/Roundtrip.antt =====
-- Scheduling and cancelling a request of pallets/sequencer-staking/src/delegation_requests.rs.
use popsicle.Prelude.{
  ℕ, ◌+◌, ◌-◌, ◌≤◌, ◌<◌, ◌≡◌, refl, Bool, true, false, ◌&&◌, some, List, [], ◌∷◌, length, any,
  position, get_elem?, remove_at, push, update, saturating_add, saturating_sub, saturating_add_u32,
  max_balance, max_u32, ==_self, ==_iff, arith,
}
use popsicle.Prelude.Effects.{ok, err}
use popsicle.Staking.Types.{
  Delegator, DelegationAction, revoke, decrease, action_amount, ScheduledRequest,
}
use popsicle.Staking.Storage.{Config, Storage, pending_delegation_request_not_due_yet}
use popsicle.Staking.Delegator.{get_bond_amount, cancel_request_with_state}
use popsicle.Staking.Requests.{
  requested_by, is_revoke, record_request, delegation_request_revoke_exists,
  delegation_schedule_revoke, delegation_schedule_bond_decrease, delegation_cancel_request,
  delegation_execute_scheduled_request,
}

module _ {A : Type 0} (p : A → Bool) where
  position-push :
      (xs : List A) (x : A)
      → any p xs ≡ false
      → p x ≡ true
      → position p (push xs x) ≡ some (length xs)
  position-push [] x e f = ground (arith, f)
  position-push (y ∷ ys) x e f = ground (arith, position-push ys x, f)

  get_elem?-push : (xs : List A) (x : A) → get_elem? (push xs x) (length xs) ≡ some x
  get_elem?-push [] x = refl
  get_elem?-push (y ∷ ys) x = get_elem?-push ys x

  remove_at-push : (xs : List A) (x : A) → remove_at (length xs) (push xs x) ≡ xs
  remove_at-push [] x = refl
  remove_at-push (y ∷ ys) x = ground (arith, remove_at-push ys x)

  any-push : (xs : List A) (x : A) → p x ≡ true → any p (push xs x) ≡ true
  any-push [] x f = ground (arith, f)
  any-push (y ∷ ys) x f = ground (arith, any-push ys x f)

-- The request that was pushed last is the one that is taken out.
cancel_request_with_state-push :
    (state : Delegator) (requests : List ScheduledRequest) (r : ScheduledRequest)
    → any (requested_by r.delegator) requests ≡ false
    → cancel_request_with_state r.delegator state (push requests r)
      ≡ some (
        r,
        record state { less_total = saturating_sub state.less_total (action_amount r.action) },
        requests,
      )
unfolding cancel_request_with_state
cancel_request_with_state-push state requests r e = ground (
  arith,
  position-push (requested_by r.delegator) requests r e (==_self r.delegator),
  get_elem?-push (requested_by r.delegator) requests r,
  remove_at-push (requested_by r.delegator) requests r,
)

-- A delegator who has a delegation, no pending request for it, and room for one.
pub record IsFree (T : Config) (sequencer delegator amount : ℕ) (state : Delegator) (s : Storage T)
    : Type 0 where
  pub has_state : s.delegator_state delegator ≡ some state
  pub bonded : get_bond_amount sequencer state ≡ some amount
  pub none_pending :
      any (requested_by delegator) (s.delegation_scheduled_requests sequencer) ≡ false
  pub room :
      length (s.delegation_scheduled_requests sequencer)
      < T.max_top_delegations_per_candidate + T.max_bottom_delegations_per_candidate

-- The requests and the states of all delegators are those of `s`, and so are the lists, the
-- candidates, the pool, the total and the balances.
pub record Restored (T : Config) (s t : Storage T) : Type 0 where
  pub requests : (k : ℕ) → t.delegation_scheduled_requests k ≡ s.delegation_scheduled_requests k
  pub states : (k : ℕ) → t.delegator_state k ≡ s.delegator_state k
  pub top : t.top_delegations ≡ s.top_delegations
  pub bottom : t.bottom_delegations ≡ s.bottom_delegations
  pub info : t.candidate_info ≡ s.candidate_info
  pub pool : t.candidate_pool ≡ s.candidate_pool
  pub total : t.total ≡ s.total
  pub ledger : t.ledger ≡ s.ledger

module _ (T : Config) (sequencer delegator amount : ℕ) (state : Delegator) (s : Storage T)
    (free : IsFree T sequencer delegator amount state s) where
  request : DelegationAction → ScheduledRequest
  request action = record {
    delegator = delegator;
    when_executable = saturating_add_u32 s.round.current T.revoke_delegation_delay;
    action = action;
  }

  recorded_requests : DelegationAction → List ScheduledRequest
  unfolding request
  recorded_requests action = push (s.delegation_scheduled_requests sequencer) (request action)

  recorded_state : DelegationAction → Delegator
  recorded_state action = record state {
    less_total = saturating_add state.less_total (action_amount action);
  }

  cancelled :
      (action : DelegationAction)
      → state.less_total + action_amount action ≤ max_balance
      → cancel_request_with_state delegator (recorded_state action) (recorded_requests action)
        ≡ some (request action, state, s.delegation_scheduled_requests sequencer)
  unfolding recorded_state recorded_requests request
  cancelled action fits = ground (
    arith,
    cancel_request_with_state-push (recorded_state action)
        (s.delegation_scheduled_requests sequencer) (request action) free.none_pending,
    fits,
  )

  -- The storage after a call that records `action`, with any events.
  IsRecorded : DelegationAction → Storage T → Type 0
  IsRecorded action t =
      (t.delegation_scheduled_requests
        ≡ update s.delegation_scheduled_requests sequencer (recorded_requests action))
      × (t.delegator_state ≡ update s.delegator_state delegator (some (recorded_state action)))
      × (t.top_delegations ≡ s.top_delegations)
      × (t.bottom_delegations ≡ s.bottom_delegations)
      × (t.candidate_info ≡ s.candidate_info)
      × (t.candidate_pool ≡ s.candidate_pool)
      × (t.total ≡ s.total)
      × (t.ledger ≡ s.ledger)
      × (t.round ≡ s.round)

  cancel-Restored :
      (action : DelegationAction) (t : Storage T)
      → state.less_total + action_amount action ≤ max_balance
      → IsRecorded action t
      → ((delegation_cancel_request T sequencer delegator t).0 ≡ ok tt)
        × Restored T s (delegation_cancel_request T sequencer delegator t).1
  unfolding delegation_cancel_request IsRecorded
  cancel-Restored action t fits rec =
      let gone = cancelled action fits in
      (
        ground (arith, rec, gone),
        record {
          requests = λ k. ground (arith, rec, gone, ==_iff k sequencer);
          states = λ k. ground (arith, rec, gone, ==_iff k delegator, free.has_state);
          top = ground (arith, rec, gone);
          bottom = ground (arith, rec, gone);
          info = ground (arith, rec, gone);
          pool = ground (arith, rec, gone);
          total = ground (arith, rec, gone);
          ledger = ground (arith, rec, gone);
        },
      )

  revoke-IsRecorded :
      ((delegation_schedule_revoke T sequencer delegator s).0 ≡ ok tt)
      × IsRecorded (revoke amount) (delegation_schedule_revoke T sequencer delegator s).1
  unfolding delegation_schedule_revoke record_request IsRecorded recorded_state recorded_requests
      request
  revoke-IsRecorded = ground (arith, free.has_state, free.bonded, free.none_pending, free.room)

  decrease-IsRecorded :
      (less : ℕ)
      → less < amount
      → T.min_delegation ≤ amount - less
      → less ≤ state.total - state.less_total - T.min_delegation
      → ((delegation_schedule_bond_decrease T sequencer delegator less s).0 ≡ ok tt)
        × IsRecorded
            (decrease less)
            (delegation_schedule_bond_decrease T sequencer delegator less s).1
  unfolding delegation_schedule_bond_decrease record_request IsRecorded recorded_state
      recorded_requests request
  decrease-IsRecorded less a b c =
      ground (arith, free.has_state, free.bonded, free.none_pending, free.room)

  -- A request that was recorded in the round of `s` is not executed in that round if there is a delay.
  early-refused :
      (action : DelegationAction) (t : Storage T)
      → 0 < T.revoke_delegation_delay
      → s.round.current + T.revoke_delegation_delay ≤ max_u32
      → IsRecorded action t
      → delegation_execute_scheduled_request T sequencer delegator t
        ≡ (err pending_delegation_request_not_due_yet, t)
  unfolding delegation_execute_scheduled_request IsRecorded recorded_state recorded_requests request
  early-refused action t delay fits rec = ground (
    arith,
    rec,
    ==_self sequencer,
    ==_self delegator,
    position-push (requested_by delegator) (s.delegation_scheduled_requests sequencer)
        (request action) free.none_pending (==_self delegator),
    get_elem?-push (requested_by delegator) (s.delegation_scheduled_requests sequencer)
        (request action),
  )

-- A delegator with a delegation, no pending request for it and room for one schedules its revocation:
-- the call succeeds, the revocation is pending, and to cancel it succeeds and restores the requests
-- and the states of all delegators and changes neither lists, candidates, pool, total nor balances, if
-- the pending amounts and the delegation add up to a balance.
pub delegation_schedule_revoke-Restored :
    (T : Config) (sequencer delegator amount : ℕ) (state : Delegator) (s : Storage T)
    → IsFree T sequencer delegator amount state s
    → state.less_total + amount ≤ max_balance
    → let (r, t) = delegation_schedule_revoke T sequencer delegator s in
      let (r', u) = delegation_cancel_request T sequencer delegator t in
      (r ≡ ok tt)
      × (delegation_request_revoke_exists T sequencer delegator t ≡ true)
      × (r' ≡ ok tt)
      × Restored T s u
unfolding delegation_request_revoke_exists IsRecorded recorded_requests request
delegation_schedule_revoke-Restored T sequencer delegator amount state s free fits =
    let (runs, rec) = revoke-IsRecorded T sequencer delegator amount state s free in
    let t : Storage T = (delegation_schedule_revoke T sequencer delegator s).1 in
    let (undone, same) =
      cancel-Restored T sequencer delegator amount state s free (revoke amount) t fits rec in
    (
      runs,
      ground (
        arith,
        rec.0,
        ==_self sequencer,
        any-push (λ (req : ScheduledRequest). requested_by delegator req && is_revoke req.action)
            (s.delegation_scheduled_requests sequencer)
            (request T sequencer delegator amount state s free (revoke amount))
            (ground (arith, ==_self delegator)),
      ),
      undone,
      same,
    )

-- The same for a decrease by `less`, which is smaller than the delegation, leaves it at least the
-- minimum, and leaves the total of the delegator, less what is pending, at least the minimum.
delegation_schedule_bond_decrease-Restored :
    (T : Config) (sequencer delegator amount less : ℕ) (state : Delegator) (s : Storage T)
    → IsFree T sequencer delegator amount state s
    → less < amount
    → T.min_delegation ≤ amount - less
    → less ≤ state.total - state.less_total - T.min_delegation
    → state.less_total + less ≤ max_balance
    → let (r, t) = delegation_schedule_bond_decrease T sequencer delegator less s in
      let (r', u) = delegation_cancel_request T sequencer delegator t in
      (r ≡ ok tt) × (r' ≡ ok tt) × Restored T s u
delegation_schedule_bond_decrease-Restored T sequencer delegator amount less state s free a b c
      fits =
    let (runs, rec) = decrease-IsRecorded T sequencer delegator amount state s free less a b c in
    let t : Storage T = (delegation_schedule_bond_decrease T sequencer delegator less s).1 in
    let (undone, same) =
      cancel-Restored T sequencer delegator amount state s free (decrease less) t fits rec in
    (runs, undone, same)

-- With a positive delay and a round that does not overflow, a revocation that a delegator with a
-- delegation, no pending request for it and room for one has scheduled is not executed in the round in
-- which it was scheduled: the execution fails and changes nothing.
pub delegation_schedule_revoke_early :
    (T : Config) (sequencer delegator amount : ℕ) (state : Delegator) (s : Storage T)
    → IsFree T sequencer delegator amount state s
    → 0 < T.revoke_delegation_delay
    → s.round.current + T.revoke_delegation_delay ≤ max_u32
    → let (r, t) = delegation_schedule_revoke T sequencer delegator s in
      (r ≡ ok tt)
      × (delegation_execute_scheduled_request T sequencer delegator t
          ≡ (err pending_delegation_request_not_due_yet, t))
delegation_schedule_revoke_early T sequencer delegator amount state s free delay fits =
    let (runs, rec) = revoke-IsRecorded T sequencer delegator amount state s free in
    (
      runs,
      early-refused T sequencer delegator amount state s free (revoke amount)
          (delegation_schedule_revoke T sequencer delegator s).1 delay fits rec,
    )
