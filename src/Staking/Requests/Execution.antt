-- ===== src/Staking/Requests/Execution.antt =====
-- The execution of a revocation of pallets/sequencer-staking/src/delegation_requests.rs.
use popsicle.Prelude.{
  ℕ, ap, ◌∙◌, ◌+◌, ◌-◌, ◌≤◌, ◌≡◌, ◌⊎◌, Bool, true, ◌||◌, none, some, length, position, get_elem?,
  remove_at, saturating_sub, max_balance, leb, ◌==◌, ==_self, arith,
}
use popsicle.Prelude.Effects.{ok}
use popsicle.Staking.Types.{
  Bond, Delegations, Delegator, revoke, ScheduledRequest, CandidateMetadata,
}
use popsicle.Staking.Storage.{Config, Storage}
use popsicle.Staking.Delegations.Sums.{weigh, sum}
use popsicle.Staking.Delegator.{matched_amount, rm_delegation}
use popsicle.Staking.Candidate.Book.{rm_delegation_if_exists}
use popsicle.Staking.Candidate.Untouched.{total-rm}
use popsicle.Staking.Candidate.Invariant.{HasBounds, IsBook}
use popsicle.Staking.Candidate.Finding.{OnlyIn, rm_delegation_if_exists-Removal}
use popsicle.Staking.Requests.{
  requested_by, execute_revoke, delegator_leaves_candidate, delegation_execute_scheduled_request,
}

-- A revocation of the whole of its delegation that is pending and due, by a delegator who keeps the
-- minimum or leaves, and that the pallet can pay.
pub record IsDue (T : Config) (sequencer delegator a : ℕ) (s : Storage T) : Type 0 where
  pub state : Delegator
  pub has_state : s.delegator_state delegator ≡ some state
  pub index : ℕ
  pub request : ScheduledRequest
  pub first :
      position (requested_by delegator) (s.delegation_scheduled_requests sequencer) ≡ some index
  pub has_request : get_elem? (s.delegation_scheduled_requests sequencer) index ≡ some request
  pub revokes : request.action ≡ revoke a
  pub due : request.when_executable ≤ s.round.current
  pub enough :
      ((length state.delegations == 1) || leb a (saturating_sub state.total T.min_delegation))
      ≡ true
  pub bonded : matched_amount sequencer state.delegations ≡ some a
  pub ledger : T.Ledger
  pub pays : T.transfer T.account_id state.id a s.ledger ≡ some ledger

-- The storage `t` after the revocation: the lists and metadata of the candidate are as they should be
-- and lack exactly the delegation, the amount has left the total, the request is gone, and a delegator
-- without another delegation is forgotten.
pub record Revoked (T : Config) (sequencer delegator a : ℕ) (top bottom : Delegations)
    (s : Storage T) (due : IsDue T sequencer delegator a s) (t : Storage T) : Type 0 where
  pub m' : CandidateMetadata
  pub top' : Delegations
  pub bottom' : Delegations
  pub info : t.candidate_info sequencer ≡ some m'
  pub book : IsBook T sequencer m' t top' bottom'
  pub kept :
      (f : Bond → ℕ)
      → weigh f top'.delegations
          + weigh f bottom'.delegations
          + f (record { owner = delegator; amount = a })
        ≡ weigh f top.delegations + weigh f bottom.delegations
  pub total : t.total ≡ s.total - a
  pub requests :
      t.delegation_scheduled_requests sequencer
      ≡ remove_at due.index (s.delegation_scheduled_requests sequencer)
  pub forgotten : length due.state.delegations ≡ 1 → t.delegator_state delegator ≡ none

module _ (T : Config) (sequencer delegator a : ℕ) (m : CandidateMetadata) (s : Storage T)
    (top bottom : Delegations) (due : IsDue T sequencer delegator a s)
    (known : s.candidate_info sequencer ≡ some m) where
  -- the storage once the amount has been paid
  paid : Storage T
  paid = record s { ledger = due.ledger }

  -- What the removal from the lists leaves.
  removed : Storage T
  unfolding paid
  removed = (rm_delegation_if_exists T sequencer delegator a m paid).1

  execution_effect :
      (changed : Bool) (m' : CandidateMetadata)
      → (rm_delegation_if_exists T sequencer delegator a m paid).0 ≡ ok (changed, m')
      → let (r, t) = delegation_execute_scheduled_request T sequencer delegator s in
        (r ≡ ok tt)
        × (t.candidate_info sequencer ≡ some m')
        × (t.top_delegations ≡ removed.top_delegations)
        × (t.bottom_delegations ≡ removed.bottom_delegations)
        × (t.candidate_pool ≡ removed.candidate_pool)
        × (t.total ≡ removed.total - a)
        × (t.delegation_scheduled_requests sequencer
            ≡ remove_at due.index (s.delegation_scheduled_requests sequencer))
        × (length due.state.delegations ≡ 1 → t.delegator_state delegator ≡ none)
  unfolding removed paid delegation_execute_scheduled_request execute_revoke
      delegator_leaves_candidate rm_delegation
  execution_effect changed m' runs = ground (
    arith,
    due.has_state,
    due.first,
    due.has_request,
    due.revokes,
    due.due,
    due.enough,
    due.bonded,
    due.pays,
    known,
    runs,
    ==_self sequencer,
    ==_self delegator,
  )

  paid-IsBook : IsBook T sequencer m s top bottom → IsBook T sequencer m paid top bottom
  unfolding paid
  paid-IsBook b = record {
    has_top = b.has_top;
    has_bottom = b.has_bottom;
    split = b.split;
    caches = b.caches;
    listed = b.listed;
  }

  moved-IsBook :
      (m' : CandidateMetadata) (top' bottom' : Delegations) (t : Storage T)
      → t.top_delegations ≡ removed.top_delegations
      → t.bottom_delegations ≡ removed.bottom_delegations
      → t.candidate_pool ≡ removed.candidate_pool
      → IsBook T sequencer m' removed top' bottom'
      → IsBook T sequencer m' t top' bottom'
  moved-IsBook m' top' bottom' t p q r b = record {
    has_top = rw p b.has_top;
    has_bottom = rw q b.has_bottom;
    split = b.split;
    caches = b.caches;
    listed = rw r b.listed;
  }

-- A revocation that is pending and due, of the only delegation that the delegator has to the
-- candidate, is executed: if the lists and the metadata of the candidate are as they should be, with
-- positive bounds and a top that adds up to a balance, and the pallet can pay, then the call succeeds,
-- the lists and the metadata are as they should be again and have lost exactly that delegation, the
-- request is gone, the amount has left the total, and a delegator without another delegation is
-- forgotten.
pub delegation_execute_scheduled_request-Revoked :
    (T : Config) (sequencer delegator a : ℕ) (m : CandidateMetadata) (s : Storage T)
    (top bottom : Delegations)
    → HasBounds T
    → (due : IsDue T sequencer delegator a s) → s.candidate_info sequencer ≡ some m
    → IsBook T sequencer m s top bottom
    → sum top.delegations ≤ max_balance
    → OnlyIn delegator a top bottom ⊎ OnlyIn delegator a bottom top
    → let (r, t) = delegation_execute_scheduled_request T sequencer delegator s in
      (r ≡ ok tt) × Revoked T sequencer delegator a top bottom s due t
unfolding removed paid
delegation_execute_scheduled_request-Revoked T sequencer delegator a m s top bottom h due known b
      fits only =
    let gone =
      rm_delegation_if_exists-Removal T sequencer delegator a m
        (paid T sequencer delegator a m s top bottom due known) top bottom h
        (paid-IsBook T sequencer delegator a m s top bottom due known b) fits only in
    let effect =
      execution_effect T sequencer delegator a m s top bottom due known gone.changed gone.m'
        gone.runs in
    (
      effect.0,
      record {
        m' = gone.m';
        top' = gone.top';
        bottom' = gone.bottom';
        info = effect.1;
        book =
            moved-IsBook T sequencer delegator a m s top bottom due known gone.m' gone.top'
              gone.bottom' (delegation_execute_scheduled_request T sequencer delegator s).1 effect.2
              effect.3 effect.4 gone.book;
        kept = gone.kept;
        total =
            effect.5
            ∙ ap (λ n. n - a)
                (total-rm T sequencer delegator a m
                  (paid T sequencer delegator a m s top bottom due known));
        requests = effect.6;
        forgotten = effect.7;
      },
    )
