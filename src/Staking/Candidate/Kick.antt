-- ===== src/Staking/Candidate/Kick.antt =====
-- The kick of the lowest bottom delegation in `add_bottom_delegation` of
-- pallets/sequencer-staking/src/types.rs.
use popsicle.Prelude.{ℕ, ◌-◌, ◌≡◌, ◌≢◌, ◌⊎◌, not, none, some, ◌∷◌, filter, length, ◌==◌, arith}
use popsicle.Prelude.Effects.{ok}
use popsicle.Staking.Types.{Bond, bond_key, Delegator}
use popsicle.Staking.Set.Laws.{IsOrdered}
use popsicle.Staking.Storage
use popsicle.Staking.Storage.{Config, Storage, delegator_left, delegation_kicked}
use popsicle.Staking.Delegator.{matched_amount, rm_delegation, delegation_remove_request_with_state}
use popsicle.Staking.Candidate.Book.{kick}
use popsicle.Staking.Candidate.Pending.{requests_of, first_amount, Dropped}

-- The entry `k` of the bottom of `c` belongs to a delegator whose state records a delegation to `c`,
-- which the pallet can pay out.
pub record IsKickable (T : Config) (c : ℕ) (s : Storage T) (k : Bond) : Type 0 where
  pub state : Delegator
  pub has_state : s.delegator_state k.owner ≡ some state
  pub amount : ℕ
  pub has_amount : matched_amount c state.delegations ≡ some amount
  pub ledger : T.Ledger
  pub pays : T.transfer T.account_id state.id amount s.ledger ≡ some ledger

-- What a kick does not touch.
pub record Frame (T : Config) (s t : Storage T) : Type 0 where
  pub top : t.top_delegations ≡ s.top_delegations
  pub bottom : t.bottom_delegations ≡ s.bottom_delegations
  pub info : t.candidate_info ≡ s.candidate_info
  pub pool : t.candidate_pool ≡ s.candidate_pool
  pub total : t.total ≡ s.total
  pub round : t.round ≡ s.round

pub kick-Frame :
    (T : Config) (c : ℕ) (s : Storage T) (k : Bond)
    → IsKickable T c s k
    → ((kick T c k s).0 ≡ ok tt) × Frame T s (kick T c k s).1
unfolding kick rm_delegation delegation_remove_request_with_state
kick-Frame T c s k h = ground arith

-- What a kick does to the delegator.
pub record Kicked (T : Config) (c : ℕ) (s : Storage T) (k : Bond) (h : IsKickable T c s k)
    (t : Storage T) : Type 0 where
  pub frame : Frame T s t
  pub ledger : t.ledger ≡ h.ledger
  pub requests : Dropped T c k.owner s t
  pub strangers : (j : ℕ) → j ≢ k.owner → t.delegator_state j ≡ s.delegator_state j
  pub fate :
      ((length h.state.delegations ≡ 1)
        × (t.delegator_state k.owner ≡ none)
        × (t.events
            ≡ delegator_left k.owner k.amount ∷ delegation_kicked k.owner c k.amount ∷ s.events))
      ⊎ ((length h.state.delegations ≢ 1)
          × (t.delegator_state k.owner
              ≡ some (record h.state {
                delegations = filter (λ b. not (b.owner == c)) h.state.delegations;
                total = h.state.total - h.amount;
                less_total =
                    h.state.less_total
                    - first_amount (requests_of k.owner (s.delegation_scheduled_requests c));
              }))
          × (t.events ≡ delegation_kicked k.owner c k.amount ∷ s.events))

module _ (T : Config) (c : ℕ) (s : Storage T) (k : Bond) (h : IsKickable T c s k)
    (set : IsOrdered bond_key h.state.delegations) where
  -- the delegator without the delegation
  abbrev left : Delegator
  left = record h.state {
    delegations = filter (λ b. not (b.owner == c)) h.state.delegations;
    total = h.state.total - h.amount;
  }

  -- and without its request
  abbrev settled : Delegator
  settled = record left {
    less_total =
        left.less_total - first_amount (requests_of k.owner (s.delegation_scheduled_requests c));
  }
