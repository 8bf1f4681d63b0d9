-- ===== src/Staking/Selection/Rewardable.antt =====
-- What `get_rewardable_delegators` of pallets/sequencer-staking/src/lib.rs counts.
use popsicle.Prelude.{
  ℕ, ◌+◌, ◌≤◌, ◌≡◌, refl, ap, Option, none, some, List, [], ◌∷◌, All, max_balance, arith,
}
use popsicle.Staking.Types.{Bond, DelegationAction, revoke, decrease, ScheduledRequest}
use popsicle.Staking.Delegations.Sums.{sum}
use popsicle.Staking.Selection.{
  owners, requested_action, count_delegations, intended_amount, uncounted_after,
}

-- A pending decrease does not exceed the delegation.
abbrev pub Fits : ℕ → Option DelegationAction → Type 0
Fits amount none = Unit
Fits amount (some (revoke _)) = Unit
Fits amount (some (decrease less)) = less ≤ amount

abbrev pub AllFit : List ScheduledRequest → List Bond → Type 0
AllFit requests = All λ (b : Bond). Fits b.amount (requested_action b.owner requests)

-- What one delegation adds to the uncounted stake is what it lacks afterwards.
counted_once :
    (u amount : ℕ) (a : Option DelegationAction)
    → Fits amount a
    → u + amount ≤ max_balance
    → uncounted_after u amount a + intended_amount amount a ≡ u + amount
counted_once u amount none h le = refl
counted_once u amount (some (revoke x)) h le = omega arith
counted_once u amount (some (decrease less)) h le = omega arith

-- Uncounted and rewardable stake make up the stake, with the uncounted stake so far.
pub count_delegations-sum :
    (requests : List ScheduledRequest) (u : ℕ) (bs : List Bond)
    → AllFit requests bs
    → u + sum bs ≤ max_balance
    → let counted = count_delegations requests u bs in
      counted.uncounted_stake + sum counted.rewardable_delegations ≡ u + sum bs
unfolding count_delegations
count_delegations-sum requests u [] h le = refl
count_delegations-sum requests u (b ∷ bs) h le =
    let once = counted_once u b.amount (requested_action b.owner requests) h.0 (omega arith) in
    omega (
      arith,
      once,
      count_delegations-sum requests
          (uncounted_after u b.amount (requested_action b.owner requests)) bs h.1
          (omega (arith, once)),
    )

-- The delegators stay the same, in their order.
pub count_delegations-owners :
    (requests : List ScheduledRequest) (u : ℕ) (bs : List Bond)
    → owners (count_delegations requests u bs).rewardable_delegations ≡ owners bs
unfolding count_delegations
count_delegations-owners requests u [] = refl
count_delegations-owners requests u (b ∷ bs) =
    ap (λ xs. b.owner ∷ xs)
      (count_delegations-owners requests
        (uncounted_after u b.amount (requested_action b.owner requests)) bs)
