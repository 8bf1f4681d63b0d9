-- ===== src/Staking/Candidate/Adjusted.antt =====
-- The lists of a candidate after a raise or a cut in place, as the methods of `CandidateMetadata` in
-- pallets/sequencer-staking/src/types.rs make them.
use popsicle.Prelude.{
  ℕ, ◌+◌, ◌≤◌, ◌<◌, ◌≡◌, refl, true, some, List, [], ◌∷◌, length, sort_by, saturating_add,
  saturating_sub, max_balance, arith,
}
use popsicle.Staking.Types.{Bond, Delegations}
use popsicle.Staking.Delegations.{amount_geq}
use popsicle.Staking.Delegations.Insertion.{AtMost, AtLeast}
use popsicle.Staking.Delegations.Sums.{sum, count_owner}
use popsicle.Staking.Delegator.{matched_amount}
use popsicle.Staking.Candidate.Adjust.{adjust, delegates}
use popsicle.Staking.Candidate.Without.{matched-none}

module _ (o : ℕ) (f : ℕ → ℕ) where
  pub length-adjust : (ds : List Bond) → length (adjust o f ds) ≡ length ds
  length-adjust [] = refl
  length-adjust (x ∷ xs) = ground (arith, length-adjust xs)

  pub delegates-count : (ds : List Bond) → 0 < count_owner o ds → delegates o ds ≡ true
  delegates-count [] h = absurd (omega arith)
  delegates-count (x ∷ xs) h = ground (arith, delegates-count xs)

  sum-adjust_none : (ds : List Bond) → count_owner o ds ≡ 0 → sum (adjust o f ds) ≡ sum ds
  sum-adjust_none [] e = refl
  sum-adjust_none (x ∷ xs) e = ground (arith, sum-adjust_none xs)

  pub sum-adjust :
      (a : ℕ) (ds : List Bond)
      → count_owner o ds ≡ 1
      → matched_amount o ds ≡ some a
      → sum (adjust o f ds) + a ≡ sum ds + f a
  sum-adjust a [] e m = cc
  sum-adjust a (x ∷ xs) e m = ground (arith, sum-adjust a xs, sum-adjust_none xs, matched-none o xs)

  pub count-adjust : (p : ℕ) (ds : List Bond) → count_owner p (adjust o f ds) ≡ count_owner p ds
  count-adjust p [] = refl
  count-adjust p (x ∷ xs) = ground (arith, count-adjust p xs)

pub adjust-AtLeast :
    (n o more : ℕ) (ds : List Bond)
    → n ≤ max_balance
    → AtLeast n ds
    → AtLeast n (adjust o (λ a. saturating_add a more) ds)
adjust-AtLeast n o more [] fits a = tt
adjust-AtLeast n o more (x ∷ xs) fits a = ground (arith, adjust-AtLeast n o more xs fits a.1)

pub adjust-AtMost :
    (n o less : ℕ) (ds : List Bond)
    → AtMost n ds
    → AtMost n (adjust o (λ a. saturating_sub a less) ds)
adjust-AtMost n o less [] a = tt
adjust-AtMost n o less (x ∷ xs) a = ground (arith, adjust-AtMost n o less xs a.1)

-- The top after `o` has raised its delegation by `more`, and the bottom after it has cut its own by
-- `less`: the cut leaves the total as it was.
abbrev pub raised : ℕ → ℕ → Delegations → Delegations
raised o more top = record {
  delegations = sort_by amount_geq (adjust o (λ a. saturating_add a more) top.delegations);
  total = saturating_add top.total more;
}

abbrev pub cut : ℕ → ℕ → Delegations → Delegations
cut o less bottom = record {
  delegations = sort_by amount_geq (adjust o (λ a. saturating_sub a less) bottom.delegations);
  total = bottom.total;
}
