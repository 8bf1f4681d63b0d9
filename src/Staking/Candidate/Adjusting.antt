-- ===== src/Staking/Candidate/Adjusting.antt =====
-- What the raise and the cut of a delegation in its list promise: `increase_top_delegation` and
-- `decrease_bottom_delegation` of `CandidateMetadata` in pallets/sequencer-staking/src/types.rs.
use popsicle.Prelude.{
  ℕ, ◌+◌, ◌≤◌, ◌<◌, ◌≡◌, refl, ◌∙◌, true, false, some, length, last?, saturating_add,
  saturating_sub, max_balance, ◌==◌, if◌then◌else◌, arith,
}
use popsicle.Prelude.Effects.{ok}
use popsicle.Staking.Types.{Bond, Delegations, CandidateMetadata, is_active}
use popsicle.Staking.Storage.{Config, Storage}
use popsicle.Staking.Pool.Laws.{IsListed}
use popsicle.Staking.Delegations.{sort_greatest_to_least, lowest_delegation_amount}
use popsicle.Staking.Delegations.Insertion.{AtMost-mono, sort_by-IsDescending}
use popsicle.Staking.Delegations.Sums.{
  sum, count_owner, weigh-sort_by, length-sort_by, sort_by-AtLeast, sort_by-AtMost, AtLeast-lowest,
  lowest-AtLeast, last-some,
}
use popsicle.Staking.Delegator.{matched_amount}
use popsicle.Staking.Candidate.Book.{with_top, reset_bottom_data}
use popsicle.Staking.Candidate.Adjust.{adjust, increase_top_delegation, decrease_bottom_delegation}
use popsicle.Staking.Candidate.Invariant.{HasBounds, IsBook}
use popsicle.Staking.Candidate.Adding.{reset_top_lem}
use popsicle.Staking.Candidate.Without.{length-le-count, amount-le-sum, amount-le-sum_last}
use popsicle.Staking.Candidate.Adjusted.{
  length-adjust, delegates-count, sum-adjust, count-adjust, adjust-AtLeast, adjust-AtMost, raised,
  cut,
}
use popsicle.Staking.Candidate.Finding.{OnlyIn}

module _ (T : Config) (c o a : ℕ) (m : CandidateMetadata) (s : Storage T) (top bottom : Delegations)
    (h : HasBounds T) (b : IsBook T c m s top bottom) where
  raise_effect :
      (more : ℕ)
      → 0 < count_owner o top.delegations
      → let (r, s') = increase_top_delegation T c o more m s in
        (r ≡ ok (true, with_top T (raised o more top) m))
        × (s'.top_delegations c ≡ some (raised o more top))
        × (s'.bottom_delegations ≡ s.bottom_delegations)
        × (is_active m ≡ true → IsListed T c s'.candidate_pool)
  unfolding increase_top_delegation sort_greatest_to_least
  raise_effect more one = ground (
    arith,
    b.has_top,
    delegates-count o (λ x. x) top.delegations one,
    reset_top_lem T c (raised o more top) m s b.listed,
  )

  cut_effect :
      (less : ℕ)
      → 0 < count_owner o bottom.delegations
      → let (r, s') = decrease_bottom_delegation T c o less m s in
        (r ≡ ok (false, reset_bottom_data T (cut o less bottom) m))
        × (s'.top_delegations ≡ s.top_delegations)
        × (s'.bottom_delegations c ≡ some (cut o less bottom))
        × (s'.candidate_pool ≡ s.candidate_pool)
  unfolding decrease_bottom_delegation sort_greatest_to_least
  cut_effect less one =
      ground (arith, b.has_bottom, delegates-count o (λ x. x) bottom.delegations one)

  raised-IsBook :
      (more : ℕ)
      → count_owner o top.delegations ≡ 1
      → matched_amount o top.delegations ≡ some a
      → sum top.delegations + more ≤ max_balance
      → IsBook T c
          (with_top T (raised o more top) m)
          (increase_top_delegation T c o more m s).1
          (raised o more top)
          bottom
  raised-IsBook more one is fits = record {
    has_top = effect.1;
    has_bottom = ground (arith, effect, b.has_bottom);
    split = record {
      top_sorted = sort_by-IsDescending (adjust o (λ x. saturating_add x more) top.delegations);
      bottom_sorted = b.split.bottom_sorted;
      top_fits = omega (arith, size, b.split.top_fits);
      bottom_fits = b.split.bottom_fits;
      top_total = omega (
        arith,
        weigh-sort_by (λ x. x.amount) (adjust o (λ x. saturating_add x more) top.delegations),
        sum-adjust o (λ x. saturating_add x more) a top.delegations one is,
        b.split.top_total,
        amount-le-sum o a top.delegations is,
      );
      spill = omega (arith, size, b.split.spill);
      layered =
          AtMost-mono _ _ bottom.delegations
            (lowest_rises
              (last-some top.delegations (omega (arith, length-le-count o top.delegations))))
            b.split.layered;
    };
    caches = record {
      lowest_top = refl;
      top_cap = refl;
      counted = refl;
      lowest_bottom = b.caches.lowest_bottom;
      highest_bottom = b.caches.highest_bottom;
      bottom_cap = b.caches.bottom_cap;
      count = omega (arith, size, b.caches.count);
    };
    listed = effect.3;
  }
    where
      effect :
          let (r, s') = increase_top_delegation T c o more m s in
          (r ≡ ok (true, with_top T (raised o more top) m))
          × (s'.top_delegations c ≡ some (raised o more top))
          × (s'.bottom_delegations ≡ s.bottom_delegations)
          × (is_active m ≡ true → IsListed T c s'.candidate_pool)
      effect = raise_effect more (omega arith)

      size : length (raised o more top).delegations ≡ length top.delegations
      size = omega (
        arith,
        length-sort_by (adjust o (λ x. saturating_add x more) top.delegations),
        length-adjust o (λ x. saturating_add x more) top.delegations,
      )

      lowest_rises :
          (k : Bond) × (last? top.delegations ≡ some k)
          → lowest_delegation_amount top ≤ lowest_delegation_amount (raised o more top)
      lowest_rises (k, last) =
          let low : lowest_delegation_amount top ≡ k.amount = ground arith in
          let small : k.amount ≤ max_balance =
            omega (arith, amount-le-sum_last top.delegations k last) in
          omega (
            arith,
            low,
            AtLeast-lowest k.amount (raised o more top).delegations 0
                (omega (arith, size, length-le-count o top.delegations))
                (sort_by-AtLeast k.amount (adjust o (λ x. saturating_add x more) top.delegations) (
                  adjust-AtLeast k.amount o more top.delegations small
                    (lowest-AtLeast top.delegations k b.split.top_sorted last))),
          )

  cut-IsBook :
      (less : ℕ)
      → count_owner o bottom.delegations ≡ 1
      → IsBook T c
          (reset_bottom_data T (cut o less bottom) m)
          (decrease_bottom_delegation T c o less m s).1
          top
          (cut o less bottom)
  cut-IsBook less one = record {
    has_top = ground (arith, effect, b.has_top);
    has_bottom = effect.2;
    split = record {
      top_sorted = b.split.top_sorted;
      bottom_sorted =
          sort_by-IsDescending (adjust o (λ x. saturating_sub x less) bottom.delegations);
      top_fits = b.split.top_fits;
      bottom_fits = omega (arith, size, b.split.bottom_fits);
      top_total = b.split.top_total;
      spill = omega (arith, size, b.split.spill);
      layered =
          sort_by-AtMost _ (adjust o (λ x. saturating_sub x less) bottom.delegations)
            (adjust-AtMost _ o less bottom.delegations b.split.layered);
    };
    caches = record {
      lowest_top = b.caches.lowest_top;
      top_cap = b.caches.top_cap;
      counted = b.caches.counted;
      lowest_bottom = refl;
      highest_bottom = refl;
      bottom_cap = refl;
      count = omega (arith, size, b.caches.count);
    };
    listed = ground (arith, effect, b.listed);
  }
    where
      effect :
          let (r, s') = decrease_bottom_delegation T c o less m s in
          (r ≡ ok (false, reset_bottom_data T (cut o less bottom) m))
          × (s'.top_delegations ≡ s.top_delegations)
          × (s'.bottom_delegations c ≡ some (cut o less bottom))
          × (s'.candidate_pool ≡ s.candidate_pool)
      effect = cut_effect less (omega arith)

      size : length (cut o less bottom).delegations ≡ length bottom.delegations
      size = omega (
        arith,
        length-sort_by (adjust o (λ x. saturating_sub x less) bottom.delegations),
        length-adjust o (λ x. saturating_sub x less) bottom.delegations,
      )

-- With lists and metadata as they should be, a raise by `more` of the only delegation of an owner,
-- which is in the top, succeeds if the sum of the top stays a balance: the lists and the metadata
-- are as they should be again, the top is worth `more` more, the bottom is what it was, and every
-- delegator has as many delegations in the top as before.
pub increase_top_delegation_lem :
    (T : Config) (c o a more : ℕ) (m : CandidateMetadata) (s : Storage T) (top bottom : Delegations)
    → HasBounds T
    → IsBook T c m s top bottom
    → OnlyIn o a top bottom
    → sum top.delegations + more ≤ max_balance
    → let (r, s') = increase_top_delegation T c o more m s in
      (m' : CandidateMetadata) × (top' : Delegations) × (r ≡ ok (true, m'))
      × IsBook T c m' s' top' bottom
      × (sum top'.delegations ≡ sum top.delegations + more)
      × ((p : ℕ) → count_owner p top'.delegations ≡ count_owner p top.delegations)
increase_top_delegation_lem T c o a more m s top bottom h b here fits = (
  with_top T (raised o more top) m,
  raised o more top,
  (raise_effect T c o a m s top bottom h b more (omega (arith, here.0))).0,
  raised-IsBook T c o a m s top bottom h b more here.0 here.1 fits,
  omega (
    arith,
    weigh-sort_by (λ x. x.amount) (adjust o (λ x. saturating_add x more) top.delegations),
    sum-adjust o (λ x. saturating_add x more) a top.delegations here.0 here.1,
    amount-le-sum o a top.delegations here.1,
  ),
  λ p.
      weigh-sort_by (λ x. if x.owner == p then 1 else 0)
        (adjust o (λ x. saturating_add x more) top.delegations)
      ∙ count-adjust o (λ x. saturating_add x more) p top.delegations,
)

-- With lists and metadata as they should be, a cut by `less`, at most its amount, of the only
-- delegation of an owner, which is at the bottom, succeeds: the lists and the metadata are as they
-- should be again and the top is what it was. The bottom is worth `less` less than before, but its
-- stored total is unchanged.
pub decrease_bottom_delegation_stale :
    (T : Config) (c o a less : ℕ) (m : CandidateMetadata) (s : Storage T) (top bottom : Delegations)
    → HasBounds T
    → IsBook T c m s top bottom
    → OnlyIn o a bottom top
    → less ≤ a
    → let (r, s') = decrease_bottom_delegation T c o less m s in
      (m' : CandidateMetadata) × (bottom' : Delegations) × (r ≡ ok (false, m'))
      × IsBook T c m' s' top bottom'
      × (sum bottom'.delegations + less ≡ sum bottom.delegations)
      × (bottom'.total ≡ bottom.total)
decrease_bottom_delegation_stale T c o a less m s top bottom h b here le = (
  reset_bottom_data T (cut o less bottom) m,
  cut o less bottom,
  (cut_effect T c o a m s top bottom h b less (omega (arith, here.0))).0,
  cut-IsBook T c o a m s top bottom h b less here.0,
  omega (
    arith,
    weigh-sort_by (λ x. x.amount) (adjust o (λ x. saturating_sub x less) bottom.delegations),
    sum-adjust o (λ x. saturating_sub x less) a bottom.delegations here.0 here.1,
    amount-le-sum o a bottom.delegations here.1,
  ),
  refl,
)
