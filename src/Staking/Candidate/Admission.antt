-- ===== src/Staking/Candidate/Admission.antt =====
-- What `add_delegation` of `CandidateMetadata` in pallets/sequencer-staking/src/types.rs promises.
use popsicle.Prelude.{
  ℕ, ◌+◌, ◌≤◌, ◌<◌, ◌≡◌, refl, ap, ◌⊎◌, inl, inr, Bool-cases, update, true, false, not, ◌&&◌, ◌||◌,
  Option, none, some, [], length, last?, max_balance, leb, ltb, if◌then◌else◌, arith,
}
use native.Mathlib.Decide.{dec_lt}
use popsicle.Prelude.Effects.{ok, err}
use popsicle.Staking.Types.{
  Bond, Delegations, CandidateMetadata, is_active, is_full, DelegatorAdded, added_to_top,
  added_to_bottom,
}
use popsicle.Staking.Storage.{
  Config, Storage, cannot_delegate_less_than_or_equal_to_lowest_bottom_when_full,
}
use popsicle.Staking.Pool.Laws.{IsListed}
use popsicle.Staking.Delegations.{insert_sorted_greatest_to_least, lowest_delegation_amount}
use popsicle.Staking.Delegations.Sums.{weigh, sum, last-some}
use popsicle.Staking.Candidate.Book.{
  add_delegation, add_bottom_delegation, add_top_delegation, with_top, count_unless_kicked,
}
use popsicle.Staking.Candidate.Invariant.{HasBounds, Caches, IsBook}
use popsicle.Staking.Candidate.Splitting
use popsicle.Staking.Candidate.Splitting.{
  room, kicked, enter_bottom, enter_full_top, is_full-capacity,
}
use popsicle.Staking.Candidate.Adding.{
  CanMakeRoom, after_bottom, add_bottom_lem, add_full_top_lem, add_free_top_lem,
}

abbrev pub amount_of : Option ℕ → ℕ
amount_of none = 0
amount_of (some a) = a

-- A call of `add_delegation` that succeeds, from the lists `top` and `bottom`.
pub record Admission (T : Config) (c : ℕ) (d : Bond) (m : CandidateMetadata) (s : Storage T)
    (top bottom : Delegations) : Type 0 where
  pub added : DelegatorAdded
  pub less : Option ℕ
  pub m' : CandidateMetadata
  pub top' : Delegations
  pub bottom' : Delegations
  pub runs : (add_delegation T c d m s).0 ≡ ok (added, less, m')
  pub book : IsBook T c m' (add_delegation T c d m s).1 top' bottom'
  pub kept :
      (f : Bond → ℕ)
      → weigh f top'.delegations + weigh f bottom'.delegations + weigh f (kicked T bottom)
        ≡ weigh f top.delegations + weigh f bottom.delegations + f d
  pub less_kicked : amount_of less ≡ sum (kicked T bottom)

module _ (T : Config) (c : ℕ) (d : Bond) (m : CandidateMetadata) (s : Storage T)
    (top bottom : Delegations) (h : HasBounds T) (b : IsBook T c m s top bottom) where
  top_full :
      is_full m.top_capacity ≡ leb T.max_top_delegations_per_candidate (length top.delegations)
  top_full =
      rw (b.caches.top_cap) (is_full-capacity T.max_top_delegations_per_candidate top.delegations)

  bottom_full :
      is_full m.bottom_capacity
      ≡ leb T.max_bottom_delegations_per_candidate (length bottom.delegations)
  bottom_full =
      rw (b.caches.bottom_cap)
        (is_full-capacity T.max_bottom_delegations_per_candidate bottom.delegations)

  -- Where the lists and the metadata of a candidate are as they should be and both lists are full,
  -- a delegation whose amount is above neither lowest is refused, and nothing is written.
  pub add_delegation-refused :
      length top.delegations ≡ T.max_top_delegations_per_candidate
      → length bottom.delegations ≡ T.max_bottom_delegations_per_candidate
      → d.amount ≤ lowest_delegation_amount top
      → d.amount ≤ lowest_delegation_amount bottom
      → add_delegation T c d m s
        ≡ (err cannot_delegate_less_than_or_equal_to_lowest_bottom_when_full, s)
  unfolding add_delegation
  add_delegation-refused tf bf lt lb =
      ground (arith, top_full, bottom_full, b.caches.lowest_top, b.caches.lowest_bottom)

  after_bottom-Caches : Caches T (after_bottom T false d bottom m) top (enter_bottom T d bottom)
  after_bottom-Caches = record {
    lowest_top = b.caches.lowest_top;
    top_cap = b.caches.top_cap;
    counted = b.caches.counted;
    lowest_bottom = refl;
    highest_bottom = refl;
    bottom_cap = refl;
    count = ground (
      arith,
      b.caches.count,
      Splitting.length-enter_bottom T d top bottom h b.split,
      b.split.top_fits,
      b.split.bottom_fits,
      h.fits,
    );
  }

  less_or_none : Option ℕ
  less_or_none = if is_full m.bottom_capacity then some m.lowest_bottom_delegation_amount else none

  less_or_none-kicked : amount_of less_or_none ≡ sum (kicked T bottom)
  unfolding less_or_none
  less_or_none-kicked = ground (arith, bottom_full, b.caches.lowest_bottom, b.split.bottom_fits)

  -- The metadata after `add_top_delegation` on a full top.
  bumped : Bond → CandidateMetadata
  unfolding less_or_none
  bumped k =
      count_unless_kicked less_or_none
        (with_top T (enter_full_top d top) (after_bottom T true k bottom m))

  full_top-Caches :
      length top.delegations ≡ T.max_top_delegations_per_candidate
      → (k : Bond) → Caches T (bumped k) (enter_full_top d top) (enter_bottom T k bottom)
  unfolding bumped
  full_top-Caches tf k = elim (Bool-cases (is_full m.bottom_capacity)) [
    | inl e ↦ record {
      lowest_top = ground arith;
      top_cap = ground arith;
      counted = ground arith;
      lowest_bottom = ground arith;
      highest_bottom = ground arith;
      bottom_cap = ground arith;
      count = ground (
        arith,
        b.caches.count,
        size,
        Splitting.length-enter_bottom T k top bottom h b.split,
        bottom_full,
        b.split.bottom_fits,
      );
    }
    | inr e ↦ record {
      lowest_top = ground arith;
      top_cap = ground arith;
      counted = ground arith;
      lowest_bottom = ground arith;
      highest_bottom = ground arith;
      bottom_cap = ground arith;
      count = ground (
        arith,
        b.caches.count,
        size,
        Splitting.length-enter_bottom T k top bottom h b.split,
        bottom_full,
        b.split.bottom_fits,
        h.fits,
        b.split.top_fits,
      );
    }
  ]
    where
      size : length (enter_full_top d top).delegations ≡ length top.delegations
      size = Splitting.length-enter_full_top T d top bottom h b.split tf

  module _ (room_left : sum top.delegations + d.amount ≤ max_balance)
      (ready : CanMakeRoom T c s bottom) where
    to_bottom :
        length top.delegations ≡ T.max_top_delegations_per_candidate
        → d.amount ≤ lowest_delegation_amount top
        → ((length bottom.delegations < T.max_bottom_delegations_per_candidate)
            ⊎ (lowest_delegation_amount bottom < d.amount))
        → Admission T c d m s top bottom
    unfolding add_delegation less_or_none
    to_bottom tf low wins = record {
      added = added_to_bottom;
      less = less_or_none;
      m' = after_bottom T false d bottom m;
      top' = top;
      bottom' = enter_bottom T d bottom;
      runs = ground (arith, goes, effect);
      book = record {
        has_top = ground (arith, goes, effect, b.has_top);
        has_bottom = ground (arith, goes, effect);
        split = Splitting.enter_bottom-IsSplit T d top bottom h b.split tf low;
        caches = after_bottom-Caches;
        listed = ground (arith, goes, effect, b.listed);
      };
      kept = λ f. omega (arith, Splitting.weigh-enter_bottom T d top bottom h b.split f);
      less_kicked = less_or_none-kicked;
    }
      where
        effect :
            let (r, s') = add_bottom_delegation T false c d m s in
            (r ≡ ok (after_bottom T false d bottom m))
            × (s'.bottom_delegations
                ≡ update s.bottom_delegations c (some (enter_bottom T d bottom)))
            × (s'.top_delegations ≡ s.top_delegations)
            × (s'.candidate_pool ≡ s.candidate_pool)
        effect = add_bottom_lem T false c d m s bottom b.has_bottom ready

        goes :
            ((is_full m.top_capacity && not (ltb m.lowest_top_delegation_amount d.amount)) ≡ true)
            × ((not (is_full m.bottom_capacity) || ltb m.lowest_bottom_delegation_amount d.amount)
                ≡ true)
        goes =
            ground (arith, top_full, bottom_full, b.caches.lowest_top, b.caches.lowest_bottom, wins)

    to_full_top :
        length top.delegations ≡ T.max_top_delegations_per_candidate
        → lowest_delegation_amount top < d.amount
        → (k : Bond) → last? top.delegations ≡ some k
        → Admission T c d m s top bottom
    unfolding add_delegation bumped
    to_full_top tf high k last = record {
      added = added_to_top (bumped k).total_counted;
      less = less_or_none;
      m' = bumped k;
      top' = enter_full_top d top;
      bottom' = enter_bottom T k bottom;
      runs = ground (arith, goes, effect);
      book = record {
        has_top = ground (arith, goes, effect);
        has_bottom = ground (arith, goes, effect);
        split =
            Splitting.enter_full_top-IsSplit T d top bottom h b.split k last tf
              (omega (arith, Splitting.lowest_is T d top bottom h b.split k last)) room_left;
        caches = full_top-Caches tf k;
        listed = ground (arith, goes, effect);
      };
      kept = λ f. omega (
        arith,
        Splitting.weigh-enter_bottom T k top bottom h b.split f,
        Splitting.weigh-enter_full_top T d top bottom h b.split f k last,
      );
      less_kicked = less_or_none-kicked;
    }
      where
        goes :
            ((is_full m.top_capacity && not (ltb m.lowest_top_delegation_amount d.amount)) ≡ false)
            × (is_full m.top_capacity ≡ true)
        goes = ground (arith, top_full, b.caches.lowest_top)

        effect :
            let (r, s') = add_top_delegation T c d m s in
            (r ≡ ok (less_or_none, bumped k))
            × (s'.top_delegations c ≡ some (enter_full_top d top))
            × (s'.bottom_delegations c ≡ some (enter_bottom T k bottom))
            × (is_active m ≡ true → IsListed T c s'.candidate_pool)
        effect =
            add_full_top_lem T c d k m s top bottom b.has_top b.has_bottom tf last ready b.listed

    to_free_top :
        length top.delegations < T.max_top_delegations_per_candidate
        → Admission T c d m s top bottom
    unfolding add_delegation
    to_free_top free = record {
      added = added_to_top m'.total_counted;
      less = none;
      m' = m';
      top' = insert_sorted_greatest_to_least d top;
      bottom' = bottom;
      runs = ground (arith, goes, effect);
      book = record {
        has_top = ground (arith, goes, effect);
        has_bottom = ground (arith, goes, effect, b.has_bottom);
        split = Splitting.enter_top-IsSplit T d top bottom h b.split free room_left;
        caches = record {
          lowest_top = refl;
          top_cap = refl;
          counted = refl;
          lowest_bottom = b.caches.lowest_bottom;
          highest_bottom = b.caches.highest_bottom;
          bottom_cap = b.caches.bottom_cap;
          count = omega (
            arith,
            b.caches.count,
            Splitting.length-enter_top T d top bottom h b.split,
            h.fits,
            b.split.bottom_fits,
          );
        };
        listed = ground (arith, goes, effect);
      };
      kept = λ f.
          omega
            (arith, Splitting.weigh-enter_top T d top bottom h b.split f, ap (weigh f) none_kicked);
      less_kicked = rw none_kicked refl;
    }
      where
        m' : CandidateMetadata
        m' = count_unless_kicked none (with_top T (insert_sorted_greatest_to_least d top) m)

        goes :
            ((is_full m.top_capacity && not (ltb m.lowest_top_delegation_amount d.amount)) ≡ false)
            × (is_full m.top_capacity ≡ false)
        goes = ground (arith, top_full)

        none_kicked : kicked T bottom ≡ []
        none_kicked = ground (arith, b.split.spill, h.bottom_pos)

        effect :
            let (r, s') = add_top_delegation T c d m s in
            let top' = insert_sorted_greatest_to_least d top in
            (r ≡ ok (none, count_unless_kicked none (with_top T top' m)))
            × (s'.top_delegations c ≡ some top')
            × (s'.bottom_delegations ≡ s.bottom_delegations)
            × (is_active m ≡ true → IsListed T c s'.candidate_pool)
        effect = add_free_top_lem T c d m s top b.has_top free b.listed

-- With positive bounds, and lists and metadata as they should be, a candidate takes a delegation
-- that has a place: the top has room, or the amount is above the lowest top, or the bottom has
-- room, or the amount is above the lowest bottom. The call succeeds if the lowest of a full bottom
-- can be kicked and the sum of the top and the new amount is a balance. The lists and the metadata
-- are then as they should be again, and together they hold exactly the delegations from before and
-- the new one, less the one that was kicked, whose amount is reported.
pub add_delegation-Admission :
    (T : Config) (c : ℕ) (d : Bond) (m : CandidateMetadata) (s : Storage T)
    (top bottom : Delegations)
    → HasBounds T
    → IsBook T c m s top bottom
    → CanMakeRoom T c s bottom
    → sum top.delegations + d.amount ≤ max_balance
    → (length top.delegations < T.max_top_delegations_per_candidate)
      ⊎ (lowest_delegation_amount top < d.amount)
      ⊎ (length bottom.delegations < T.max_bottom_delegations_per_candidate)
      ⊎ (lowest_delegation_amount bottom < d.amount)
    → Admission T c d m s top bottom
add_delegation-Admission T c d m s top bottom h b ready room_left place =
    elim (dec_lt (length top.delegations) T.max_top_delegations_per_candidate) [
      | yes free ↦ to_free_top T c d m s top bottom h b room_left ready free
      | no packed ↦ elim (dec_lt (lowest_delegation_amount top) d.amount) [
        | yes high ↦
            let (k, last) = last-some top.delegations (omega (arith, h.top_pos)) in
            to_full_top T c d m s top bottom h b room_left ready (full packed) high k last
        | no low ↦
            to_bottom T c d m s top bottom h b room_left ready (full packed) (omega arith)
              (omega (arith, place))
      ]
    ]
  where
    full :
        ¬ (length top.delegations < T.max_top_delegations_per_candidate)
        → length top.delegations ≡ T.max_top_delegations_per_candidate
    full packed = omega (arith, b.split.top_fits)
