-- ===== src/Staking/Candidate/Removal.antt =====
-- What `rm_delegation_if_exists` of `CandidateMetadata` in
-- pallets/sequencer-staking/src/types.rs promises.
use popsicle.Prelude.{
  ℕ, ◌+◌, ◌≤◌, ◌<◌, ◌≡◌, refl, ap, ◌⊎◌, inl, inr, Bool, true, false, some, List, [], ◌∷◌, length,
  max_balance, leb, ◌==◌, arith,
}
use popsicle.Prelude.Effects.{Outcome, ok}
use popsicle.Staking.Types.{Bond, Delegations, CandidateMetadata, is_active, is_empty}
use popsicle.Staking.Storage.{Config, Storage, Error}
use popsicle.Staking.Pool.Laws.{IsListed}
use popsicle.Staking.Delegations.{insert_sorted_greatest_to_least, capacity}
use popsicle.Staking.Delegations.Sums.{weigh, sum, count_owner}
use popsicle.Staking.Delegator.{matched_amount, without}
use popsicle.Staking.Candidate.Book.{
  with_top, reset_bottom_data, count_down, rm_top_delegation, rm_bottom_delegation,
}
use popsicle.Staking.Candidate.Invariant.{HasBounds, IsBook}
use popsicle.Staking.Candidate.Without.{
  weigh-without, length-without, inserted_length, inserted_weight, bottom-IsSplit, top-IsSplit,
  swapped-IsSplit,
}
use popsicle.Staking.Candidate.Removing.{taken, behind, rm_top_last_lem, rm_top_lem, rm_bottom_lem}

-- An outcome `r` with the storage `s'` of the removal of the delegation of `o`, of amount `a`.
pub record Removal (T : Config) (c o a : ℕ) (top bottom : Delegations)
    (r : Outcome Error (Bool × CandidateMetadata) × Storage T) : Type 0 where
  pub changed : Bool
  pub m' : CandidateMetadata
  pub top' : Delegations
  pub bottom' : Delegations
  pub runs : r.0 ≡ ok (changed, m')
  pub book : IsBook T c m' r.1 top' bottom'
  pub kept :
      (f : Bond → ℕ)
      → weigh f top'.delegations
          + weigh f bottom'.delegations
          + f (record { owner = o; amount = a })
        ≡ weigh f top.delegations + weigh f bottom.delegations

empty_iff : (max : ℕ) (ds : List Bond) → 0 < max → is_empty (capacity max ds) ≡ leb (length ds) 0
empty_iff max [] h = ground arith
empty_iff max (x ∷ xs) h = ground arith

list_cases : (ds : List Bond) → (ds ≡ []) ⊎ ((x : Bond) × (rest : List Bond) × (ds ≡ x ∷ rest))
list_cases [] = inl refl
list_cases (x ∷ xs) = inr (x, xs, refl)

module _ (T : Config) (c o a : ℕ) (m : CandidateMetadata) (s : Storage T) (top bottom : Delegations)
    (h : HasBounds T) (b : IsBook T c m s top bottom) where
  empty_below : is_empty m.bottom_capacity ≡ leb (length bottom.delegations) 0
  empty_below =
      rw (b.caches.bottom_cap)
        (empty_iff T.max_bottom_delegations_per_candidate bottom.delegations h.bottom_pos)

  pub from_bottom :
      count_owner o bottom.delegations ≡ 1
      → matched_amount o bottom.delegations ≡ some a
      → Removal T c o a top bottom (rm_bottom_delegation T c o m s)
  from_bottom one is = record {
    changed = false;
    m' = count_down (reset_bottom_data T (taken o a bottom) m);
    top' = top;
    bottom' = taken o a bottom;
    runs = effect.0;
    book = record {
      has_top = ground (arith, effect, b.has_top);
      has_bottom = effect.2;
      split = bottom-IsSplit T top bottom h b.split o a one is;
      caches = record {
        lowest_top = b.caches.lowest_top;
        top_cap = b.caches.top_cap;
        counted = b.caches.counted;
        lowest_bottom = refl;
        highest_bottom = refl;
        bottom_cap = refl;
        count = omega (arith, b.caches.count, length-without o bottom.delegations one);
      };
      listed = ground (arith, effect, b.listed);
    };
    kept = λ f. omega (arith, weigh-without f o a bottom.delegations one is);
  }
    where
      effect :
          let (r, s') = rm_bottom_delegation T c o m s in
          (r ≡ ok (false, count_down (reset_bottom_data T (taken o a bottom) m)))
          × (s'.top_delegations ≡ s.top_delegations)
          × (s'.bottom_delegations c ≡ some (taken o a bottom))
          × (s'.candidate_pool ≡ s.candidate_pool)
      effect = rm_bottom_lem T c o m s bottom a b.has_bottom is

  from_top_last :
      count_owner o top.delegations ≡ 1
      → matched_amount o top.delegations ≡ some a
      → bottom.delegations ≡ []
      → Removal T c o a top bottom (rm_top_delegation T c o m s)
  from_top_last one is none_below = record {
    changed = m.total_counted == (with_top T (taken o a top) m).total_counted;
    m' = count_down (with_top T (taken o a top) m);
    top' = taken o a top;
    bottom' = bottom;
    runs = effect.0;
    book = record {
      has_top = effect.1;
      has_bottom = ground (arith, effect, b.has_bottom);
      split = top-IsSplit T top bottom h b.split o a one is none_below;
      caches = record {
        lowest_top = refl;
        top_cap = refl;
        counted = refl;
        lowest_bottom = b.caches.lowest_bottom;
        highest_bottom = b.caches.highest_bottom;
        bottom_cap = b.caches.bottom_cap;
        count = omega (arith, b.caches.count, length-without o top.delegations one);
      };
      listed = effect.3;
    };
    kept = λ f. omega (arith, weigh-without f o a top.delegations one is);
  }
    where
      effect :
          let (r, s') = rm_top_delegation T c o m s in
          let m' = with_top T (taken o a top) m in
          (r ≡ ok (m.total_counted == m'.total_counted, count_down m'))
          × (s'.top_delegations c ≡ some (taken o a top))
          × (s'.bottom_delegations ≡ s.bottom_delegations)
          × (is_active m ≡ true → IsListed T c s'.candidate_pool)
      effect =
          rm_top_last_lem T c o m s top a b.has_top is
            (ground (arith, empty_below, ap length none_below)) b.listed

  from_top_swap :
      (x : Bond) (rest : List Bond)
      → count_owner o top.delegations ≡ 1
      → matched_amount o top.delegations ≡ some a
      → bottom.delegations ≡ x ∷ rest
      → sum top.delegations ≤ max_balance
      → Removal T c o a top bottom (rm_top_delegation T c o m s)
  from_top_swap x rest one is e fits = record {
    changed = m.total_counted == swapped.total_counted;
    m' = count_down swapped;
    top' = top';
    bottom' = behind bottom x rest;
    runs = effect.0;
    book = record {
      has_top = effect.1;
      has_bottom = effect.2;
      split = swapped-IsSplit T top bottom h b.split o a x rest one is e fits;
      caches = record {
        lowest_top = refl;
        top_cap = refl;
        counted = refl;
        lowest_bottom = refl;
        highest_bottom = refl;
        bottom_cap = refl;
        count = omega (arith, b.caches.count, ap length e, length-swapped);
      };
      listed = effect.3;
    };
    kept = λ f.
        omega (arith, weigh-without f o a top.delegations one is, ap (weigh f) e, weigh-swapped f);
  }
    where
      top' : Delegations
      top' = insert_sorted_greatest_to_least x (taken o a top)

      swapped : CandidateMetadata
      swapped = with_top T top' (reset_bottom_data T (behind bottom x rest) m)

      length-swapped : length top'.delegations ≡ length top.delegations
      length-swapped = inserted_length T top bottom h b.split o a x one

      weigh-swapped :
          (f : Bond → ℕ) → weigh f top'.delegations ≡ weigh f (without o top.delegations) + f x
      weigh-swapped f = inserted_weight T top bottom h b.split o a x f

      effect :
          let (r, s') = rm_top_delegation T c o m s in
          (r ≡ ok (m.total_counted == swapped.total_counted, count_down swapped))
          × (s'.top_delegations c ≡ some top')
          × (s'.bottom_delegations c ≡ some (behind bottom x rest))
          × (is_active m ≡ true → IsListed T c s'.candidate_pool)
      effect =
          rm_top_lem T c o m s top bottom a x rest b.has_top b.has_bottom is
            (ground (arith, empty_below, ap length e)) e b.listed

  pub from_top :
      count_owner o top.delegations ≡ 1
      → matched_amount o top.delegations ≡ some a
      → sum top.delegations ≤ max_balance
      → Removal T c o a top bottom (rm_top_delegation T c o m s)
  from_top one is fits = elim (list_cases bottom.delegations) [
    | inl none_below ↦ from_top_last one is none_below
    | inr (x, rest, e) ↦ from_top_swap x rest one is e fits
  ]
