-- ===== src/Staking/Candidate/Without.antt =====
-- The lists of a candidate without one delegation, for the removals of `CandidateMetadata` in
-- pallets/sequencer-staking/src/types.rs.
use popsicle.Prelude.{
  ℕ, suc, ◌+◌, ◌≤◌, ◌<◌, ◌≡◌, refl, ap, subst, inl, inr, none, some, List, [], ◌∷◌, length, last?,
  saturating_sub, max_balance, arith,
}
use popsicle.Staking.Types.{Bond, Delegations}
use popsicle.Staking.Storage.{Config}
use popsicle.Staking.Delegations.{
  insert_bond, insert_sorted_greatest_to_least, lowest_delegation_amount,
}
use popsicle.Staking.Delegations.Insertion.{
  AtMost, AtLeast, IsDescending, AtMost-mono, insert_bond-IsDescending, insert_bond-AtLeast,
}
use popsicle.Staking.Delegations.Sums.{
  weigh, sum, count_owner, weigh-insert_bond, length-insert_bond, AtLeast-lowest, lowest-AtLeast,
  last-some,
}
use popsicle.Staking.Delegator.{matched_amount, without}
use popsicle.Staking.Candidate.Invariant.{HasBounds, IsSplit}

pub matched-count : (o a : ℕ) (ds : List Bond) → matched_amount o ds ≡ some a → 0 < count_owner o ds
matched-count o a [] e = cc
matched-count o a (x ∷ xs) e = ground (arith, matched-count o a xs)

pub matched-none : (o : ℕ) (ds : List Bond) → count_owner o ds ≡ 0 → matched_amount o ds ≡ none
matched-none o [] e = refl
matched-none o (x ∷ xs) e = ground (arith, matched-none o xs)

weigh-without_none :
    (f : Bond → ℕ) (o : ℕ) (ds : List Bond)
    → count_owner o ds ≡ 0
    → weigh f (without o ds) ≡ weigh f ds
weigh-without_none f o [] e = refl
weigh-without_none f o (x ∷ xs) e = ground (arith, weigh-without_none f o xs)

length-without_none :
    (o : ℕ) (ds : List Bond) → count_owner o ds ≡ 0 → length (without o ds) ≡ length ds
length-without_none o [] e = refl
length-without_none o (x ∷ xs) e = ground (arith, length-without_none o xs)

bond_of : (x : Bond) (o a : ℕ) → x.owner ≡ o → x.amount ≡ a → x ≡ record { owner = o; amount = a }
bond_of x o a p q = ground arith

-- A list with one delegation of `o`, of amount `a`, loses exactly that.
pub weigh-without :
    (f : Bond → ℕ) (o a : ℕ) (ds : List Bond)
    → count_owner o ds ≡ 1
    → matched_amount o ds ≡ some a
    → weigh f (without o ds) + f (record { owner = o; amount = a }) ≡ weigh f ds
weigh-without f o a [] e m = cc
weigh-without f o a (x ∷ xs) e m = ground (
  arith,
  weigh-without f o a xs,
  weigh-without_none f o xs,
  matched-none o xs,
  λ (p : x.owner ≡ o) (q : x.amount ≡ a). ap f (bond_of x o a p q),
)

pub length-without :
    (o : ℕ) (ds : List Bond) → count_owner o ds ≡ 1 → suc (length (without o ds)) ≡ length ds
length-without o [] e = absurd (omega arith)
length-without o (x ∷ xs) e = ground (arith, length-without o xs, length-without_none o xs)

pub without-AtMost : (n o : ℕ) (ds : List Bond) → AtMost n ds → AtMost n (without o ds)
without-AtMost n o [] a = tt
without-AtMost n o (x ∷ xs) a = ground (arith, without-AtMost n o xs a.1)

pub without-AtLeast : (n o : ℕ) (ds : List Bond) → AtLeast n ds → AtLeast n (without o ds)
without-AtLeast n o [] a = tt
without-AtLeast n o (x ∷ xs) a = ground (arith, without-AtLeast n o xs a.1)

pub without-IsDescending : (o : ℕ) (ds : List Bond) → IsDescending ds → IsDescending (without o ds)
without-IsDescending o [] s = tt
without-IsDescending o (x ∷ xs) s =
    ground (arith, without-IsDescending o xs s.1, without-AtMost x.amount o xs s.0)

pub AtLeast-mono : (m n : ℕ) (ds : List Bond) → m ≤ n → AtLeast n ds → AtLeast m ds
AtLeast-mono m n [] le h = tt
AtLeast-mono m n (x ∷ xs) le h = (omega arith, AtLeast-mono m n xs le h.1)

pub matched-AtMost :
    (n o a : ℕ) (ds : List Bond) → AtMost n ds → matched_amount o ds ≡ some a → a ≤ n
matched-AtMost n o a [] h e = cc
matched-AtMost n o a (x ∷ xs) h e = ground (arith, matched-AtMost n o a xs h.1)

pub matched-AtLeast :
    (n o a : ℕ) (ds : List Bond) → AtLeast n ds → matched_amount o ds ≡ some a → n ≤ a
matched-AtLeast n o a [] h e = cc
matched-AtLeast n o a (x ∷ xs) h e = ground (arith, matched-AtLeast n o a xs h.1)

module _ (T : Config) (top bottom : Delegations) (h : HasBounds T) (v : IsSplit T top bottom)
    (o a : ℕ) where
  abbrev less : Delegations → Delegations
  less d = record { delegations = without o d.delegations; total = saturating_sub d.total a }

  -- Out of the bottom.
  pub bottom-IsSplit :
      count_owner o bottom.delegations ≡ 1
      → matched_amount o bottom.delegations ≡ some a
      → IsSplit T top (less bottom)
  bottom-IsSplit one is = record {
    top_sorted = v.top_sorted;
    bottom_sorted = without-IsDescending o bottom.delegations v.bottom_sorted;
    top_fits = v.top_fits;
    bottom_fits = omega (arith, length-without o bottom.delegations one, v.bottom_fits);
    top_total = v.top_total;
    spill = inr (omega (arith, length-without o bottom.delegations one, v.spill));
    layered = without-AtMost _ o bottom.delegations v.layered;
  }

  -- Out of the top, with nothing below it.
  pub top-IsSplit :
      count_owner o top.delegations ≡ 1
      → matched_amount o top.delegations ≡ some a
      → bottom.delegations ≡ []
      → IsSplit T (less top) bottom
  top-IsSplit one is none_below = record {
    top_sorted = without-IsDescending o top.delegations v.top_sorted;
    bottom_sorted = v.bottom_sorted;
    top_fits = omega (arith, length-without o top.delegations one, v.top_fits);
    bottom_fits = v.bottom_fits;
    top_total =
        omega (arith, weigh-without (λ x. x.amount) o a top.delegations one is, v.top_total);
    spill = inl (rw none_below refl);
    layered = rw none_below tt;
  }

  -- Out of the top, with the highest of the bottom in its place.
  pub swapped-IsSplit :
      (x : Bond) (rest : List Bond)
      → count_owner o top.delegations ≡ 1
      → matched_amount o top.delegations ≡ some a
      → bottom.delegations ≡ x ∷ rest
      → sum top.delegations ≤ max_balance
      → IsSplit T
          (insert_sorted_greatest_to_least x (less top))
          (record { delegations = rest; total = saturating_sub bottom.total x.amount })
  unfolding insert_sorted_greatest_to_least
  swapped-IsSplit x rest one is e fits = record {
    top_sorted = insert_bond-IsDescending (without o top.delegations) x gone;
    bottom_sorted = below.1;
    top_fits = omega (arith, size, v.top_fits);
    bottom_fits = omega (arith, ap length e, v.bottom_fits);
    top_total = omega (
      arith,
      weigh-without (λ y. y.amount) o a top.delegations one is,
      weigh-insert_bond (λ y. y.amount) (without o top.delegations) x gone,
      v.top_total,
      matched-AtLeast x.amount o a top.delegations high is,
    );
    spill = inr (omega (arith, size, ap length e, v.spill));
    layered =
        AtMost-mono x.amount _ rest
          (AtLeast-lowest x.amount (insert_bond (without o top.delegations) x) 0
            (omega (arith, length-insert_bond (without o top.delegations) x gone))
            (insert_bond-AtLeast x.amount (without o top.delegations) x gone (omega arith)
              (without-AtLeast x.amount o top.delegations high)))
          below.0;
  }
    where
      gone : IsDescending (without o top.delegations)
      gone = without-IsDescending o top.delegations v.top_sorted

      below : IsDescending (x ∷ rest)
      below = subst IsDescending e v.bottom_sorted

      size : length (insert_bond (without o top.delegations) x) ≡ length top.delegations
      size = omega (
        arith,
        length-insert_bond (without o top.delegations) x gone,
        length-without o top.delegations one,
      )

      under : AtMost (lowest_delegation_amount top) (x ∷ rest)
      under = subst (AtMost (lowest_delegation_amount top)) e v.layered

      high : AtLeast x.amount top.delegations
      high =
          let (k, last) =
            last-some top.delegations (omega (arith, length-without o top.delegations one)) in
          AtLeast-mono x.amount k.amount top.delegations (ground (arith, under.0))
            (lowest-AtLeast top.delegations k v.top_sorted last)

  -- The top with one delegation out and another in.
  pub inserted_length :
      (x : Bond)
      → count_owner o top.delegations ≡ 1
      → length (insert_sorted_greatest_to_least x (less top)).delegations ≡ length top.delegations
  unfolding insert_sorted_greatest_to_least
  inserted_length x one = omega (
    arith,
    length-insert_bond (without o top.delegations) x
        (without-IsDescending o top.delegations v.top_sorted),
    length-without o top.delegations one,
  )

  pub inserted_weight :
      (x : Bond) (f : Bond → ℕ)
      → weigh f (insert_sorted_greatest_to_least x (less top)).delegations
        ≡ weigh f (without o top.delegations) + f x
  unfolding insert_sorted_greatest_to_least
  inserted_weight x f =
      weigh-insert_bond f (without o top.delegations) x
        (without-IsDescending o top.delegations v.top_sorted)

pub length-le-count : (o : ℕ) (ds : List Bond) → count_owner o ds ≤ length ds
length-le-count o [] = omega arith
length-le-count o (x ∷ xs) = ground (arith, length-le-count o xs)

pub amount-le-sum : (o a : ℕ) (ds : List Bond) → matched_amount o ds ≡ some a → a ≤ sum ds
amount-le-sum o a [] e = cc
amount-le-sum o a (x ∷ xs) e = ground (arith, amount-le-sum o a xs)

pub amount-le-sum_last : (ds : List Bond) (k : Bond) → last? ds ≡ some k → k.amount ≤ sum ds
amount-le-sum_last [] k e = cc
amount-le-sum_last (x ∷ []) k e = ground arith
amount-le-sum_last (x ∷ y ∷ ds) k e = ground (arith, amount-le-sum_last (y ∷ ds) k e)
