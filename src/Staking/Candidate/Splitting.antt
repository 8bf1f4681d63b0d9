-- ===== src/Staking/Candidate/Splitting.antt =====
-- Where a new delegation goes, described without the storage, for `add_delegation` in
-- pallets/sequencer-staking/src/types.rs; and that the two lists stay as they should be.
use popsicle.Prelude.{
  ℕ, suc, ◌+◌, ◌≤◌, ◌<◌, ◌≡◌, refl, inl, inr, none, some, List, [], ◌∷◌, length, length-init, last?,
  init, saturating_sub, max_balance, leb, ◌==◌, if◌then◌else◌, arith,
}
use popsicle.Staking.Types.{Bond, Delegations, is_full}
use popsicle.Staking.Storage.{Config}
use popsicle.Staking.Delegations.{
  insert_bond, insert_sorted_greatest_to_least, capacity, lowest_delegation_amount,
}
use popsicle.Staking.Delegations.Insertion.{
  AtMost, IsDescending, AtMost-mono, insert_bond-IsDescending, insert_bond-AtMost,
  insert_bond-AtLeast,
}
use popsicle.Staking.Delegations.Sums.{
  weigh, sum, weigh-insert_bond, length-insert_bond, weigh-init, init-IsDescending, init-AtMost,
  init-AtLeast, lowest-AtLeast, AtLeast-lowest,
}
use popsicle.Staking.Candidate.Invariant.{HasBounds, IsSplit}

-- A list of delegations without its lowest, and with a new one.
abbrev pub without_lowest : Delegations → Delegations
without_lowest d = record {
  delegations = init d.delegations;
  total = saturating_sub d.total (lowest_delegation_amount d);
}

-- The bottom once there is room for one more: the lowest has left where it was full.
abbrev pub room : (T : Config) → Delegations → Delegations
room T bottom =
    if length bottom.delegations == T.max_bottom_delegations_per_candidate
    then without_lowest bottom
    else bottom

abbrev pub lowest_of : List Bond → List Bond
lowest_of ds = elim (last? ds) [ none ↦ [] | some k ↦ k ∷ [] ]

-- The delegations that have to leave for that: none, or the lowest.
abbrev pub kicked : (T : Config) → Delegations → List Bond
kicked T bottom =
    if length bottom.delegations == T.max_bottom_delegations_per_candidate
    then lowest_of bottom.delegations
    else []

weigh-init_lowest :
    (f : Bond → ℕ) (ds : List Bond) → weigh f (init ds) + weigh f (lowest_of ds) ≡ weigh f ds
weigh-init_lowest f [] = refl
weigh-init_lowest f (x ∷ []) = omega arith
weigh-init_lowest f (x ∷ y ∷ ds) = omega (arith, weigh-init_lowest f (y ∷ ds))

module _ (T : Config) (bottom : Delegations) (h : HasBounds T) where
  room-IsDescending : IsDescending bottom.delegations → IsDescending (room T bottom).delegations
  room-IsDescending s = ground (arith, init-IsDescending bottom.delegations s)

  room-AtMost : (n : ℕ) → AtMost n bottom.delegations → AtMost n (room T bottom).delegations
  room-AtMost n a = ground (arith, init-AtMost n bottom.delegations a)

  room-lt :
      length bottom.delegations ≤ T.max_bottom_delegations_per_candidate
      → length (room T bottom).delegations < T.max_bottom_delegations_per_candidate
  room-lt fits = ground (arith, length-init bottom.delegations, h.bottom_pos)

  weigh-room :
      (f : Bond → ℕ)
      → weigh f (room T bottom).delegations + weigh f (kicked T bottom) ≡ weigh f bottom.delegations
  weigh-room f = ground (arith, weigh-init_lowest f bottom.delegations)

-- The lists after a delegation has gone to the bottom; to a full top, whose lowest goes to the
-- bottom; and to a top with room.
abbrev pub enter_bottom : (T : Config) → Bond → Delegations → Delegations
enter_bottom T d bottom = insert_sorted_greatest_to_least d (room T bottom)

abbrev pub enter_full_top : Bond → Delegations → Delegations
enter_full_top d top = insert_sorted_greatest_to_least d (without_lowest top)

module _ (T : Config) (d : Bond) (top bottom : Delegations) (h : HasBounds T)
    (v : IsSplit T top bottom) where
  -- A delegation that is not above the lowest top may go to the bottom of a full top.
  pub enter_bottom-IsSplit :
      length top.delegations ≡ T.max_top_delegations_per_candidate
      → d.amount ≤ lowest_delegation_amount top
      → IsSplit T top (enter_bottom T d bottom)
  unfolding insert_sorted_greatest_to_least
  enter_bottom-IsSplit full low = record {
    top_sorted = v.top_sorted;
    bottom_sorted = insert_bond-IsDescending _ d (room-IsDescending T bottom h v.bottom_sorted);
    top_fits = v.top_fits;
    bottom_fits = omega (
      arith,
      length-insert_bond _ d (room-IsDescending T bottom h v.bottom_sorted),
      room-lt T bottom h v.bottom_fits,
    );
    top_total = v.top_total;
    spill = inr full;
    layered =
        insert_bond-AtMost _ _ d (room-IsDescending T bottom h v.bottom_sorted) low
          (room-AtMost T bottom h _ v.layered);
  }

  pub length-enter_bottom : length (enter_bottom T d bottom).delegations ≡ (
      if length bottom.delegations == T.max_bottom_delegations_per_candidate
      then length bottom.delegations
      else suc (length bottom.delegations))
  unfolding insert_sorted_greatest_to_least
  length-enter_bottom = ground (
    arith,
    length-insert_bond _ d (room-IsDescending T bottom h v.bottom_sorted),
    length-init bottom.delegations,
    h.bottom_pos,
  )

  pub length-enter_full_top :
      length top.delegations ≡ T.max_top_delegations_per_candidate
      → length (enter_full_top d top).delegations ≡ length top.delegations
  unfolding insert_sorted_greatest_to_least
  length-enter_full_top full = omega (
    arith,
    length-insert_bond _ d (init-IsDescending _ v.top_sorted),
    length-init top.delegations,
    h.top_pos,
  )

  pub length-enter_top :
      length (insert_sorted_greatest_to_least d top).delegations ≡ suc (length top.delegations)
  unfolding insert_sorted_greatest_to_least
  length-enter_top = length-insert_bond _ d v.top_sorted

  pub weigh-enter_top :
      (f : Bond → ℕ)
      → weigh f (insert_sorted_greatest_to_least d top).delegations ≡ weigh f top.delegations + f d
  unfolding insert_sorted_greatest_to_least
  weigh-enter_top f = weigh-insert_bond f _ d v.top_sorted

  pub weigh-enter_bottom :
      (f : Bond → ℕ)
      → weigh f (enter_bottom T d bottom).delegations + weigh f (kicked T bottom)
        ≡ weigh f bottom.delegations + f d
  unfolding insert_sorted_greatest_to_least
  weigh-enter_bottom f = omega (
    arith,
    weigh-insert_bond f _ d (room-IsDescending T bottom h v.bottom_sorted),
    weigh-room T bottom h f,
  )

  pub weigh-enter_full_top :
      (f : Bond → ℕ) (k : Bond)
      → last? top.delegations ≡ some k
      → weigh f (enter_full_top d top).delegations + f k ≡ weigh f top.delegations + f d
  unfolding insert_sorted_greatest_to_least
  weigh-enter_full_top f k e = omega (
    arith,
    weigh-insert_bond f _ d (init-IsDescending _ v.top_sorted),
    weigh-init f top.delegations k e,
  )

  pub lowest_is :
      (k : Bond) → last? top.delegations ≡ some k → lowest_delegation_amount top ≡ k.amount
  lowest_is k e = ground arith

  -- A delegation above the lowest of a full top goes to the top, and the lowest to the bottom.
  pub enter_full_top-IsSplit :
      (k : Bond)
      → last? top.delegations ≡ some k
      → length top.delegations ≡ T.max_top_delegations_per_candidate
      → k.amount < d.amount
      → sum top.delegations + d.amount ≤ max_balance
      → IsSplit T (enter_full_top d top) (enter_bottom T k bottom)
  unfolding insert_sorted_greatest_to_least
  enter_full_top-IsSplit k e full above room_left = record {
    top_sorted = insert_bond-IsDescending _ d (init-IsDescending _ v.top_sorted);
    bottom_sorted = insert_bond-IsDescending _ k (room-IsDescending T bottom h v.bottom_sorted);
    top_fits = omega (arith, size, full);
    bottom_fits = omega (
      arith,
      length-insert_bond _ k (room-IsDescending T bottom h v.bottom_sorted),
      room-lt T bottom h v.bottom_fits,
    );
    top_total = omega (
      arith,
      weigh-insert_bond (λ x. x.amount) _ d (init-IsDescending _ v.top_sorted),
      weigh-init (λ x. x.amount) top.delegations k e,
      v.top_total,
      lowest_is k e,
    );
    spill = inr (omega (arith, size, full));
    layered = AtMost-mono k.amount _ _ above_lowest (
        insert_bond-AtMost _ _ k (room-IsDescending T bottom h v.bottom_sorted) (omega arith)
          (room-AtMost T bottom h _ (rw (← lowest_is k e) v.layered)));
  }
    where
      size : length (insert_bond (init top.delegations) d) ≡ length top.delegations
      size = omega (
        arith,
        length-insert_bond _ d (init-IsDescending _ v.top_sorted),
        length-init top.delegations,
        h.top_pos,
      )

      above_lowest : k.amount ≤ lowest_delegation_amount (enter_full_top d top)
      above_lowest =
          AtLeast-lowest k.amount (insert_bond (init top.delegations) d)
            (enter_full_top d top).total (omega (arith, size, full, h.top_pos))
            (insert_bond-AtLeast k.amount (init top.delegations) d
              (init-IsDescending top.delegations v.top_sorted) (omega arith)
              (init-AtLeast k.amount top.delegations
                (lowest-AtLeast top.delegations k v.top_sorted e)))

  -- While the top has room, a delegation goes there, and there is nothing at the bottom.
  pub enter_top-IsSplit :
      length top.delegations < T.max_top_delegations_per_candidate
      → sum top.delegations + d.amount ≤ max_balance
      → IsSplit T (insert_sorted_greatest_to_least d top) bottom
  unfolding insert_sorted_greatest_to_least
  enter_top-IsSplit free room_left = record {
    top_sorted = insert_bond-IsDescending _ d v.top_sorted;
    bottom_sorted = v.bottom_sorted;
    top_fits = omega (arith, length-insert_bond _ d v.top_sorted);
    bottom_fits = v.bottom_fits;
    top_total = omega (arith, weigh-insert_bond (λ x. x.amount) _ d v.top_sorted, v.top_total);
    spill = inl none_below;
    layered = nothing _ bottom.delegations none_below;
  }
    where
      none_below : length bottom.delegations ≡ 0
      none_below = omega (arith, v.spill)

      nothing : (n : ℕ) (ds : List Bond) → length ds ≡ 0 → AtMost n ds
      nothing n [] e = tt
      nothing n (x ∷ ds) e = absurd (omega arith)

pub is_full-capacity : (max : ℕ) (ds : List Bond) → is_full (capacity max ds) ≡ leb max (length ds)
is_full-capacity max [] = ground arith
is_full-capacity max (x ∷ xs) = ground arith
