-- ===== src/Staking/Delegations.antt =====
-- `Delegations` of pallets/sequencer-staking/src/types.rs: the delegations to a candidate, greatest
-- amount first.
pub mod Insertion
pub mod Sums
use popsicle.Prelude.{
  ℕ, zero, suc, ◌+◌, ◌-◌, Bool, true, false, Option, none, some, List, [], ◌∷◌, compare, length,
  get_elem?, insert_at, push, last?, Search, found, absent, binary_search_by, sort_by,
  saturating_add, leb, ltb, ◌==◌, ◌&&◌, if◌then◌else◌,
}
use popsicle.Staking.Types.{Bond, Delegations, CapacityStatus}

-- `Delegations::sort_greatest_to_least`
abbrev pub amount_geq : Bond → Bond → Bool
amount_geq a b = leb b.amount a.amount

unfoldable pub sort_greatest_to_least : Delegations → Delegations
sort_greatest_to_least d = record d { delegations = sort_by amount_geq d.delegations }

-- the loop that walks past the delegations of the same amount, from `new_index` on; `fuel` is the
-- length, since each round goes one place on
unfoldable pub skip_equal : ℕ → List Bond → ℕ → Bond → List Bond
skip_equal zero ds new_index d = push ds d
skip_equal (suc fuel) ds new_index d =
    let rest = skip_equal fuel ds (suc new_index) d in
    elim (get_elem? ds new_index) [
      | none ↦ push ds d
      | some x ↦ if x.amount == d.amount then rest else insert_at new_index d ds
    ]

-- whether the last element has the amount of `d`
abbrev pub last_has_amount : List Bond → Bond → Bool
last_has_amount ds d = elim (last? ds) [ none ↦ false | some x ↦ x.amount == d.amount ]

-- where a search sends the new delegation
unfoldable pub place : List Bond → Bond → Search → List Bond
unfolding skip_equal
place ds d (found i) = skip_equal (length ds) ds (suc i) d
place ds d (absent i) = insert_at i d ds

unfoldable pub insert_bond : List Bond → Bond → List Bond
unfolding place
insert_bond ds d =
    if last_has_amount ds d
    then push ds d
    else place ds d (binary_search_by (λ x. compare d.amount x.amount) ds)

-- `Delegations::insert_sorted_greatest_to_least`
unfoldable pub insert_sorted_greatest_to_least : Bond → Delegations → Delegations
insert_sorted_greatest_to_least d ds = record {
  delegations = insert_bond ds.delegations d;
  total = saturating_add ds.total d.amount;
}

abbrev pub capacity : ℕ → List Bond → CapacityStatus
capacity max [] = if leb max 0 then CapacityStatus.full else CapacityStatus.empty
capacity max (x ∷ xs) =
    if leb max (length (x ∷ xs)) then CapacityStatus.full else CapacityStatus.partial

-- `Delegations::lowest_delegation_amount`
abbrev pub lowest_delegation_amount : Delegations → ℕ
lowest_delegation_amount d = elim (last? d.delegations) [ none ↦ 0 | some x ↦ x.amount ]

abbrev first_amount : List Bond → ℕ
first_amount [] = 0
first_amount (x ∷ xs) = x.amount

-- `Delegations::highest_delegation_amount`
abbrev pub highest_delegation_amount : Delegations → ℕ
highest_delegation_amount d = first_amount d.delegations
