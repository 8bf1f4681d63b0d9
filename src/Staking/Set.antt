-- ===== src/Staking/Set.antt =====
-- pallets/sequencer-staking/src/set.rs: sets as sorted vectors without repeats. The order of the
-- elements is that of `key`, the part which their `cmp` and `eq` read (the owner, for a `Bond`).
pub mod Laws
pub mod Build
use popsicle.Prelude.{
  ℕ, suc, compare, Ordering, Bool, true, false, List, [], ◌∷◌, length, insert_at, remove_at, Search,
  found, absent, binary_search_by, sort_by, leb, ltb, ◌==◌, if◌then◌else◌, Option, none, some,
}

-- `slice::dedup`, run over a list whose last kept element is `x`
abbrev pub dedup_from {ℓ} : {A : Type ℓ} → (A → ℕ) → A → List A → List A
dedup_from key x [] = x ∷ []
dedup_from key x (y ∷ ys) = elim (key x == key y) [
  | true ↦ dedup_from key x ys
  | false ↦ x ∷ dedup_from key y ys
]

abbrev pub dedup {ℓ} : {A : Type ℓ} → (A → ℕ) → List A → List A
dedup key [] = []
dedup key (x ∷ xs) = dedup_from key x xs

module _ {ℓ} {A : Type ℓ} (key : A → ℕ) where
  abbrev pub search : A → List A → Search
  search value = binary_search_by (λ x. compare (key x) (key value))

  -- `OrderedSet::from`
  unfoldable pub from : List A → List A
  from v = dedup key (sort_by (λ a b. leb (key a) (key b)) v)

  -- `OrderedSet::insert`: whether the value was inserted, and the set after it.
  unfoldable pub insert : A → List A → Bool × List A
  insert value xs = elim (search value xs) [
    | found _ ↦ (false, xs)
    | absent loc ↦ (true, insert_at loc value xs)
  ]

  -- `OrderedSet::remove`
  unfoldable pub remove : A → List A → Bool × List A
  remove value xs = elim (search value xs) [
    | found loc ↦ (true, remove_at loc xs)
    | absent _ ↦ (false, xs)
  ]

  -- `OrderedSet::contains`
  unfoldable pub contains : A → List A → Bool
  contains value xs = elim (search value xs) [ found _ ↦ true | absent _ ↦ false ]

  -- `BoundedOrderedSet::try_insert`; `none` is the error of a full `BoundedVec`.
  unfoldable pub try_insert : ℕ → A → List A → Option (Bool × List A)
  try_insert bound value xs = elim (search value xs) [
    | found _ ↦ some (false, xs)
    | absent loc ↦ if ltb (length xs) bound then some (true, insert_at loc value xs) else none
  ]
