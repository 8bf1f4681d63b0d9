-- ===== src/Staking/Delegations/Insertion.antt =====
-- The sorted insertion of pallets/sequencer-staking/src/types.rs against a plain description of it.
use popsicle.Prelude.{
  ℕ, zero, suc, ◌≤◌, ◌<◌, ◌≡◌, refl, ap, ◌∙◌, true, List, [], ◌∷◌, All, compare, Ordering, length,
  insert_at, push, Search, found, absent, shift, binary_search_by, sort_by, sort_insert, leb,
  if◌then◌else◌, arith, inl, inr, Bool-cases,
}
use popsicle.Staking.Types.{Bond, Delegations}
use popsicle.Staking.Delegations.{
  amount_geq, skip_equal, last_has_amount, place, insert_bond, sort_greatest_to_least,
}

abbrev pub AtMost : ℕ → List Bond → Type 0
AtMost n = All (λ x. x.amount ≤ n)

abbrev pub AtLeast : ℕ → List Bond → Type 0
AtLeast n = All (λ x. n ≤ x.amount)

-- Greatest amount first.
abbrev pub IsDescending : List Bond → Type 0
IsDescending [] = Unit
IsDescending (x ∷ xs) = AtMost x.amount xs × IsDescending xs

-- First come, first served: the new delegation stands behind all that are at least as large, and
-- ahead of all that are smaller.
abbrev pub stable_insert : List Bond → Bond → List Bond
stable_insert [] d = d ∷ []
stable_insert (x ∷ xs) d = if leb d.amount x.amount then x ∷ stable_insert xs d else d ∷ x ∷ xs

-- What the documentation of `binary_search_by` says of its answer. For a match: it is one of them.
-- For none: all that precede the index are greater, and all from it on are smaller.
abbrev pub Answers : List Bond → Bond → Search → Type 0
Answers [] d (found i) = ⊥
Answers (x ∷ xs) d (found zero) = x.amount ≡ d.amount
Answers (x ∷ xs) d (found (suc i)) = Answers xs d (found i)
Answers ds d (absent zero) = All (λ x. x.amount < d.amount) ds
Answers [] d (absent (suc i)) = ⊥
Answers (x ∷ xs) d (absent (suc i)) = (d.amount < x.amount) × Answers xs d (absent i)

pub AtMost-mono : (m n : ℕ) (xs : List Bond) → m ≤ n → AtMost m xs → AtMost n xs
AtMost-mono m n [] le h = tt
AtMost-mono m n (x ∷ xs) le h = (omega arith, AtMost-mono m n xs le h.1)

skip_equal-cons :
    (fuel : ℕ) (x : Bond) (xs : List Bond) (k : ℕ) (d : Bond)
    → skip_equal fuel (x ∷ xs) (suc k) d ≡ x ∷ skip_equal fuel xs k d
unfolding skip_equal
skip_equal-cons zero x xs k d = refl
skip_equal-cons (suc fuel) x xs k d = ground (arith, skip_equal-cons fuel x xs (suc k) d)

-- With fuel for every element, the walk ends where the smaller amounts begin.
skip_equal-stable_insert :
    (fuel : ℕ) (xs : List Bond) (d : Bond)
    → length xs ≤ fuel
    → IsDescending xs
    → AtMost d.amount xs
    → skip_equal fuel xs 0 d ≡ stable_insert xs d
unfolding skip_equal
skip_equal-stable_insert zero [] d f s a = refl
skip_equal-stable_insert zero (x ∷ xs) d f s a = absurd (omega arith)
skip_equal-stable_insert (suc fuel) [] d f s a = refl
skip_equal-stable_insert (suc fuel) (x ∷ xs) d f s a =
    ground (
      arith,
      skip_equal-cons fuel x xs 0 d,
      skip_equal-stable_insert fuel xs d (omega arith) s.1 a.1,
    )

stable_insert-geq :
    (x d : Bond) (xs : List Bond)
    → d.amount ≤ x.amount
    → x ∷ stable_insert xs d ≡ stable_insert (x ∷ xs) d
stable_insert-geq x d xs h = ground arith

found-le :
    (n : ℕ) (d : Bond) (xs : List Bond) (i : ℕ)
    → AtMost n xs
    → Answers xs d (found i)
    → d.amount ≤ n
found-le n d [] i h a = elim a [ ]
found-le n d (x ∷ xs) zero h a = omega arith
found-le n d (x ∷ xs) (suc i) h a = found-le n d xs i h.1 a

skip_equal-found :
    (fuel : ℕ) (ds : List Bond) (d : Bond) (i : ℕ)
    → length ds ≤ fuel
    → IsDescending ds
    → Answers ds d (found i)
    → skip_equal fuel ds (suc i) d ≡ stable_insert ds d
skip_equal-found fuel [] d i f s a = elim a [ ]
skip_equal-found fuel (x ∷ xs) d zero f s a =
    skip_equal-cons fuel x xs 0 d
    ∙ ap (λ r. x ∷ r)
        (skip_equal-stable_insert fuel xs d (omega arith) s.1
          (AtMost-mono x.amount d.amount xs (omega arith) s.0))
    ∙ stable_insert-geq x d xs (omega arith)
skip_equal-found fuel (x ∷ xs) d (suc i) f s a =
    skip_equal-cons fuel x xs (suc i) d
    ∙ ap (λ r. x ∷ r) (skip_equal-found fuel xs d i (omega arith) s.1 a)
    ∙ stable_insert-geq x d xs (found-le x.amount d xs i s.0 a)

insert_at-absent :
    (ds : List Bond) (d : Bond) (i : ℕ)
    → Answers ds d (absent i)
    → insert_at i d ds ≡ stable_insert ds d
insert_at-absent [] d zero a = refl
insert_at-absent [] d (suc i) a = elim a [ ]
insert_at-absent (x ∷ xs) d zero a = ground arith
insert_at-absent (x ∷ xs) d (suc i) a = ground (arith, insert_at-absent xs d i a.1)

push-stable_insert :
    (ds : List Bond) (d : Bond) → AtLeast d.amount ds → push ds d ≡ stable_insert ds d
push-stable_insert [] d a = refl
push-stable_insert (x ∷ xs) d a = ground (arith, push-stable_insert xs d a.1)

last-AtLeast :
    (ds : List Bond) (d : Bond)
    → IsDescending ds
    → last_has_amount ds d ≡ true
    → AtLeast d.amount ds
last-AtLeast [] d s h = tt
last-AtLeast (x ∷ []) d s h = (ground arith, tt)
last-AtLeast (x ∷ y ∷ ds) d s h = ground (arith, last-AtLeast (y ∷ ds) d s.1 h)

smaller-AtMost :
    (d : Bond) (n : ℕ) (xs : List Bond)
    → n < d.amount
    → AtMost n xs
    → All (λ x. x.amount < d.amount) xs
smaller-AtMost d n [] lt a = tt
smaller-AtMost d n (x ∷ xs) lt a = (omega arith, smaller-AtMost d n xs lt a.1)

Answers-shift :
    (x d : Bond) (xs : List Bond) (r : Search)
    → d.amount < x.amount
    → Answers xs d r
    → Answers (x ∷ xs) d (shift r)
Answers-shift x d xs (found i) h a = a
Answers-shift x d xs (absent i) h a = (h, a)

Answers-step :
    (x d : Bond) (xs : List Bond) (o : Ordering) (rest : Search)
    → compare d.amount x.amount ≡ o
    → AtMost x.amount xs
    → Answers xs d rest
    → Answers
        (x ∷ xs)
        d
        (elim o [ Ordering.lt ↦ shift rest | Ordering.eq ↦ found 0 | Ordering.gt ↦ absent 0 ])
Answers-step x d xs Ordering.lt rest e a h = Answers-shift x d xs rest (ground arith) h
Answers-step x d xs Ordering.eq rest e a h = ground arith
Answers-step x d xs Ordering.gt rest e a h =
    let lt : x.amount < d.amount = ground arith in (lt, smaller-AtMost d x.amount xs lt a)

-- The search of the model keeps the promise of the documentation.
binary_search-Answers :
    (ds : List Bond) (d : Bond)
    → IsDescending ds
    → Answers ds d (binary_search_by (λ x. compare d.amount x.amount) ds)
binary_search-Answers [] d s = tt
binary_search-Answers (x ∷ xs) d s =
    Answers-step x d xs (compare d.amount x.amount) _ refl s.0 (binary_search-Answers xs d s.1)

-- On a list sorted from the greatest amount down, for every answer that the documentation of
-- `binary_search_by` allows, any of the matches included, a new delegation goes behind all that
-- are at least as large, ahead of all smaller ones.
pub place-stable_insert :
    (ds : List Bond) (d : Bond) (answer : Search)
    → IsDescending ds
    → Answers ds d answer
    → place ds d answer ≡ stable_insert ds d
unfolding place
place-stable_insert ds d (found i) s a = skip_equal-found (length ds) ds d i (omega arith) s a
place-stable_insert ds d (absent i) s a = insert_at-absent ds d i a

-- On a list sorted from the greatest amount down, the early return for the amount of the last
-- delegation, the search and the walk past equal amounts together put a new delegation behind all
-- that are at least as large, ahead of all smaller ones.
pub insert_bond-stable_insert :
    (ds : List Bond) (d : Bond) → IsDescending ds → insert_bond ds d ≡ stable_insert ds d
unfolding insert_bond
insert_bond-stable_insert ds d s = elim (Bool-cases (last_has_amount ds d)) [
  | inl e ↦ rw e (push-stable_insert ds d (last-AtLeast ds d s e))
  | inr e ↦ rw e (place-stable_insert ds d _ s (binary_search-Answers ds d s))
]

stable_insert-AtMost :
    (n : ℕ) (ds : List Bond) (d : Bond) → d.amount ≤ n → AtMost n ds → AtMost n (stable_insert ds d)
stable_insert-AtMost n [] d h a = (h, tt)
stable_insert-AtMost n (x ∷ xs) d h a = ground (arith, stable_insert-AtMost n xs d h a.1)

stable_insert-IsDescending :
    (ds : List Bond) (d : Bond) → IsDescending ds → IsDescending (stable_insert ds d)
stable_insert-IsDescending [] d s = (tt, tt)
stable_insert-IsDescending (x ∷ xs) d s = ground (
  arith,
  stable_insert-IsDescending xs d s.1,
  stable_insert-AtMost x.amount xs d,
  AtMost-mono x.amount d.amount xs,
)

pub insert_bond-IsDescending :
    (ds : List Bond) (d : Bond) → IsDescending ds → IsDescending (insert_bond ds d)
insert_bond-IsDescending ds d s =
    rw (insert_bond-stable_insert ds d s) (stable_insert-IsDescending ds d s)

pub insert_bond-AtMost :
    (n : ℕ) (ds : List Bond) (d : Bond)
    → IsDescending ds
    → d.amount ≤ n
    → AtMost n ds
    → AtMost n (insert_bond ds d)
insert_bond-AtMost n ds d s h a =
    rw (insert_bond-stable_insert ds d s) (stable_insert-AtMost n ds d h a)

stable_insert-AtLeast :
    (n : ℕ) (ds : List Bond) (d : Bond)
    → n ≤ d.amount
    → AtLeast n ds
    → AtLeast n (stable_insert ds d)
stable_insert-AtLeast n [] d h a = (h, tt)
stable_insert-AtLeast n (x ∷ xs) d h a = ground (arith, stable_insert-AtLeast n xs d h a.1)

pub insert_bond-AtLeast :
    (n : ℕ) (ds : List Bond) (d : Bond)
    → IsDescending ds
    → n ≤ d.amount
    → AtLeast n ds
    → AtLeast n (insert_bond ds d)
insert_bond-AtLeast n ds d s h a =
    rw (insert_bond-stable_insert ds d s) (stable_insert-AtLeast n ds d h a)

pub sort_insert-AtMost :
    (n : ℕ) (d : Bond) (ds : List Bond)
    → d.amount ≤ n
    → AtMost n ds
    → AtMost n (sort_insert amount_geq d ds)
sort_insert-AtMost n d [] h a = (h, tt)
sort_insert-AtMost n d (x ∷ xs) h a = ground (arith, sort_insert-AtMost n d xs h a.1)

sort_insert-IsDescending :
    (d : Bond) (ds : List Bond) → IsDescending ds → IsDescending (sort_insert amount_geq d ds)
sort_insert-IsDescending d [] s = (tt, tt)
sort_insert-IsDescending d (x ∷ xs) s = ground (
  arith,
  sort_insert-IsDescending d xs s.1,
  sort_insert-AtMost x.amount d xs,
  AtMost-mono x.amount d.amount xs,
)

pub sort_by-IsDescending : (ds : List Bond) → IsDescending (sort_by amount_geq ds)
sort_by-IsDescending [] = tt
sort_by-IsDescending (d ∷ ds) =
    sort_insert-IsDescending d (sort_by amount_geq ds) (sort_by-IsDescending ds)

pub sort-IsDescending : (d : Delegations) → IsDescending (sort_greatest_to_least d).delegations
unfolding sort_greatest_to_least
sort-IsDescending d = sort_by-IsDescending d.delegations
