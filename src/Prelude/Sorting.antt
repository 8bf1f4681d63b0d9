-- ===== src/Prelude/Sorting.antt =====
-- The standard library's `binary_search_by` and stable `sort_by`, by what their documentation
-- promises.
use Prim.Native.Nat.{ℕ, suc, Ordering}
use mathlib.Core.Bool.{Bool}
use mathlib.Core.List.{List, [], ◌∷◌}
use mathlib.Core.List.Perm
use mathlib.Core.List.{Perm}
use popsicle.Prelude.Tests.{if◌then◌else◌, Bool-cases}
use mathlib.Core.Logic.{inl, inr}

-- `Result<usize, usize>`: the index of a match, or the place where the value would go.
pub data Search : Type 0 where
  found : ℕ → Search
  absent : ℕ → Search

abbrev pub shift : Search → Search
shift (found i) = found (suc i)
shift (absent i) = absent (suc i)

module _ {ℓ} {A : Type ℓ} where
  -- On a list that `f` divides into less, equal and greater, in this order. The library may answer
  -- with any match; this answers with the first.
  abbrev pub binary_search_by : (A → Ordering) → List A → Search
  binary_search_by f [] = absent 0
  binary_search_by f (x ∷ xs) =
      let rest = shift (binary_search_by f xs) in
      elim (f x) [ Ordering.lt ↦ rest | Ordering.eq ↦ found 0 | Ordering.gt ↦ absent 0 ]

  -- One step of a stable sort: `x` stands before the first element that it may precede.
  abbrev pub sort_insert : (A → A → Bool) → A → List A → List A
  sort_insert before x [] = x ∷ []
  sort_insert before x (y ∷ ys) = if before x y then x ∷ y ∷ ys else y ∷ sort_insert before x ys

  abbrev pub sort_by : (A → A → Bool) → List A → List A
  sort_by before [] = []
  sort_by before (x ∷ xs) = sort_insert before x (sort_by before xs)

  pub sort_insert-perm :
      (before : A → A → Bool) (x : A) (xs : List A) → Perm (sort_insert before x xs) (x ∷ xs)
  sort_insert-perm before x [] = Perm.refl (x ∷ [])
  sort_insert-perm before x (y ∷ ys) = elim (Bool-cases (before x y)) [
    | inl e ↦ rw e (Perm.refl (x ∷ y ∷ ys))
    | inr e ↦ rw e (Perm.trans (Perm.cons y (sort_insert-perm before x ys)) (Perm.swap x y ys))
  ]

  pub sort_by-perm : (before : A → A → Bool) (xs : List A) → Perm (sort_by before xs) xs
  sort_by-perm before [] = Perm.refl []
  sort_by-perm before (x ∷ xs) =
      Perm.trans (sort_insert-perm before x (sort_by before xs))
        (Perm.cons x (sort_by-perm before xs))
