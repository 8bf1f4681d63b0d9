-- ===== src/Prelude/Sorted.antt =====
-- The list that `sort_by` gives is sorted, for a total and transitive test.
use Prim.Native.Nat.{ℕ, zero, suc, min}
use mathlib.Core.Path.{◌≡◌, refl, ap}
use mathlib.Core.Logic.{inl, inr}
use mathlib.Core.Bool.{Bool, true, false}
use mathlib.Core.List.{List, [], ◌∷◌, ◌++◌}
use native.Mathlib.Omega.{arith}
use popsicle.Prelude.Tests.{Bool-cases}
use popsicle.Prelude.Lists.{All, length}
use popsicle.Prelude.Sorting.{sort_insert, sort_by}

module _ {ℓ} {A : Type ℓ} where
  abbrev pub take : ℕ → List A → List A
  take zero xs = []
  take (suc n) [] = []
  take (suc n) (x ∷ xs) = x ∷ take n xs

  abbrev pub drop : ℕ → List A → List A
  drop zero xs = xs
  drop (suc n) [] = []
  drop (suc n) (x ∷ xs) = drop n xs

  pub take-append-drop : (n : ℕ) (xs : List A) → take n xs ++ drop n xs ≡ xs
  take-append-drop zero xs = refl
  take-append-drop (suc n) [] = refl
  take-append-drop (suc n) (x ∷ xs) = ap (λ ys. x ∷ ys) (take-append-drop n xs)

  pub length-take : (n : ℕ) (xs : List A) → length (take n xs) ≡ min n (length xs)
  length-take zero xs = omega arith
  length-take (suc n) [] = omega arith
  length-take (suc n) (x ∷ xs) = omega (arith, length-take n xs)

  pub take-All {κ} : (P : A → Type κ) (n : ℕ) (xs : List A) → All P xs → All P (take n xs)
  take-All P zero xs h = tt
  take-All P (suc n) [] h = tt
  take-All P (suc n) (x ∷ xs) h = (h.0, take-All P n xs h.1)

  pub drop-All {κ} : (P : A → Type κ) (n : ℕ) (xs : List A) → All P xs → All P (drop n xs)
  drop-All P zero xs h = h
  drop-All P (suc n) [] h = tt
  drop-All P (suc n) (x ∷ xs) h = drop-All P n xs h.1

  pub All-mono {κ} :
      {P Q : A → Type κ} → ((x : A) → P x → Q x) → (xs : List A) → All P xs → All Q xs
  All-mono f [] h = tt
  All-mono f (x ∷ xs) h = (f x h.0, All-mono f xs h.1)

module _ {ℓ} {A : Type ℓ} (before : A → A → Bool) where
  -- Every element may precede all that follow.
  abbrev pub IsSorted : List A → Type 0
  IsSorted [] = Unit
  IsSorted (x ∷ xs) = All (λ y. before x y ≡ true) xs × IsSorted xs

  pub sort_insert-All {κ} :
      (P : A → Type κ) (x : A) (xs : List A) → P x → All P xs → All P (sort_insert before x xs)
  sort_insert-All P x [] p h = (p, tt)
  sort_insert-All P x (y ∷ ys) p h = elim (Bool-cases (before x y)) [
    | inl e ↦ rw e (p, h)
    | inr e ↦ rw e (h.0, sort_insert-All P x ys p h.1)
  ]

  pub sort_by-All {κ} : (P : A → Type κ) (xs : List A) → All P xs → All P (sort_by before xs)
  sort_by-All P [] h = tt
  sort_by-All P (x ∷ xs) h = sort_insert-All P x (sort_by before xs) h.0 (sort_by-All P xs h.1)

  pub length-sort_insert :
      (x : A) (xs : List A) → length (sort_insert before x xs) ≡ suc (length xs)
  length-sort_insert x [] = refl
  length-sort_insert x (y ∷ ys) = elim (Bool-cases (before x y)) [
    | inl e ↦ rw e refl
    | inr e ↦ rw e (ap suc (length-sort_insert x ys))
  ]

  pub length-sort_by : (xs : List A) → length (sort_by before xs) ≡ length xs
  length-sort_by [] = refl
  length-sort_by (x ∷ xs) =
      omega (arith, length-sort_insert x (sort_by before xs), length-sort_by xs)

  -- What a sorted list begins with may precede what it ends with.
  pub take-drop_before :
      (n : ℕ) (xs : List A)
      → IsSorted xs
      → All (λ x. All (λ y. before x y ≡ true) (drop n xs)) (take n xs)
  take-drop_before zero xs h = tt
  take-drop_before (suc n) [] h = tt
  take-drop_before (suc n) (x ∷ xs) h =
      (drop-All (λ y. before x y ≡ true) n xs h.0, take-drop_before n xs h.1)

  module _ (total : (x y : A) → before x y ≡ false → before y x ≡ true)
      (trans : (x y z : A) → before x y ≡ true → before y z ≡ true → before x z ≡ true) where
    sort_insert-IsSorted : (x : A) (xs : List A) → IsSorted xs → IsSorted (sort_insert before x xs)
    sort_insert-IsSorted x [] h = (tt, tt)
    sort_insert-IsSorted x (y ∷ ys) h = elim (Bool-cases (before x y)) [
      | inl e ↦ rw e ((e, All-mono (λ z p. trans x y z e p) ys h.0), h)
      | inr e ↦ rw e (
        sort_insert-All (λ z. before y z ≡ true) x ys (total x y e) h.0,
        sort_insert-IsSorted x ys h.1,
      )
    ]

    pub sort_by-IsSorted : (xs : List A) → IsSorted (sort_by before xs)
    sort_by-IsSorted [] = tt
    sort_by-IsSorted (x ∷ xs) = sort_insert-IsSorted x (sort_by before xs) (sort_by-IsSorted xs)
