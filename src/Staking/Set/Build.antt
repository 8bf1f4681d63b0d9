-- ===== src/Staking/Set/Build.antt =====
-- `OrderedSet::from` and the bounded `try_insert` of pallets/sequencer-staking/src/set.rs.
use popsicle.Prelude.{
  ℕ, ◌≤◌, ◌<◌, ◌≡◌, refl, ap, ◌∙◌, filter, inl, inr, Bool-cases, Bool, not, ◌&&◌, ◌||◌, List, [],
  ◌∷◌, All, length, leb, ◌==◌, none, some, if◌then◌else◌, sort_by, sort_insert, arith,
}
use popsicle.Staking.Set.{from, insert, contains, try_insert, dedup, dedup_from}
use popsicle.Staking.Set.Laws.{IsOrdered, has_key, contains-has_key}

module _ {A : Type 0} (key : A → ℕ) where
  abbrev by_key : A → A → Bool
  by_key a b = leb (key a) (key b)

  -- The keys rise, not strictly.
  abbrev IsSorted : List A → Type 0
  IsSorted [] = Unit
  IsSorted (x ∷ xs) = All (λ y. key x ≤ key y) xs × IsSorted xs

  All-le_trans : (j k : ℕ) (xs : List A) → j ≤ k → All (λ y. k ≤ key y) xs → All (λ y. j ≤ key y) xs
  All-le_trans j k [] le h = tt
  All-le_trans j k (x ∷ xs) le h = (omega arith, All-le_trans j k xs le h.1)

  sort_insert-All :
      (k : ℕ) (v : A) (xs : List A)
      → k ≤ key v
      → All (λ y. k ≤ key y) xs
      → All (λ y. k ≤ key y) (sort_insert by_key v xs)
  sort_insert-All k v [] h a = (h, tt)
  sort_insert-All k v (x ∷ xs) h a = ground (arith, sort_insert-All k v xs h a.1)

  sort_insert-IsSorted : (v : A) (xs : List A) → IsSorted xs → IsSorted (sort_insert by_key v xs)
  sort_insert-IsSorted v [] h = (tt, tt)
  sort_insert-IsSorted v (x ∷ xs) h = ground (
    arith,
    sort_insert-IsSorted v xs h.1,
    sort_insert-All (key x) v xs,
    All-le_trans (key v) (key x) xs,
  )

  sort_by-IsSorted : (xs : List A) → IsSorted (sort_by by_key xs)
  sort_by-IsSorted [] = tt
  sort_by-IsSorted (x ∷ xs) = sort_insert-IsSorted x (sort_by by_key xs) (sort_by-IsSorted xs)

  has_key-sort_insert :
      (v : A) (k : ℕ) (xs : List A)
      → has_key key k (sort_insert by_key v xs) ≡ (key v == k) || has_key key k xs
  has_key-sort_insert v k [] = refl
  has_key-sort_insert v k (x ∷ xs) = ground (arith, has_key-sort_insert v k xs)

  has_key-sort_by : (k : ℕ) (xs : List A) → has_key key k (sort_by by_key xs) ≡ has_key key k xs
  has_key-sort_by k [] = refl
  has_key-sort_by k (x ∷ xs) =
      ground (arith, has_key-sort_insert x k (sort_by by_key xs), has_key-sort_by k xs)

  lt_of_le : (k j : ℕ) (xs : List A) → k < j → All (λ y. j ≤ key y) xs → All (λ y. k < key y) xs
  lt_of_le k j [] lt h = tt
  lt_of_le k j (x ∷ xs) lt h = (omega arith, lt_of_le k j xs lt h.1)

  dedup_from-All :
      (k : ℕ) (x : A) (xs : List A)
      → k < key x
      → All (λ y. k < key y) xs
      → All (λ y. k < key y) (dedup_from key x xs)
  dedup_from-All k x [] h a = (h, tt)
  dedup_from-All k x (y ∷ ys) h a =
      ground (arith, dedup_from-All k x ys h a.1, dedup_from-All k y ys a.0 a.1)

  dedup_from-IsOrdered :
      (x : A) (xs : List A) → IsSorted (x ∷ xs) → IsOrdered key (dedup_from key x xs)
  dedup_from-IsOrdered x [] s = (tt, tt)
  dedup_from-IsOrdered x (y ∷ ys) s = ground (
    arith,
    dedup_from-IsOrdered x ys (s.0.1, s.1.1),
    dedup_from-IsOrdered y ys s.1,
    dedup_from-All (key x) y ys,
    lt_of_le (key x) (key y) ys,
  )

  has_key-dedup_from :
      (k : ℕ) (x : A) (xs : List A)
      → has_key key k (dedup_from key x xs) ≡ (key x == k) || has_key key k xs
  has_key-dedup_from k x [] = refl
  has_key-dedup_from k x (y ∷ ys) =
      ground (arith, has_key-dedup_from k x ys, has_key-dedup_from k y ys)

  dedup-IsOrdered : (xs : List A) → IsSorted xs → IsOrdered key (dedup key xs)
  dedup-IsOrdered [] s = tt
  dedup-IsOrdered (x ∷ xs) s = dedup_from-IsOrdered x xs s

  has_key-dedup : (k : ℕ) (xs : List A) → has_key key k (dedup key xs) ≡ has_key key k xs
  has_key-dedup k [] = refl
  has_key-dedup k (x ∷ xs) = has_key-dedup_from k x xs

  pub from-IsOrdered : (xs : List A) → IsOrdered key (from key xs)
  unfolding from
  from-IsOrdered xs = dedup-IsOrdered (sort_by by_key xs) (sort_by-IsSorted xs)

  has_key-from : (k : ℕ) (xs : List A) → has_key key k (from key xs) ≡ has_key key k xs
  unfolding from
  has_key-from k xs = has_key-dedup k (sort_by by_key xs) ∙ has_key-sort_by k xs

  filter-All : (P : A → Type 0) (p : A → Bool) (xs : List A) → All P xs → All P (filter p xs)
  filter-All P p [] a = tt
  filter-All P p (x ∷ xs) a = elim (Bool-cases (p x)) [
    | inl e ↦ rw e (a.0, filter-All P p xs a.1)
    | inr e ↦ rw e (filter-All P p xs a.1)
  ]

  pub filter-IsOrdered :
      (p : A → Bool) (xs : List A) → IsOrdered key xs → IsOrdered key (filter p xs)
  filter-IsOrdered p [] h = tt
  filter-IsOrdered p (x ∷ xs) h = elim (Bool-cases (p x)) [
    | inl e ↦ rw e (filter-All (λ y. key x < key y) p xs h.0, filter-IsOrdered p xs h.1)
    | inr e ↦ rw e (filter-IsOrdered p xs h.1)
  ]

  sort_insert-first :
      (v : A) (xs : List A) → All (λ y. key v < key y) xs → sort_insert by_key v xs ≡ v ∷ xs
  sort_insert-first v [] a = refl
  sort_insert-first v (x ∷ xs) a = ground (arith, a.0)

  sort_by-ordered : (xs : List A) → IsOrdered key xs → sort_by by_key xs ≡ xs
  sort_by-ordered [] h = refl
  sort_by-ordered (x ∷ xs) h =
      ap (sort_insert by_key x) (sort_by-ordered xs h.1) ∙ sort_insert-first x xs h.0

  dedup_from-ordered : (x : A) (xs : List A) → IsOrdered key (x ∷ xs) → dedup_from key x xs ≡ x ∷ xs
  dedup_from-ordered x [] h = refl
  dedup_from-ordered x (y ∷ ys) h = ground (arith, h.0.0, dedup_from-ordered y ys h.1)

  dedup-ordered : (xs : List A) → IsOrdered key xs → dedup key xs ≡ xs
  dedup-ordered [] h = refl
  dedup-ordered (x ∷ xs) h = dedup_from-ordered x xs h

  -- `from` leaves a set as it is.
  pub from-ordered : (xs : List A) → IsOrdered key xs → from key xs ≡ xs
  unfolding from
  from-ordered xs h = ap (dedup key) (sort_by-ordered xs h) ∙ dedup-ordered xs h

  -- Whatever vector it is given, `from` builds a set, which contains the values of the vector and
  -- no others.
  from_lem :
      (xs : List A)
      → IsOrdered key (from key xs)
        × ((w : A) → contains key w (from key xs) ≡ has_key key (key w) xs)
  from_lem xs = (from-IsOrdered xs, λ w. member w)
    where
      member : (w : A) → contains key w (from key xs) ≡ has_key key (key w) xs
      member w = contains-has_key key w (from key xs) (from-IsOrdered xs) ∙ has_key-from (key w) xs

  -- `try_insert` fails exactly when the value is absent and the set is at its bound; otherwise it
  -- does what `insert` does.
  pub try_insert_lem :
      (bound : ℕ) (v : A) (xs : List A)
      → try_insert key bound v xs ≡ (
          if not (contains key v xs) && leb bound (length xs) then none else some (insert key v xs))
  unfolding try_insert contains insert
  try_insert_lem bound v xs = ground arith
