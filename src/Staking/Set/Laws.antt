-- ===== src/Staking/Set/Laws.antt =====
-- What the sets of pallets/sequencer-staking/src/set.rs promise.
use popsicle.Prelude.{
  ℕ, ◌≤◌, ◌<◌, ◌≡◌, ◌≢◌, ◌⊎◌, inl, inr, refl, Bool, true, false, not, ◌&&◌, ◌||◌, List, [], ◌∷◌,
  Option, some, find?, length, suc, All, ◌==◌, arith,
}
use popsicle.Staking.Set.{insert, remove, contains}

-- The keys rise strictly.
abbrev pub IsOrdered {ℓ} : {A : Type ℓ} → (A → ℕ) → List A → Type 0
IsOrdered key [] = Unit
IsOrdered key (x ∷ xs) = All (λ y. key x < key y) xs × IsOrdered key xs

-- The plain membership that `contains` decides.
abbrev pub has_key {ℓ} : {A : Type ℓ} → (A → ℕ) → ℕ → List A → Bool
has_key key k [] = false
has_key key k (x ∷ xs) = (key x == k) || has_key key k xs

module _ {A : Type 0} (key : A → ℕ) where
  has_key_above : (k : ℕ) (xs : List A) → All (λ y. k < key y) xs → has_key key k xs ≡ false
  has_key_above k [] h = refl
  has_key_above k (x ∷ xs) h = ground (arith, has_key_above k xs h.1)

  All-mono : (j k : ℕ) (xs : List A) → j ≤ k → All (λ y. k < key y) xs → All (λ y. j < key y) xs
  All-mono j k [] le h = tt
  All-mono j k (x ∷ xs) le h = (omega arith, All-mono j k xs le h.1)

  pub contains-has_key :
      (v : A) (xs : List A) → IsOrdered key xs → contains key v xs ≡ has_key key (key v) xs
  unfolding contains
  contains-has_key v [] h = refl
  contains-has_key v (x ∷ xs) h =
      ground
        (arith, contains-has_key v xs h.1, has_key_above (key v) xs, All-mono (key v) (key x) xs)

  insert-All :
      (k : ℕ) (v : A) (xs : List A)
      → k < key v
      → All (λ y. k < key y) xs
      → All (λ y. k < key y) (insert key v xs).1
  unfolding insert
  insert-All k v [] h a = (h, tt)
  insert-All k v (x ∷ xs) h a = ground (arith, insert-All k v xs h a.1)

  -- Where `insert` goes on past the first element, and where it stops.
  insert-step :
      (v x : A) (xs : List A)
      → ((key x < key v) × ((insert key v (x ∷ xs)).1 ≡ x ∷ (insert key v xs).1))
        ⊎ ((key x ≡ key v) × ((insert key v (x ∷ xs)).1 ≡ x ∷ xs))
        ⊎ ((key v < key x) × ((insert key v (x ∷ xs)).1 ≡ v ∷ x ∷ xs))
  unfolding insert
  insert-step v x xs = ground arith

  insert-IsOrdered : (v : A) (xs : List A) → IsOrdered key xs → IsOrdered key (insert key v xs).1
  insert-IsOrdered v [] h = unfold insert in (tt, tt)
  insert-IsOrdered v (x ∷ xs) h = elim (insert-step v x xs) [
    | inl (lt, e) ↦ rw e (insert-All (key x) v xs lt h.0, insert-IsOrdered v xs h.1)
    | inr (inl (eq, e)) ↦ rw e h
    | inr (inr (gt, e)) ↦ rw e ((gt, All-mono (key v) (key x) xs (omega arith) h.0), h)
  ]

  has_key-insert :
      (v : A) (k : ℕ) (xs : List A)
      → has_key key k (insert key v xs).1 ≡ (key v == k) || has_key key k xs
  unfolding insert
  has_key-insert v k [] = refl
  has_key-insert v k (x ∷ xs) = ground (arith, has_key-insert v k xs)

  insert-contains : (v : A) (xs : List A) → (insert key v xs).0 ≡ not (contains key v xs)
  unfolding insert contains
  insert-contains v xs = ground arith

  -- On a set, `insert` answers whether the value was absent, keeps the order, and adds exactly it.
  pub insert_lem :
      (v : A) (xs : List A)
      → IsOrdered key xs
      → ((insert key v xs).0 ≡ not (contains key v xs))
        × IsOrdered key (insert key v xs).1
        × ((w : A) → contains key w (insert key v xs).1 ≡ (key v == key w) || contains key w xs)
  insert_lem v xs h = (insert-contains v xs, insert-IsOrdered v xs h, λ w. member w)
    where
      member : (w : A) → contains key w (insert key v xs).1 ≡ (key v == key w) || contains key w xs
      member w =
          rw
            (
              contains-has_key w (insert key v xs).1 (insert-IsOrdered v xs h),
              contains-has_key w xs h,
            )
            (has_key-insert v (key w) xs)

  remove-All :
      (k : ℕ) (v : A) (xs : List A)
      → All (λ y. k < key y) xs
      → All (λ y. k < key y) (remove key v xs).1
  unfolding remove
  remove-All k v [] a = tt
  remove-All k v (x ∷ xs) a = ground (arith, remove-All k v xs a.1)

  -- Where `remove` goes on past the first element, and where it stops.
  remove-step :
      (v x : A) (xs : List A)
      → ((remove key v (x ∷ xs)).1 ≡ x ∷ (remove key v xs).1)
        ⊎ ((remove key v (x ∷ xs)).1 ≡ xs)
        ⊎ ((remove key v (x ∷ xs)).1 ≡ x ∷ xs)
  unfolding remove
  remove-step v x xs = ground arith

  remove-IsOrdered : (v : A) (xs : List A) → IsOrdered key xs → IsOrdered key (remove key v xs).1
  remove-IsOrdered v [] h = unfold remove in tt
  remove-IsOrdered v (x ∷ xs) h = elim (remove-step v x xs) [
    | inl e ↦ rw e (remove-All (key x) v xs h.0, remove-IsOrdered v xs h.1)
    | inr (inl e) ↦ rw e h.1
    | inr (inr e) ↦ rw e h
  ]

  has_key-remove :
      (v : A) (k : ℕ) (xs : List A)
      → IsOrdered key xs
      → has_key key k (remove key v xs).1 ≡ not (key v == k) && has_key key k xs
  unfolding remove
  has_key-remove v k [] h = ground arith
  has_key-remove v k (x ∷ xs) h = ground (
    arith,
    has_key-remove v k xs h.1,
    has_key_above k xs,
    has_key_above (key v) xs,
    All-mono (key v) (key x) xs,
    All-mono k (key x) xs,
  )

  remove-contains : (v : A) (xs : List A) → (remove key v xs).0 ≡ contains key v xs
  unfolding remove contains
  remove-contains v xs = ground arith

  -- On a set, `remove` answers whether the value was present, keeps the order, and takes out exactly
  -- it.
  pub remove_lem :
      (v : A) (xs : List A)
      → IsOrdered key xs
      → ((remove key v xs).0 ≡ contains key v xs)
        × IsOrdered key (remove key v xs).1
        × ((w : A) → contains key w (remove key v xs).1 ≡ not (key v == key w) && contains key w xs)
  remove_lem v xs h = (remove-contains v xs, remove-IsOrdered v xs h, λ w. member w)
    where
      member :
          (w : A) → contains key w (remove key v xs).1 ≡ not (key v == key w) && contains key w xs
      member w =
          rw
            (
              contains-has_key w (remove key v xs).1 (remove-IsOrdered v xs h),
              contains-has_key w xs h,
            )
            (has_key-remove v (key w) xs h)

  -- A set loses one element by the removal of a value that it contains.
  pub length-remove :
      (v : A) (xs : List A)
      → contains key v xs ≡ true
      → suc (length (remove key v xs).1) ≡ length xs
  unfolding contains remove
  length-remove v [] h = cc
  length-remove v (x ∷ xs) h = ground (arith, length-remove v xs)

  pub length-insert :
      (v : A) (xs : List A)
      → contains key v xs ≡ false
      → length (insert key v xs).1 ≡ suc (length xs)
  unfolding contains insert
  length-insert v [] h = refl
  length-insert v (x ∷ xs) h = ground (arith, length-insert v xs)

  abbrev pub entry : ℕ → List A → Option A
  entry k = find? λ x. key x == k

  pub entry-insert_self :
      (v : A) (xs : List A)
      → IsOrdered key xs
      → contains key v xs ≡ false
      → entry (key v) (insert key v xs).1 ≡ some v
  unfolding contains insert
  entry-insert_self v [] o h = ground arith
  entry-insert_self v (x ∷ xs) o h = ground (arith, entry-insert_self v xs o.1)

  pub entry-insert_ne :
      (v : A) (k : ℕ) (xs : List A) → key v ≢ k → entry k (insert key v xs).1 ≡ entry k xs
  unfolding insert
  entry-insert_ne v k [] h = ground arith
  entry-insert_ne v k (x ∷ xs) h = ground (arith, entry-insert_ne v k xs h)

  pub entry-remove_ne :
      (v : A) (k : ℕ) (xs : List A) → key v ≢ k → entry k (remove key v xs).1 ≡ entry k xs
  unfolding remove
  entry-remove_ne v k [] h = refl
  entry-remove_ne v k (x ∷ xs) h = ground (arith, entry-remove_ne v k xs h)
