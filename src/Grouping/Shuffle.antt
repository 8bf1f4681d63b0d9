-- ===== src/Grouping/Shuffle.antt =====
-- `shuffle_accounts` of pallets/sequencer-grouping/src/lib.rs as a permutation, which is stated by
-- weights: every function `f` adds up to the same over the two lists.
use popsicle.Prelude.{
  ℕ, zero, suc, ◌+◌, ◌%◌, ◌≡◌, refl, ◌∙◌, inl, inr, some, List, [], ◌∷◌, length, get_elem?, set,
  arith, Option-cases,
}
use popsicle.Grouping.{swap, last_index, shuffle_from, shuffle_accounts}

abbrev pub weigh {ℓ} : {A : Type ℓ} → (A → ℕ) → List A → ℕ
weigh f [] = 0
weigh f (x ∷ xs) = f x + weigh f xs

module _ {A : Type 0} (f : A → ℕ) where
  weigh-set :
      (xs : List A) (i : ℕ) (x y : A)
      → get_elem? xs i ≡ some x
      → weigh f (set xs i y) + f x ≡ weigh f xs + f y
  weigh-set [] i x y e = cc
  weigh-set (z ∷ xs) zero x y e = ground arith
  weigh-set (z ∷ xs) (suc i) x y e = ground (arith, weigh-set xs i x y e)

  -- What stands at `j` once the element at `j` has been written to `i`.
  get_elem?-set_copy :
      (xs : List A) (i j : ℕ) (y : A) → get_elem? xs j ≡ some y → get_elem? (set xs i y) j ≡ some y
  get_elem?-set_copy [] i j y e = e
  get_elem?-set_copy (z ∷ xs) zero zero y e = refl
  get_elem?-set_copy (z ∷ xs) zero (suc j) y e = e
  get_elem?-set_copy (z ∷ xs) (suc i) zero y e = e
  get_elem?-set_copy (z ∷ xs) (suc i) (suc j) y e = get_elem?-set_copy xs i j y e

  weigh-swap : (i j : ℕ) (xs : List A) → weigh f (swap i j xs) ≡ weigh f xs
  weigh-swap i j xs = elim (Option-cases (get_elem? xs i)) [
    | inl e ↦ rw (e, swap) refl
    | inr (x, e) ↦ elim (Option-cases (get_elem? xs j)) [
      | inl g ↦ rw (e, g, swap) refl
      | inr (y, g) ↦
          rw (e, g, swap)
            (omega (
              arith,
              weigh-set xs i x y e,
              weigh-set (set xs i y) j y x (get_elem?-set_copy xs i j y g),
            ))
    ]
  ]

  weigh-shuffle_from : (r i : ℕ) (xs : List A) → weigh f (shuffle_from r i xs) ≡ weigh f xs
  unfolding shuffle_from
  weigh-shuffle_from r zero xs = refl
  weigh-shuffle_from r (suc i) xs =
      weigh-shuffle_from r i (swap (suc i) (r % (suc i + 1)) xs)
      ∙ weigh-swap (suc i) (r % (suc i + 1)) xs

-- The shuffle keeps every account as often as it was there, whatever the random value: every
-- function adds up to the same over the accounts before and after it.
pub weigh-shuffle_accounts :
    (f : ℕ → ℕ) (r : ℕ) (xs : List ℕ) → weigh f (shuffle_accounts r xs) ≡ weigh f xs
unfolding shuffle_accounts
weigh-shuffle_accounts f r xs = weigh-shuffle_from f r (last_index xs) xs

pub weigh_length : (xs : List ℕ) → weigh (λ _. 1) xs ≡ length xs
weigh_length [] = refl
weigh_length (x ∷ xs) = omega (arith, weigh_length xs)
