-- ===== src/Staking/Delegations/Sums.antt =====
-- What the operations on a list of delegations keep, by weight: `weigh f` adds `f` over the list, so
-- that it is the length, the sum of the amounts, or the count of an owner's delegations.
use popsicle.Prelude.{
  ℕ, suc, ◌+◌, ◌≤◌, ◌<◌, ◌≡◌, refl, some, List, [], ◌∷◌, length, init, last?, ◌==◌, if◌then◌else◌,
  sort_insert, sort_by, arith,
}
use popsicle.Staking.Types.{Bond}
use popsicle.Staking.Delegations.{amount_geq, insert_bond, lowest_delegation_amount}
use popsicle.Staking.Delegations.Insertion.{
  AtMost, AtLeast, IsDescending, stable_insert, insert_bond-stable_insert, sort_insert-AtMost,
}

abbrev pub weigh : (Bond → ℕ) → List Bond → ℕ
weigh f [] = 0
weigh f (x ∷ xs) = f x + weigh f xs

abbrev pub sum : List Bond → ℕ
sum = weigh λ x. x.amount

-- The delegations of an owner.
abbrev pub count_owner : ℕ → List Bond → ℕ
count_owner o = weigh λ x. if x.owner == o then 1 else 0

weigh-stable_insert :
    (f : Bond → ℕ) (ds : List Bond) (d : Bond) → weigh f (stable_insert ds d) ≡ weigh f ds + f d
weigh-stable_insert f [] d = omega arith
weigh-stable_insert f (x ∷ xs) d = ground (arith, weigh-stable_insert f xs d)

pub weigh-insert_bond :
    (f : Bond → ℕ) (ds : List Bond) (d : Bond)
    → IsDescending ds
    → weigh f (insert_bond ds d) ≡ weigh f ds + f d
weigh-insert_bond f ds d s = rw (insert_bond-stable_insert ds d s) (weigh-stable_insert f ds d)

length-stable_insert : (ds : List Bond) (d : Bond) → length (stable_insert ds d) ≡ suc (length ds)
length-stable_insert [] d = refl
length-stable_insert (x ∷ xs) d = ground (arith, length-stable_insert xs d)

pub length-insert_bond :
    (ds : List Bond) (d : Bond) → IsDescending ds → length (insert_bond ds d) ≡ suc (length ds)
length-insert_bond ds d s = rw (insert_bond-stable_insert ds d s) (length-stable_insert ds d)

weigh-sort_insert :
    (f : Bond → ℕ) (d : Bond) (ds : List Bond)
    → weigh f (sort_insert amount_geq d ds) ≡ f d + weigh f ds
weigh-sort_insert f d [] = omega arith
weigh-sort_insert f d (x ∷ xs) = ground (arith, weigh-sort_insert f d xs)

pub weigh-sort_by : (f : Bond → ℕ) (ds : List Bond) → weigh f (sort_by amount_geq ds) ≡ weigh f ds
weigh-sort_by f [] = refl
weigh-sort_by f (x ∷ xs) =
    omega (arith, weigh-sort_insert f x (sort_by amount_geq xs), weigh-sort_by f xs)

pub weigh-init :
    (f : Bond → ℕ) (ds : List Bond) (k : Bond)
    → last? ds ≡ some k
    → weigh f (init ds) + f k ≡ weigh f ds
weigh-init f [] k e = ground arith
weigh-init f (x ∷ []) k e = ground arith
weigh-init f (x ∷ y ∷ ds) k e = ground (arith, weigh-init f (y ∷ ds) k e)

pub init-AtMost : (n : ℕ) (ds : List Bond) → AtMost n ds → AtMost n (init ds)
init-AtMost n [] a = tt
init-AtMost n (x ∷ []) a = tt
init-AtMost n (x ∷ y ∷ ds) a = (a.0, init-AtMost n (y ∷ ds) a.1)

pub init-IsDescending : (ds : List Bond) → IsDescending ds → IsDescending (init ds)
init-IsDescending [] s = tt
init-IsDescending (x ∷ []) s = tt
init-IsDescending (x ∷ y ∷ ds) s =
    (init-AtMost x.amount (y ∷ ds) s.0, init-IsDescending (y ∷ ds) s.1)

-- The lowest delegation is a lower bound of all.
pub lowest-AtLeast :
    (ds : List Bond) (k : Bond) → IsDescending ds → last? ds ≡ some k → AtLeast k.amount ds
lowest-AtLeast [] k s e = tt
lowest-AtLeast (x ∷ []) k s e = (ground arith, tt)
lowest-AtLeast (x ∷ y ∷ ds) k s e = ground (arith, lowest-AtLeast (y ∷ ds) k s.1 e)

pub sum-length : (ds : List Bond) → weigh (λ _. 1) ds ≡ length ds
sum-length [] = refl
sum-length (x ∷ xs) = omega (arith, sum-length xs)

pub init-AtLeast : (n : ℕ) (ds : List Bond) → AtLeast n ds → AtLeast n (init ds)
init-AtLeast n [] a = tt
init-AtLeast n (x ∷ []) a = tt
init-AtLeast n (x ∷ y ∷ ds) a = (a.0, init-AtLeast n (y ∷ ds) a.1)

pub AtLeast-lowest :
    (n : ℕ) (ds : List Bond) (t : ℕ)
    → 0 < length ds
    → AtLeast n ds
    → n ≤ lowest_delegation_amount (record { delegations = ds; total = t })
AtLeast-lowest n [] t h a = absurd (omega arith)
AtLeast-lowest n (x ∷ []) t h a = a.0
AtLeast-lowest n (x ∷ y ∷ ds) t h a = AtLeast-lowest n (y ∷ ds) t (omega arith) a.1

pub last-some : (ds : List Bond) → 0 < length ds → (k : Bond) × (last? ds ≡ some k)
last-some [] h = absurd (omega arith)
last-some (x ∷ []) h = (x, refl)
last-some (x ∷ y ∷ ds) h = last-some (y ∷ ds) (omega arith)

pub length-sort_by : (ds : List Bond) → length (sort_by amount_geq ds) ≡ length ds
length-sort_by ds =
    omega (arith, sum-length (sort_by amount_geq ds), weigh-sort_by (λ _. 1) ds, sum-length ds)

sort_insert-AtLeast :
    (n : ℕ) (d : Bond) (ds : List Bond)
    → n ≤ d.amount
    → AtLeast n ds
    → AtLeast n (sort_insert amount_geq d ds)
sort_insert-AtLeast n d [] h a = (h, tt)
sort_insert-AtLeast n d (x ∷ xs) h a = ground (arith, sort_insert-AtLeast n d xs h a.1)

pub sort_by-AtLeast : (n : ℕ) (ds : List Bond) → AtLeast n ds → AtLeast n (sort_by amount_geq ds)
sort_by-AtLeast n [] a = tt
sort_by-AtLeast n (x ∷ xs) a =
    sort_insert-AtLeast n x (sort_by amount_geq xs) a.0 (sort_by-AtLeast n xs a.1)

pub sort_by-AtMost : (n : ℕ) (ds : List Bond) → AtMost n ds → AtMost n (sort_by amount_geq ds)
sort_by-AtMost n [] a = tt
sort_by-AtMost n (x ∷ xs) a =
    sort_insert-AtMost n x (sort_by amount_geq xs) a.0 (sort_by-AtMost n xs a.1)
