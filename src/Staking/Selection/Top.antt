-- ===== src/Staking/Selection/Top.antt =====
-- What `compute_top_candidates` of pallets/sequencer-staking/src/lib.rs selects from the pool.
use popsicle.Prelude.{
  ℕ, min, ◌≤◌, ◌<◌, ◌⊎◌, ◌≡◌, refl, ap, inl, inr, Bool-cases, true, List, [], ◌∷◌, ◌++◌, Perm, All,
  length, leb, ltb, ◌==◌, sort_by, sort_by-perm, arith,
}
use mathlib.Core.List.Perm
use popsicle.Prelude.Sorted.{
  take, drop, take-append-drop, length-take, take-All, IsSorted, sort_by-All, length-sort_by,
  take-drop_before, sort_by-IsSorted, All-mono,
}
use popsicle.Staking.Types.{Bond, bond_key}
use popsicle.Staking.Set.Laws.{IsOrdered}
use popsicle.Staking.Selection.{outranks, owners, compute_top_candidates}
use popsicle.Staking.Selection.Ranking.{outranks-total, outranks_trans, leb-total, leb_trans}

-- More stake, or the same and no lower account.
abbrev pub Outranks : Bond → Bond → Type 0
Outranks a b = (b.amount < a.amount) ⊎ ((a.amount ≡ b.amount) × (b.owner ≤ a.owner))

outranks-Outranks : (a b : Bond) → outranks a b ≡ true → Outranks a b
unfolding outranks
outranks-Outranks a b h = ground arith

-- `selected` holds the owners of the best candidates of a pool, at most `n` of them, by account.
pub record IsTop (n : ℕ) (pool : List Bond) (selected : List ℕ) : Type 0 where
  pub chosen : List Bond
  pub others : List Bond
  pub split : Perm (chosen ++ others) pool
  pub best : All (λ a. All (Outranks a) others) chosen
  pub owned : Perm selected (owners chosen)
  pub count : length selected ≡ min n (length pool)
  pub sorted : IsSorted leb selected

length-owners : (xs : List Bond) → length (owners xs) ≡ length xs
length-owners [] = refl
length-owners (x ∷ xs) = omega (arith, length-owners xs)

owners-All :
    (k : ℕ) (xs : List Bond) → All (λ y. k ≤ bond_key y) xs → All (λ y. leb k y ≡ true) (owners xs)
owners-All k [] h = tt
owners-All k (x ∷ xs) h = (ground (arith, h.0), owners-All k xs h.1)

owners-IsSorted : (xs : List Bond) → IsOrdered bond_key xs → IsSorted leb (owners xs)
owners-IsSorted [] h = tt
owners-IsSorted (x ∷ xs) h =
    (owners-All x.owner xs (All-mono (λ y p. omega arith) xs h.0), owners-IsSorted xs h.1)

append_nil {ℓ} : {A : Type ℓ} (xs : List A) → xs ++ [] ≡ xs
append_nil [] = refl
append_nil (x ∷ xs) = ap (λ ys. x ∷ ys) (append_nil xs)

no_others : (xs : List Bond) → All (λ a. All (Outranks a) []) xs
no_others [] = tt
no_others (x ∷ xs) = (tt, no_others xs)

All-owners : (P : ℕ → Type 0) (xs : List Bond) → All (λ b. P b.owner) xs → All P (owners xs)
All-owners P [] h = tt
All-owners P (x ∷ xs) h = (h.0, All-owners P xs h.1)

whole-IsTop :
    (n : ℕ) (pool : List Bond)
    → IsOrdered bond_key pool
    → length pool ≤ n
    → IsTop n pool (owners pool)
whole-IsTop n pool o le = record {
  chosen = pool;
  others = [];
  split = rw (append_nil pool) (Perm.refl pool);
  best = no_others pool;
  owned = Perm.refl (owners pool);
  count = omega (arith, length-owners pool, le);
  sorted = owners-IsSorted pool o;
}

ranked : List Bond → List Bond
ranked = sort_by outranks

best-IsTop :
    (n : ℕ) (pool : List Bond)
    → IsTop n pool (sort_by leb (owners (take n (sort_by outranks pool))))
best-IsTop n pool =
    let r : List Bond = sort_by outranks pool in
    record {
      chosen = take n r;
      others = drop n r;
      split = rw (take-append-drop n r) (sort_by-perm outranks pool);
      best =
          All-mono (λ a all. All-mono (λ b. outranks-Outranks a b) (drop n r) all) (take n r)
            (take-drop_before outranks n r
              (sort_by-IsSorted outranks outranks-total outranks_trans pool));
      owned = sort_by-perm leb (owners (take n r));
      count = omega (
        arith,
        length-sort_by leb (owners (take n r)),
        length-owners (take n r),
        length-take n r,
        length-sort_by outranks pool,
      );
      sorted = sort_by-IsSorted leb leb-total leb_trans (owners (take n r));
    }

pub compute_top_candidates-IsTop :
    (n : ℕ) (pool : List Bond)
    → IsOrdered bond_key pool
    → IsTop n pool (compute_top_candidates n pool)
unfolding compute_top_candidates
compute_top_candidates-IsTop n pool o = elim (Bool-cases (n == 0)) [
  | inl e ↦ rw e (record {
    chosen = [];
    others = pool;
    split = Perm.refl pool;
    best = tt;
    owned = Perm.refl [];
    count = ground (arith, e);
    sorted = tt;
  })
  | inr e ↦ elim (Bool-cases (ltb n (length pool))) [
    | inl f ↦ rw (e, f) (best-IsTop n pool)
    | inr f ↦ rw (e, f) (whole-IsTop n pool o (ground (arith, f)))
  ]
]

-- Whatever holds of all owners in the pool holds of the selected ones.
pub compute_top_candidates-All :
    (P : ℕ → Type 0) (n : ℕ) (pool : List Bond)
    → All (λ b. P b.owner) pool
    → All P (compute_top_candidates n pool)
unfolding compute_top_candidates
compute_top_candidates-All P n pool h = elim (Bool-cases (n == 0)) [
  | inl e ↦ rw e tt
  | inr e ↦ elim (Bool-cases (ltb n (length pool))) [
    | inl f ↦
        let best : All (λ b. P b.owner) (take n (sort_by outranks pool)) =
          take-All (λ b. P b.owner) n (sort_by outranks pool)
            (sort_by-All outranks (λ b. P b.owner) pool h) in
        rw (e, f)
          (sort_by-All leb P (owners (take n (sort_by outranks pool)))
            (All-owners P (take n (sort_by outranks pool)) best))
    | inr f ↦ rw (e, f) (All-owners P pool h)
  ]
]
