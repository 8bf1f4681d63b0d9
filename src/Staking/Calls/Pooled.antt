-- ===== src/Staking/Calls/Pooled.antt =====
-- What it is that the pool of pallets/sequencer-staking/src/lib.rs agrees with the metadata of the
-- candidates, and how it changes.
use popsicle.Prelude.{
  ℕ, ◌≤◌, ◌<◌, ◌≡◌, refl, sym, ◌∙◌, ap, inl, inr, Bool, true, false, Option, none, some, List, [],
  ◌∷◌, length, update, ◌==◌, ==_self, ==_iff, if◌then◌else◌, arith, Bool-cases,
}
use popsicle.Staking.Set.{insert, remove, contains}
use popsicle.Staking.Set.Laws.{
  IsOrdered, has_key, contains-has_key, insert_lem, remove_lem, length-insert, entry,
  entry-insert_self, entry-insert_ne, entry-remove_ne,
}
use popsicle.Staking.Types.{Bond, from_owner, bond_key, CandidateMetadata, is_active}
use popsicle.Staking.Storage.{Config}
use popsicle.Staking.Pool.Laws.{
  IsListed, updated, updated-IsOrdered, length-updated, entry-updated_self, entry-updated_ne,
}

-- The entry that a candidate has in the pool.
abbrev pub listing : ℕ → Option CandidateMetadata → Option Bond
listing c none = none
listing c (some m) =
    if is_active m then some (record { owner = c; amount = m.total_counted }) else none

pub record IsPooled (T : Config) (pool : List Bond) (info : ℕ → Option CandidateMetadata)
    : Type 0 where
  pub ordered : IsOrdered bond_key pool
  pub bounded : length pool ≤ T.max_candidates
  pub agrees : (c : ℕ) → entry bond_key c pool ≡ listing c (info c)

abbrev is_some {ℓ} : {A : Type ℓ} → Option A → Bool
is_some none = false
is_some (some _) = true

has_key-entry : (k : ℕ) (xs : List Bond) → has_key bond_key k xs ≡ is_some (entry bond_key k xs)
has_key-entry k [] = refl
has_key-entry k (x ∷ xs) = ground (arith, has_key-entry k xs)

pub contains-entry :
    (c : ℕ) (amount : ℕ) (pool : List Bond)
    → IsOrdered bond_key pool
    → contains bond_key (record { owner = c; amount = amount }) pool
      ≡ is_some (entry bond_key c pool)
contains-entry c amount pool o =
    contains-has_key bond_key (record { owner = c; amount = amount }) pool o ∙ has_key-entry c pool

pub is_some-none {ℓ} : {A : Type ℓ} (o : Option A) → is_some o ≡ false → o ≡ none
is_some-none none e = refl
is_some-none (some a) e = cc

entry-remove_self :
    (c : ℕ) (pool : List Bond)
    → IsOrdered bond_key pool
    → entry bond_key c (remove bond_key (from_owner c) pool).1 ≡ none
entry-remove_self c pool o =
    let gone = remove_lem bond_key (from_owner c) pool o in
    is_some-none (entry bond_key c (remove bond_key (from_owner c) pool).1) (
      sym (contains-entry c 0 (remove bond_key (from_owner c) pool).1 gone.1)
      ∙ gone.2 (from_owner c)
      ∙ ground (arith, ==_self c))

length-remove_le :
    (c : ℕ) (pool : List Bond) → length (remove bond_key (from_owner c) pool).1 ≤ length pool
unfolding remove
length-remove_le c [] = omega arith
length-remove_le c (x ∷ xs) = ground (arith, length-remove_le c xs)

module _ (T : Config) (pool : List Bond) (info : ℕ → Option CandidateMetadata)
    (h : IsPooled T pool info) where
  -- An active candidate is listed.
  pub IsPooled-IsListed :
      (c : ℕ) (m : CandidateMetadata) → info c ≡ some m → is_active m ≡ true → IsListed T c pool
  IsPooled-IsListed c m e a = record {
    ordered = h.ordered;
    bounded = h.bounded;
    member = contains-entry c 0 pool h.ordered ∙ ground (arith, h.agrees c, e, a);
  }

  -- A candidate leaves the pool when it ceases to be active.
  pub leave-IsPooled :
      (c : ℕ) (m : CandidateMetadata)
      → is_active m ≡ false
      → IsPooled T (remove bond_key (from_owner c) pool).1 (update info c (some m))
  leave-IsPooled c m idle = record {
    ordered = (remove_lem bond_key (from_owner c) pool h.ordered).1;
    bounded = omega (arith, length-remove_le c pool, h.bounded);
    agrees = λ k. elim (Bool-cases (k == c)) [
      | inl here ↦ ground (arith, here, idle, ==_iff k c, entry-remove_self c pool h.ordered)
      | inr away ↦
          entry-remove_ne bond_key (from_owner c) k pool (λ e. ground (arith, away, e))
          ∙ ground (arith, h.agrees k, away)
    ];
  }

  -- A candidate that is not listed enters it when it becomes active.
  pub enter-IsPooled :
      (c : ℕ) (m : CandidateMetadata)
      → is_active m ≡ true
      → entry bond_key c pool ≡ none
      → length pool < T.max_candidates
      → IsPooled T
          (insert bond_key (record { owner = c; amount = m.total_counted }) pool).1
          (update info c (some m))
  enter-IsPooled c m act fresh room = record {
    ordered = (insert_lem bond_key new pool h.ordered).1;
    bounded = omega (arith, length-insert bond_key new pool absent, room);
    agrees = λ k. elim (Bool-cases (k == c)) [
      | inl here ↦
          ground
            (arith, here, act, ==_iff k c, entry-insert_self bond_key new pool h.ordered absent)
      | inr away ↦
          entry-insert_ne bond_key new k pool (λ e. ground (arith, away, e))
          ∙ ground (arith, h.agrees k, away)
    ];
  }
    where
      new : Bond
      new = record { owner = c; amount = m.total_counted }

      absent : contains bond_key new pool ≡ false
      absent = contains-entry c m.total_counted pool h.ordered ∙ ap is_some fresh

  -- An active candidate stays active with another total.
  pub updated-IsPooled :
      (c : ℕ) (m m' : CandidateMetadata)
      → info c ≡ some m
      → is_active m ≡ true
      → is_active m' ≡ true
      → IsPooled T (updated c m'.total_counted pool) (update info c (some m'))
  updated-IsPooled c m m' e act act' =
      let listed = IsPooled-IsListed c m e act in
      record {
        ordered = updated-IsOrdered T c m'.total_counted pool listed;
        bounded = omega (arith, length-updated T c m'.total_counted pool listed, h.bounded);
        agrees = λ k. elim (Bool-cases (k == c)) [
          | inl here ↦
              ground
                (arith, here, act', ==_iff k c, entry-updated_self T c m'.total_counted pool listed)
          | inr away ↦
              entry-updated_ne T c m'.total_counted pool listed k (λ e. ground (arith, away, e))
              ∙ ground (arith, h.agrees k, away)
        ];
      }

  -- The metadata change, but not what the pool lists of them.
  pub same-IsPooled :
      (c : ℕ) (m : CandidateMetadata)
      → listing c (some m) ≡ listing c (info c)
      → IsPooled T pool (update info c (some m))
  same-IsPooled c m e = record {
    ordered = h.ordered;
    bounded = h.bounded;
    agrees = λ k. elim (Bool-cases (k == c)) [
      | inl here ↦ ground (arith, here, ==_iff k c, h.agrees k, e)
      | inr away ↦ ground (arith, h.agrees k, away)
    ];
  }
