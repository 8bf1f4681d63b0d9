-- ===== src/Container/Allocation.antt =====
-- The allocation of applications to groups in `on_finalize` of pallets/container/src/lib.rs.
use popsicle.Prelude.{
  ℕ, zero, suc, ◌+◌, ◌<◌, ◌≡◌, ◌≢◌, refl, ◌⊎◌, inl, inr, Bool, true, false, none, some, List, [],
  ◌∷◌, length, get_elem?, set, update, arith, Option-cases, ==_iff,
}
use popsicle.Grouping.{range_from}
use popsicle.Container.{Storage, get_groups, first_free, alloc_group, alloc_groups, on_finalize}

-- The application `a` of some group is a registered one that is marked as in use, and is the
-- application of no other group.
pub record IsAllocated (s : Storage) : Type 0 where
  pub marked : (g i : ℕ) → s.group_app_map g ≡ some (suc i) → get_elem? s.inuse_map i ≡ some true
  pub positive : (g : ℕ) → s.group_app_map g ≢ some 0
  pub apart : (g h a : ℕ) → s.group_app_map g ≡ some a → s.group_app_map h ≡ some a → g ≡ h

first_free-get : (bs : List Bool) (i : ℕ) → first_free bs ≡ some i → get_elem? bs i ≡ some false
first_free-get [] i e = cc
first_free-get (b ∷ bs) zero e = ground arith
first_free-get (b ∷ bs) (suc i) e = ground (arith, first_free-get bs i)

get_elem?-set :
    (bs : List Bool) (i j : ℕ)
    → get_elem? bs j ≡ some true
    → get_elem? (set bs i true) j ≡ some true
get_elem?-set [] i j e = e
get_elem?-set (b ∷ bs) zero zero e = refl
get_elem?-set (b ∷ bs) zero (suc j) e = e
get_elem?-set (b ∷ bs) (suc i) zero e = e
get_elem?-set (b ∷ bs) (suc i) (suc j) e = get_elem?-set bs i j e

get_elem?-set_self :
    (bs : List Bool) (i : ℕ) → get_elem? bs i ≡ some false → get_elem? (set bs i true) i ≡ some true
get_elem?-set_self [] i e = cc
get_elem?-set_self (b ∷ bs) zero e = refl
get_elem?-set_self (b ∷ bs) (suc i) e = get_elem?-set_self bs i e

-- What a round does to a storage whose flags are the local copy.
alloc_group-cases :
    (g : ℕ) (s : Storage)
    → (alloc_group g s.inuse_map s ≡ (s.inuse_map, s))
      ⊎ ((i : ℕ) × (s.group_app_map g ≡ none)
          × (get_elem? s.inuse_map i ≡ some false)
          × (alloc_group g s.inuse_map s ≡ (
            set s.inuse_map i true,
            record s {
              inuse_map = set s.inuse_map i true;
              group_app_map = update s.group_app_map g (some (i + 1));
            },
          )))
unfolding alloc_group
alloc_group-cases g s = elim (Option-cases (first_free s.inuse_map)) [
  | inl e ↦ inl (ground arith)
  | inr (i, e) ↦ elim (Option-cases (s.group_app_map g)) [
    | inl f ↦ inr (i, f, first_free-get s.inuse_map i e, ground arith)
    | inr (a, f) ↦ inl (ground arith)
  ]
]

-- A write of a free application to a group without one.
given-IsAllocated :
    (g i : ℕ) (s : Storage)
    → IsAllocated s
    → get_elem? s.inuse_map i ≡ some false
    → IsAllocated (record s {
      inuse_map = set s.inuse_map i true;
      group_app_map = update s.group_app_map g (some (i + 1));
    })
given-IsAllocated g i s v free = record {
  marked = λ h j e.
      ground
        (arith, v.marked h j, get_elem?-set s.inuse_map i j, get_elem?-set_self s.inuse_map i free);
  positive = λ h e. ground (arith, v.positive h);
  apart = λ h k a e f. ground (arith, v.apart h k a, v.marked h i, v.marked k i, free);
}

alloc_group-IsAllocated :
    (g : ℕ) (s : Storage) → IsAllocated s → IsAllocated (alloc_group g s.inuse_map s).1
alloc_group-IsAllocated g s v = elim (alloc_group-cases g s) [
  | inl e ↦ rw e v
  | inr (i, none_yet, free, e) ↦ rw e (given-IsAllocated g i s v free)
]

-- The local copy of the flags stays what the storage holds.
alloc_group-in_step :
    (g : ℕ) (s : Storage)
    → (alloc_group g s.inuse_map s).0 ≡ (alloc_group g s.inuse_map s).1.inuse_map
alloc_group-in_step g s = elim (alloc_group-cases g s) [
  | inl e ↦ rw e refl
  | inr (i, none_yet, free, e) ↦ rw e refl
]

alloc_groups-IsAllocated :
    (gs : List ℕ) (flags : List Bool) (s : Storage)
    → flags ≡ s.inuse_map
    → IsAllocated s
    → IsAllocated (alloc_groups gs flags s)
unfolding alloc_groups
alloc_groups-IsAllocated [] flags s e v = v
alloc_groups-IsAllocated (g ∷ gs) flags s e v = rw e (
    alloc_groups-IsAllocated gs (alloc_group g s.inuse_map s).0 (alloc_group g s.inuse_map s).1
      (alloc_group-in_step g s) (alloc_group-IsAllocated g s v))

-- Every block keeps it so that the application of a group is a registered one that is marked as in
-- use, and is that of no other group.
pub on_finalize-IsAllocated : (s : Storage) → IsAllocated s → IsAllocated (on_finalize s)
unfolding on_finalize
on_finalize-IsAllocated s v = alloc_groups-IsAllocated (get_groups s) s.inuse_map s refl v

-- An allocation stays: a group that has an application keeps it.
alloc_group-keeps :
    (g h a : ℕ) (s : Storage)
    → s.group_app_map h ≡ some a
    → (alloc_group g s.inuse_map s).1.group_app_map h ≡ some a
unfolding alloc_group
alloc_group-keeps g h a s e = ground (arith, ==_iff h g)

alloc_groups-keeps :
    (gs : List ℕ) (flags : List Bool) (h a : ℕ) (s : Storage)
    → flags ≡ s.inuse_map
    → s.group_app_map h ≡ some a
    → (alloc_groups gs flags s).group_app_map h ≡ some a
unfolding alloc_groups
alloc_groups-keeps [] flags h a s e f = f
alloc_groups-keeps (g ∷ gs) flags h a s e f = rw e (
    alloc_groups-keeps gs (alloc_group g s.inuse_map s).0 h a (alloc_group g s.inuse_map s).1
      (alloc_group-in_step g s) (alloc_group-keeps g h a s f))

pub on_finalize-keeps :
    (h a : ℕ) (s : Storage) → s.group_app_map h ≡ some a → (on_finalize s).group_app_map h ≡ some a
unfolding on_finalize
on_finalize-keeps h a s e = alloc_groups-keeps (get_groups s) s.inuse_map h a s refl e

-- No application is free.
abbrev pub IsExhausted : Storage → Type 0
IsExhausted s = first_free s.inuse_map ≡ none

first_free-set : (bs : List Bool) (i : ℕ) → first_free bs ≡ none → first_free (set bs i true) ≡ none
first_free-set [] i e = e
first_free-set (b ∷ bs) zero e = ground arith
first_free-set (b ∷ bs) (suc i) e = ground (arith, first_free-set bs i)

alloc_group-IsExhausted :
    (g : ℕ) (s : Storage) → IsExhausted s → IsExhausted (alloc_group g s.inuse_map s).1
unfolding alloc_group
alloc_group-IsExhausted g s e = ground arith

alloc_groups-IsExhausted :
    (gs : List ℕ) (flags : List Bool) (s : Storage)
    → flags ≡ s.inuse_map
    → IsExhausted s
    → IsExhausted (alloc_groups gs flags s)
unfolding alloc_groups
alloc_groups-IsExhausted [] flags s e x = x
alloc_groups-IsExhausted (g ∷ gs) flags s e x = rw e (
    alloc_groups-IsExhausted gs (alloc_group g s.inuse_map s).0 (alloc_group g s.inuse_map s).1
      (alloc_group-in_step g s) (alloc_group-IsExhausted g s x))

-- The group has an application, or none is free.
abbrev pub IsServed : ℕ → Storage → Type 0
IsServed g s = ((a : ℕ) × (s.group_app_map g ≡ some a)) ⊎ IsExhausted s

alloc_group-IsServed : (g : ℕ) (s : Storage) → IsServed g (alloc_group g s.inuse_map s).1
unfolding alloc_group
alloc_group-IsServed g s = elim (Option-cases (s.group_app_map g)) [
  | inr (a, e) ↦ inl (a, ground arith)
  | inl e ↦ elim (Option-cases (first_free s.inuse_map)) [
    | inl f ↦ inr (ground arith)
    | inr (i, f) ↦ inl (i + 1, ground (arith, ==_iff g g))
  ]
]

alloc_groups-IsServed_before :
    (gs : List ℕ) (flags : List Bool) (g : ℕ) (s : Storage)
    → flags ≡ s.inuse_map
    → IsServed g s
    → IsServed g (alloc_groups gs flags s)
alloc_groups-IsServed_before gs flags g s e (inl (a, f)) =
    inl (a, alloc_groups-keeps gs flags g a s e f)
alloc_groups-IsServed_before gs flags g s e (inr x) = inr (alloc_groups-IsExhausted gs flags s e x)

alloc_groups-IsServed :
    (gs : List ℕ) (flags : List Bool) (s : Storage) (k g : ℕ)
    → flags ≡ s.inuse_map
    → get_elem? gs k ≡ some g
    → IsServed g (alloc_groups gs flags s)
unfolding alloc_groups
alloc_groups-IsServed [] flags s k g e at = cc
alloc_groups-IsServed (h ∷ gs) flags s zero g e at =
    let same : h ≡ g = ground arith in
    rw (e, ← same)
      (alloc_groups-IsServed_before gs (alloc_group h s.inuse_map s).0 h
        (alloc_group h s.inuse_map s).1 (alloc_group-in_step h s) (alloc_group-IsServed h s))
alloc_groups-IsServed (h ∷ gs) flags s (suc k) g e at = rw e (
    alloc_groups-IsServed gs (alloc_group h s.inuse_map s).0 (alloc_group h s.inuse_map s).1 k g
      (alloc_group-in_step h s) at)

range_from-get : (k n i : ℕ) → i < n → get_elem? (range_from k n) i ≡ some (k + i)
range_from-get k zero i h = absurd (omega arith)
range_from-get k (suc n) zero h = ground arith
range_from-get k (suc n) (suc i) h = ground (arith, range_from-get (suc k) n i)

-- After a block each of the existing groups has an application, or every registered application is
-- in use; a group that had an application keeps it.
pub on_finalize-IsServed :
    (s : Storage) (g : ℕ)
    → g < length s.grouping.group_members
    → IsServed g (on_finalize s)
      × ((a : ℕ) → s.group_app_map g ≡ some a → (on_finalize s).group_app_map g ≡ some a)
unfolding on_finalize
on_finalize-IsServed s g h = (
  alloc_groups-IsServed (get_groups s) s.inuse_map s g g refl
      (rw (range_from-get 0 (length s.grouping.group_members) g h) (ground arith)),
  λ a e. alloc_groups-keeps (get_groups s) s.inuse_map g a s refl e,
)
