-- ===== src/Container/History.antt =====
-- Every history of pallets/container/src/lib.rs: registrations, blocks, changes of the download
-- address, and whatever the grouping pallet does in between.
use popsicle.Prelude.{
  ℕ, zero, suc, ◌-◌, ◌≤◌, ◌<◌, ◌≡◌, refl, ap, ◌∙◌, Bool, true, none, List, [], ◌∷◌, length, set,
  max_u32, arith, Option-cases, inl, inr,
}
use popsicle.Prelude.Origin.{root, signed}
use popsicle.Grouping
use popsicle.Container.{
  Storage, Registration, register, set_default_url, get_groups, first_free, alloc_group,
  alloc_groups, on_finalize,
}
use popsicle.Container.Allocation.{IsAllocated, on_finalize-IsAllocated}
use popsicle.Container.Registry.{IsRegistered, register_lem, after-IsAllocated}

-- A call that fails changes nothing, so only those that succeed are steps.
pub data Step (max : ℕ) : Storage → Storage → Type 0 where
  registers :
      (s : Storage) (who : ℕ) (r : Registration)
      → length s.inuse_map < max
      → Step max s (register max (signed who) r s).1
  finalizes : (s : Storage) → Step max s (on_finalize s)
  sets_url : (s : Storage) (url : List ℕ) → Step max s (set_default_url root url s).1
  moves_on :
      (s : Storage) (g : Grouping.Storage) (n : ℕ)
      → Step max s (record s { grouping = g; block_number = n })

pub data Reach (max : ℕ) (s : Storage) : Storage → Type 0 where
  here : Reach max s s
  next : {t u : Storage} → Reach max s t → Step max t u → Reach max s u

length-set : (bs : List Bool) (i : ℕ) (v : Bool) → length (set bs i v) ≡ length bs
length-set [] i v = refl
length-set (b ∷ bs) zero v = refl
length-set (b ∷ bs) (suc i) v = ap suc (length-set bs i v)

-- What `IsRegistered` reads.
abbrev Same : Storage → Storage → Type 0
Same s t =
    (t.appinfo_map ≡ s.appinfo_map)
    × (t.next_application_id ≡ s.next_application_id)
    × (length t.inuse_map ≡ length s.inuse_map)

alloc_group-Same : (g : ℕ) (flags : List Bool) (s : Storage) → Same s (alloc_group g flags s).1
unfolding alloc_group
alloc_group-Same g flags s = elim (Option-cases (first_free flags)) [
  | inl e ↦ ground arith
  | inr (i, e) ↦ ground (arith, length-set s.inuse_map i true)
]

alloc_groups-Same :
    (gs : List ℕ) (flags : List Bool) (s : Storage) → Same s (alloc_groups gs flags s)
unfolding alloc_groups
alloc_groups-Same [] flags s = (refl, refl, refl)
alloc_groups-Same (g ∷ gs) flags s =
    let first = alloc_group-Same g flags s in
    let rest = alloc_groups-Same gs (alloc_group g flags s).0 (alloc_group g flags s).1 in
    (rest.0 ∙ first.0, rest.1 ∙ first.1, rest.2 ∙ first.2)

IsRegistered-Same : (s t : Storage) → Same s t → IsRegistered s → IsRegistered t
IsRegistered-Same s t e v = record {
  next = ground (arith, v.next);
  known = λ i h. ground (arith, v.known i);
  unknown = λ a h. ground (arith, v.unknown a);
}

on_finalize-Same : (s : Storage) → Same s (on_finalize s)
unfolding on_finalize
on_finalize-Same s = alloc_groups-Same (get_groups s) s.inuse_map s

abbrev pub IsSound : Storage → Type 0
IsSound s = IsRegistered s × IsAllocated s

-- Neither part reads the fields that the other steps write.
Same-IsSound :
    (s t : Storage)
    → Same s t
    → t.inuse_map ≡ s.inuse_map
    → t.group_app_map ≡ s.group_app_map
    → IsSound s
    → IsSound t
Same-IsSound s t e f g (v, a) = (
  IsRegistered-Same s t e v,
  record {
    marked = λ h i p. ground (arith, a.marked h i);
    positive = λ h p. ground (arith, a.positive h);
    apart = λ h k n p q. ground (arith, a.apart h k n);
  },
)

set_default_url-IsSound :
    (s : Storage) (url : List ℕ) → IsSound s → IsSound (set_default_url root url s).1
unfolding set_default_url
set_default_url-IsSound s url v = Same-IsSound s _ (refl, refl, refl) refl refl v

Step-IsSound : (max : ℕ) {s t : Storage} → max ≤ max_u32 - 1 → Step max s t → IsSound s → IsSound t
Step-IsSound max small (registers s who r free) (v, a) =
    ((register_lem max who r s free small v).1, after-IsAllocated max who r s free a)
Step-IsSound max small (finalizes s) (v, a) =
    (IsRegistered-Same s (on_finalize s) (on_finalize-Same s) v, on_finalize-IsAllocated s a)
Step-IsSound max small (sets_url s url) (v, a) = set_default_url-IsSound s url (v, a)
Step-IsSound max small (moves_on s g n) (v, a) =
    Same-IsSound s (record s { grouping = g; block_number = n }) (refl, refl, refl) refl refl (v, a)

-- The storage of a new chain.
abbrev pub genesis : Grouping.Storage → Storage
genesis g = record {
  next_application_id = 1;
  default_url = none;
  appinfo_map = λ _. none;
  inuse_map = [];
  group_app_map = λ _. none;
  events = [];
  grouping = g;
  block_number = 0;
}

genesis-IsSound : (g : Grouping.Storage) → IsSound (genesis g)
genesis-IsSound g = (
  record { next = refl; known = λ i h. absurd (omega arith); unknown = λ a h. refl },
  record { marked = λ h i e. cc; positive = λ h e. cc; apart = λ h k a e f. cc },
)

Reach-IsSound :
    (max : ℕ) {s t : Storage} → max ≤ max_u32 - 1 → IsSound s → Reach max s t → IsSound t
Reach-IsSound max small v here = v
Reach-IsSound max small v (next r st) = Step-IsSound max small st (Reach-IsSound max small v r)

-- From a new chain on, after any history: the identifiers are dense and known, the application of a
-- group is a registered one that is marked as in use, and no two groups have the same.
pub Reach-genesis :
    (max : ℕ) (g : Grouping.Storage) {t : Storage}
    → max ≤ max_u32 - 1
    → Reach max (genesis g) t
    → IsRegistered t × IsAllocated t
Reach-genesis max g small r = Reach-IsSound max small (genesis-IsSound g) r
