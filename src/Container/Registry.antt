-- ===== src/Container/Registry.antt =====
-- `register_app` of pallets/container/src/lib.rs, and every history of the pallet.
use popsicle.Prelude.{
  ℕ, zero, suc, ◌+◌, ◌≤◌, ◌<◌, ◌≡◌, ◌≢◌, ap, ◌-◌, Bool, true, false, none, some, List, [], ◌∷◌,
  length, length-push, get_elem?, push, update, max_u32, add_u32, arith,
}
use popsicle.Prelude.Effects.{ok}
use popsicle.Prelude.Origin.{signed}
use popsicle.Container.{Storage, Registration, app_info, register}
use popsicle.Container.Allocation.{IsAllocated}

-- The identifiers given out are 1 up to the number of flags, each with its information.
pub record IsRegistered (s : Storage) : Type 0 where
  pub next : s.next_application_id ≡ length s.inuse_map + 1
  pub known : (i : ℕ) → i < length s.inuse_map → s.appinfo_map (i + 1) ≢ none
  pub unknown : (a : ℕ) → length s.inuse_map < a → s.appinfo_map a ≡ none

get_elem?-push :
    (bs : List Bool) (i : ℕ) → get_elem? bs i ≡ some true → get_elem? (push bs false) i ≡ some true
get_elem?-push [] i e = cc
get_elem?-push (b ∷ bs) zero e = e
get_elem?-push (b ∷ bs) (suc i) e = get_elem?-push bs i e

module _ (max who : ℕ) (r : Registration) (s : Storage) (free : length s.inuse_map < max) where
  abbrev pub after : Storage
  after = (register max (signed who) r s).1

  register_effect :
      ((register max (signed who) r s).0 ≡ ok tt)
      × (after.appinfo_map ≡ update s.appinfo_map s.next_application_id (some (app_info who r)))
      × (after.next_application_id ≡ add_u32 s.next_application_id 1)
      × (after.inuse_map ≡ push s.inuse_map false)
      × (after.group_app_map ≡ s.group_app_map)
  unfolding register
  register_effect = ground arith

  after-IsRegistered : IsRegistered s → max ≤ max_u32 - 1 → IsRegistered after
  after-IsRegistered v small = record {
    next = ground (
      arith,
      register_effect.2,
      v.next,
      ap length register_effect.3,
      length-push s.inuse_map false,
    );
    known = λ i h. ground (arith, register_effect.1, size, v.known i, v.next);
    unknown = λ a h. ground (arith, register_effect.1, size, v.unknown a, v.next);
  }
    where
      size : length after.inuse_map ≡ suc (length s.inuse_map)
      size = omega (arith, ap length register_effect.3, length-push s.inuse_map false)

  pub after-IsAllocated : IsAllocated s → IsAllocated after
  after-IsAllocated v = record {
    marked = λ g i e.
        rw (register_effect.3)
          (get_elem?-push s.inuse_map i (v.marked g i (ground (arith, register_effect.4))));
    positive = λ g e. v.positive g (ground (arith, register_effect.4));
    apart = λ g h a e f.
        v.apart g h a (ground (arith, register_effect.4)) (ground (arith, register_effect.4));
  }

-- With room for one more flag, a registration by a signed account succeeds: it stores the application
-- under the next identifier, with the caller as its creator, not in use; the identifiers stay dense.
pub register_lem :
    (max who : ℕ) (r : Registration) (s : Storage)
    → length s.inuse_map < max
    → max ≤ max_u32 - 1
    → IsRegistered s
    → let (result, s') = register max (signed who) r s in
      (result ≡ ok tt)
      × IsRegistered s'
      × (s'.appinfo_map s.next_application_id ≡ some (app_info who r))
      × (s'.inuse_map ≡ push s.inuse_map false)
register_lem max who r s free small v =
    let effect = register_effect max who r s free in
    (effect.0, after-IsRegistered max who r s free v small, ground (arith, effect.1), effect.3)
