-- ===== src/Prelude/Origin.antt =====
-- The origin of an extrinsic, and the checks of frame_system on it.
use popsicle.Prelude.Effects.{Action}
use popsicle.Prelude.Effects
use Prim.Native.Nat.{ℕ}

pub data Origin : Type 0 where
  root : Origin
  signed : ℕ → Origin
  unsigned : Origin

module _ {S E : Type 0} where
  -- `ensure_root(origin)?`, with the pallet's name for `BadOrigin`
  abbrev pub ensure_root : E → Origin → Action S E (Unit {0})
  ensure_root e root s = (Effects.ok tt, s)
  ensure_root e (signed _) s = (Effects.err e, s)
  ensure_root e unsigned s = (Effects.err e, s)

  -- `ensure_signed(origin)?`
  abbrev pub ensure_signed : E → Origin → Action S E ℕ
  ensure_signed e root s = (Effects.err e, s)
  ensure_signed e (signed who) s = (Effects.ok who, s)
  ensure_signed e unsigned s = (Effects.err e, s)
