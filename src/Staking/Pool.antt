-- ===== src/Staking/Pool.antt =====
-- The candidate pool of pallets/sequencer-staking/src/lib.rs.
pub mod Laws
use popsicle.Prelude.{ℕ}
use popsicle.Prelude.Effects.{gets, expect, ◌>>=◌}
use popsicle.Staking.Set.{remove, try_insert}
use popsicle.Staking.Types.{Bond, from_owner, bond_key}
use popsicle.Staking.Storage.{Config, Storage, Call, put_pool}

-- `Pallet::update_active`
unfoldable pub update_active : (T : Config) → ℕ → ℕ → Call T (Unit {0})
update_active T candidate total = do
  candidates ← gets (λ (s : Storage T). s.candidate_pool)
  (_, others) ← gets (λ _. remove bond_key (from_owner candidate) candidates)
  (_, updated) ←
      expect
        (try_insert bond_key T.max_candidates (record { owner = candidate; amount = total }) others)
  put_pool T updated
