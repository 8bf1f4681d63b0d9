-- ===== src/Staking/Pool/Laws.antt =====
-- `update_active` of pallets/sequencer-staking/src/lib.rs on a pool that contains the candidate.
use popsicle.Prelude.{
  ℕ, suc, ◌≤◌, ◌≡◌, ◌≢◌, refl, ◌∙◌, true, false, some, List, length, arith, ==_self,
}
use popsicle.Prelude.Effects.{ok}
use popsicle.Staking.Set.{insert, remove, contains, try_insert}
use popsicle.Staking.Set.Laws.{
  IsOrdered, insert_lem, remove_lem, length-remove, length-insert, entry, entry-insert_self,
  entry-insert_ne, entry-remove_ne,
}
use popsicle.Staking.Set.Build.{try_insert_lem}
use popsicle.Staking.Types.{Bond, from_owner, bond_key}
use popsicle.Staking.Storage.{Config, Storage}
use popsicle.Staking.Pool.{update_active}

-- The pool is a set within its bound, and `c` is in it.
pub record IsListed (T : Config) (c : ℕ) (pool : List Bond) : Type 0 where
  pub ordered : IsOrdered bond_key pool
  pub bounded : length pool ≤ T.max_candidates
  pub member : contains bond_key (from_owner c) pool ≡ true

abbrev pub updated : ℕ → ℕ → List Bond → List Bond
updated c total pool =
    (insert bond_key (record { owner = c; amount = total })
      (remove bond_key (from_owner c) pool).1).1

module _ (T : Config) (c total : ℕ) (pool : List Bond) (h : IsListed T c pool) where
  others : List Bond
  others = (remove bond_key (from_owner c) pool).1

  removed : contains bond_key (record { owner = c; amount = total }) others ≡ false
  unfolding others contains
  removed =
      ground
        (arith, (remove_lem bond_key (from_owner c) pool h.ordered).2 (from_owner c), ==_self c)

  others-lt : suc (length others) ≤ T.max_candidates
  unfolding others
  others-lt = omega (arith, length-remove bond_key (from_owner c) pool h.member, h.bounded)

  others-IsOrdered : IsOrdered bond_key others
  unfolding others
  others-IsOrdered = (remove_lem bond_key (from_owner c) pool h.ordered).1

  -- There is room for the candidate once it is taken out: `expect` does not panic.
  try_insert-others :
      try_insert bond_key T.max_candidates
        (record { owner = c; amount = total })
        (remove bond_key (from_owner c) pool).1
      ≡ some (true, updated c total pool)
  unfolding others
  try_insert-others = ground (
    arith,
    try_insert_lem bond_key T.max_candidates (record { owner = c; amount = total }) others,
    removed,
    others-lt,
    (insert_lem bond_key (record { owner = c; amount = total }) others others-IsOrdered).0,
  )

  pub updated-IsOrdered : IsOrdered bond_key (updated c total pool)
  unfolding others
  updated-IsOrdered =
      (insert_lem bond_key (record { owner = c; amount = total }) others others-IsOrdered).1

  pub length-updated : length (updated c total pool) ≡ length pool
  unfolding others
  length-updated = omega (
    arith,
    length-insert bond_key (record { owner = c; amount = total }) others removed,
    length-remove bond_key (from_owner c) pool h.member,
  )

  pub entry-updated_self :
      entry bond_key c (updated c total pool) ≡ some (record { owner = c; amount = total })
  unfolding others
  entry-updated_self =
      entry-insert_self bond_key (record { owner = c; amount = total }) others others-IsOrdered
        removed

  pub entry-updated_ne :
      (w : ℕ) → c ≢ w → entry bond_key w (updated c total pool) ≡ entry bond_key w pool
  unfolding others
  entry-updated_ne w ne =
      entry-insert_ne bond_key (record { owner = c; amount = total }) w others ne
      ∙ entry-remove_ne bond_key (from_owner c) w pool ne

  pub updated-IsListed : IsListed T c (updated c total pool)
  unfolding others contains
  updated-IsListed = record {
    ordered = updated-IsOrdered;
    bounded = omega (arith, length-updated, h.bounded);
    member = ground (
      arith,
      (insert_lem bond_key (record { owner = c; amount = total }) others others-IsOrdered).2
          (from_owner c),
      ==_self c,
    );
  }

-- `update_active` on a pool that is a set within its bound and lists the candidate does not panic,
-- writes nothing but the pool, keeps it a set within its bound with the same number of entries,
-- gives the candidate the new total and leaves every other entry alone.
pub update_active_lem :
    (T : Config) (c total : ℕ) (s : Storage T)
    → IsListed T c s.candidate_pool
    → let pool = updated c total s.candidate_pool in
      (update_active T c total s ≡ (ok tt, record s { candidate_pool = pool }))
      × IsListed T c pool
      × (length pool ≡ length s.candidate_pool)
      × (entry bond_key c pool ≡ some (record { owner = c; amount = total }))
      × ((w : ℕ) → c ≢ w → entry bond_key w pool ≡ entry bond_key w s.candidate_pool)
unfolding update_active
update_active_lem T c total s h = (
  runs,
  updated-IsListed T c total s.candidate_pool h,
  length-updated T c total s.candidate_pool h,
  entry-updated_self T c total s.candidate_pool h,
  λ w ne. entry-updated_ne T c total s.candidate_pool h w ne,
)
  where
    runs :
        update_active T c total s
        ≡ (ok tt, record s { candidate_pool = updated c total s.candidate_pool })
    runs = rw (try_insert-others T c total s.candidate_pool h, update_active) refl
