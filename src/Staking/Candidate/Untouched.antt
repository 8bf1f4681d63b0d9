-- ===== src/Staking/Candidate/Untouched.antt =====
-- `Total` and the methods of `CandidateMetadata` in pallets/sequencer-staking/src/types.rs that add and
-- remove delegations.
use popsicle.Prelude.{ℕ, ◌≡◌, Bool, arith}
use popsicle.Staking.Types.{Bond, Delegations, CandidateMetadata}
use popsicle.Staking.Storage.{Config, Storage}
use popsicle.Staking.Pool.{update_active}
use popsicle.Staking.Delegator.{rm_delegation, delegation_remove_request_with_state}
use popsicle.Staking.Candidate.Book.{
  kick, make_room, add_bottom_delegation, bump_lowest_top, add_top_delegation, add_delegation,
  reset_top_data, promote_highest_bottom, rm_top_delegation, rm_bottom_delegation,
  rm_delegation_if_exists,
}

module _ (T : Config) where
  total-update_active :
      (c amount : ℕ) (s : Storage T) → (update_active T c amount s).1.total ≡ s.total
  unfolding update_active
  total-update_active c amount s = ground arith

  total-reset_top_data :
      (c : ℕ) (top : Delegations) (m : CandidateMetadata) (s : Storage T)
      → (reset_top_data T c top m s).1.total ≡ s.total
  unfolding reset_top_data
  total-reset_top_data c top m s = grind (arith, total-update_active)

  total-promote :
      (c : ℕ) (top : Delegations) (m : CandidateMetadata) (s : Storage T)
      → (promote_highest_bottom T c top m s).1.total ≡ s.total
  unfolding promote_highest_bottom
  total-promote c top m s = ground arith

  total-rm_top :
      (c o : ℕ) (m : CandidateMetadata) (s : Storage T)
      → (rm_top_delegation T c o m s).1.total ≡ s.total
  unfolding rm_top_delegation
  total-rm_top c o m s = grind (arith, total-promote, total-reset_top_data)

  total-rm_bottom :
      (c o : ℕ) (m : CandidateMetadata) (s : Storage T)
      → (rm_bottom_delegation T c o m s).1.total ≡ s.total
  unfolding rm_bottom_delegation
  total-rm_bottom c o m s = ground arith

  pub total-rm :
      (c o a : ℕ) (m : CandidateMetadata) (s : Storage T)
      → (rm_delegation_if_exists T c o a m s).1.total ≡ s.total
  unfolding rm_delegation_if_exists
  total-rm c o a m s = ground (
    arith,
    total-rm_top c o m s,
    total-rm_bottom c o m s,
    total-rm_bottom c o m (rm_top_delegation T c o m s).1,
  )

  total-kick : (c : ℕ) (b : Bond) (s : Storage T) → (kick T c b s).1.total ≡ s.total
  unfolding kick rm_delegation delegation_remove_request_with_state
  total-kick c b s = ground arith

  total-make_room :
      (c : ℕ) (bottom : Delegations) (s : Storage T) → (make_room T c bottom s).1.total ≡ s.total
  unfolding make_room
  total-make_room c bottom s = grind (arith, total-kick)

  total-add_bottom :
      (bumped : Bool) (c : ℕ) (d : Bond) (m : CandidateMetadata) (s : Storage T)
      → (add_bottom_delegation T bumped c d m s).1.total ≡ s.total
  unfolding add_bottom_delegation
  total-add_bottom bumped c d m s = grind (arith, total-make_room)

  total-bump :
      (c : ℕ) (top : Delegations) (m : CandidateMetadata) (s : Storage T)
      → (bump_lowest_top T c top m s).1.total ≡ s.total
  unfolding bump_lowest_top
  total-bump c top m s = grind (arith, total-add_bottom)

  total-add_top :
      (c : ℕ) (d : Bond) (m : CandidateMetadata) (s : Storage T)
      → (add_top_delegation T c d m s).1.total ≡ s.total
  unfolding add_top_delegation
  total-add_top c d m s = grind (arith, total-bump, total-reset_top_data)

  pub total-add :
      (c : ℕ) (d : Bond) (m : CandidateMetadata) (s : Storage T)
      → (add_delegation T c d m s).1.total ≡ s.total
  unfolding add_delegation
  total-add c d m s = grind (arith, total-add_bottom, total-add_top)
