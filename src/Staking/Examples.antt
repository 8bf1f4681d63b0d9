-- ===== src/Staking/Examples.antt =====
-- Concrete runs of pallets/sequencer-staking: a candidate with full lists, on a small configuration.
use popsicle.Prelude.{
  ℕ, update, ◌+◌, ◌≡◌, ◌≢◌, inl, inr, refl, true, false, not, ◌&&◌, ◌||◌, [], ◌∷◌, some, length,
  found, ◌==◌, arith,
}
use popsicle.Prelude.Effects.{ok, err}
use popsicle.Staking.Types.{Bond, bond_key, revoke, Delegations, CandidateMetadata}
use popsicle.Staking.Storage.{
  Storage, cannot_delegate_less_than_or_equal_to_lowest_bottom_when_full,
}
use popsicle.Staking.Set.{insert, remove, contains}
use popsicle.Staking.Set.Laws.{IsOrdered, entry, insert_lem, remove_lem}
use popsicle.Staking.Delegations.{place, insert_bond}
use popsicle.Staking.Delegations.Insertion.{place-stable_insert, insert_bond-stable_insert}
use popsicle.Staking.Delegations.Sums.{sum, count_owner}
use popsicle.Staking.Pool.{update_active}
use popsicle.Staking.Pool.Laws.{IsListed, updated, update_active_lem}
use popsicle.Staking.Candidate.Book.{add_delegation, rm_delegation_if_exists}
use popsicle.Staking.Candidate.Adjust.{increase_top_delegation, decrease_bottom_delegation}
use popsicle.Staking.Candidate.Kick.{IsKickable}
use popsicle.Staking.Candidate.Invariant.{IsBook}
use popsicle.Staking.Candidate.Admission.{
  Admission, add_delegation-Admission, add_delegation-refused,
}
use popsicle.Staking.Candidate.Removal.{Removal}
use popsicle.Staking.Candidate.Finding.{rm_delegation_if_exists-Removal}
use popsicle.Staking.Candidate.Adjusting.{
  increase_top_delegation_lem, decrease_bottom_delegation_stale,
}
use popsicle.Staking.Sample.{
  small_config, bond, full_top, full_bottom, packed, staked, two_candidates, is_listed, has_bounds,
  is_book, lowest_delegator, can_make_room,
}

insert_lem_example :
    let pool = bond 1 150 ∷ bond 2 60 ∷ [] in
    ((insert bond_key (bond 3 7) pool).0 ≡ not (contains bond_key (bond 3 7) pool))
    × IsOrdered bond_key (insert bond_key (bond 3 7) pool).1
    × ((w : Bond)
        → contains bond_key w (insert bond_key (bond 3 7) pool).1
          ≡ (3 == w.owner) || contains bond_key w pool)
insert_lem_example = insert_lem bond_key (bond 3 7) (bond 1 150 ∷ bond 2 60 ∷ []) two_candidates

remove_lem_example :
    let pool = bond 1 150 ∷ bond 2 60 ∷ [] in
    ((remove bond_key (bond 1 0) pool).0 ≡ contains bond_key (bond 1 0) pool)
    × IsOrdered bond_key (remove bond_key (bond 1 0) pool).1
    × ((w : Bond)
        → contains bond_key w (remove bond_key (bond 1 0) pool).1
          ≡ not (1 == w.owner) && contains bond_key w pool)
remove_lem_example = remove_lem bond_key (bond 1 0) (bond 1 150 ∷ bond 2 60 ∷ []) two_candidates

insert_bond-stable_insert_example :
    insert_bond full_top.delegations (bond 9 30) ≡ bond 10 30 ∷ bond 9 30 ∷ bond 11 20 ∷ []
insert_bond-stable_insert_example =
    insert_bond-stable_insert full_top.delegations (bond 9 30) ((omega arith, tt), (tt, tt))

-- Three equal amounts, of which the search answers the first: the new one goes behind all three.
place-stable_insert_example :
    place (bond 1 7 ∷ bond 2 7 ∷ bond 3 7 ∷ bond 4 5 ∷ []) (bond 9 7) (found 0)
    ≡ bond 1 7 ∷ bond 2 7 ∷ bond 3 7 ∷ bond 9 7 ∷ bond 4 5 ∷ []
place-stable_insert_example =
    place-stable_insert (bond 1 7 ∷ bond 2 7 ∷ bond 3 7 ∷ bond 4 5 ∷ []) (bond 9 7) (found 0)
      (
        (omega arith, (omega arith, (omega arith, tt))),
        ((omega arith, (omega arith, tt)), ((omega arith, tt), (tt, tt))),
      )
      refl

update_active_lem_example :
    let pool = updated 1 170 staked.candidate_pool in
    (update_active small_config 1 170 staked ≡ (ok tt, record staked { candidate_pool = pool }))
    × IsListed small_config 1 pool
    × (length pool ≡ 2)
    × (entry bond_key 1 pool ≡ some (bond 1 170))
    × ((w : ℕ) → 1 ≢ w → entry bond_key w pool ≡ entry bond_key w staked.candidate_pool)
update_active_lem_example = update_active_lem small_config 1 170 staked is_listed

-- The lowest delegator has asked to revoke the delegation that is kicked.
abbrev revoking : Storage small_config
revoking = record staked {
  delegation_scheduled_requests =
      update (λ _. []) 1 (record { delegator = 13; when_executable = 4; action = revoke 5 } ∷ []);
}

abbrev revoking_kickable : IsKickable small_config 1 revoking (bond 13 5)
revoking_kickable = record {
  state = lowest_delegator;
  has_state = refl;
  amount = 5;
  has_amount = refl;
  ledger = _;
  pays = refl;
}

add_delegation-Admission_example :
    Admission small_config 1 (bond 14 25) packed staked full_top full_bottom
add_delegation-Admission_example =
    add_delegation-Admission small_config 1 (bond 14 25) packed staked full_top full_bottom
      has_bounds is_book can_make_room (omega arith) (inr (inl (omega arith)))

add_delegation-refused_example :
    add_delegation small_config 1 (bond 14 5) packed staked
    ≡ (err cannot_delegate_less_than_or_equal_to_lowest_bottom_when_full, staked)
add_delegation-refused_example =
    add_delegation-refused small_config 1 (bond 14 5) packed staked full_top full_bottom has_bounds
      is_book refl refl (omega arith) (omega arith)

rm_delegation_if_exists-Removal_example :
    Removal small_config 1 12 20 full_top full_bottom
      (rm_delegation_if_exists small_config 1 12 20 packed staked)
rm_delegation_if_exists-Removal_example =
    rm_delegation_if_exists-Removal small_config 1 12 20 packed staked full_top full_bottom
      has_bounds is_book (omega arith) (inr (refl, refl, refl))

increase_top_delegation_lem_example :
    let (r, s') = increase_top_delegation small_config 1 11 15 packed staked in
    (m' : CandidateMetadata) × (top' : Delegations) × (r ≡ ok (true, m'))
    × IsBook small_config 1 m' s' top' full_bottom
    × (sum top'.delegations ≡ 50 + 15)
    × ((p : ℕ) → count_owner p top'.delegations ≡ count_owner p full_top.delegations)
increase_top_delegation_lem_example =
    increase_top_delegation_lem small_config 1 11 20 15 packed staked full_top full_bottom
      has_bounds is_book (refl, refl, refl) (omega arith)

decrease_bottom_delegation_stale_example :
    let (r, s') = decrease_bottom_delegation small_config 1 12 6 packed staked in
    (m' : CandidateMetadata) × (bottom' : Delegations) × (r ≡ ok (false, m'))
    × IsBook small_config 1 m' s' full_top bottom'
    × (sum bottom'.delegations + 6 ≡ 25)
    × (bottom'.total ≡ 25)
decrease_bottom_delegation_stale_example =
    decrease_bottom_delegation_stale small_config 1 12 20 6 packed staked full_top full_bottom
      has_bounds is_book (refl, refl, refl) (omega arith)
