-- ===== src/Staking/Candidate/Adding.antt =====
-- `add_delegation` of `CandidateMetadata` in pallets/sequencer-staking/src/types.rs: it ends, and
-- leaves the lists of Splitting.
use popsicle.Prelude.{
  ℕ, ◌<◌, ◌≡◌, inl, inr, Bool-cases, ==_iff, update, Bool, true, not, ◌&&◌, none, some, length,
  last?, saturating_add, saturating_add_u32, ◌==◌, if◌then◌else◌, arith,
}
use popsicle.Prelude.Effects.{ok}
use popsicle.Staking.Types.{Bond, Delegations, CandidateMetadata, is_active, is_full}
use popsicle.Staking.Storage.{Config, Storage}
use popsicle.Staking.Pool.Laws.{IsListed, update_active_lem}
use popsicle.Staking.Delegations.{insert_sorted_greatest_to_least}
use popsicle.Staking.Candidate.Book.{
  make_room, add_bottom_delegation, reset_top_data, reset_bottom_data, with_top, bump_lowest_top,
  add_top_delegation, count_unless_kicked,
}
use popsicle.Staking.Candidate.Kick.{IsKickable, Frame, kick-Frame}
use popsicle.Staking.Candidate.Splitting.{room, enter_bottom, enter_full_top}

-- A full bottom is not empty, and its lowest can be kicked.
abbrev pub CanMakeRoom : (T : Config) → ℕ → Storage T → Delegations → Type 0
CanMakeRoom T c s bottom =
    (length bottom.delegations ≡ T.max_bottom_delegations_per_candidate)
    → (k : Bond) × (last? bottom.delegations ≡ some k) × IsKickable T c s k

make_room_lem :
    (T : Config) (c : ℕ) (s : Storage T) (bottom : Delegations)
    → CanMakeRoom T c s bottom
    → let (r, s') = make_room T c bottom s in
      (r ≡ ok (length bottom.delegations == T.max_bottom_delegations_per_candidate, room T bottom))
      × Frame T s s'
unfolding make_room
make_room_lem T c s bottom h =
    elim (Bool-cases (length bottom.delegations == T.max_bottom_delegations_per_candidate)) [
      | inl e ↦
          let (k, last, kickable) = h ((==_iff _ _).0 e) in
          ground (arith, kick-Frame T c s k kickable)
      | inr e ↦ ground arith
    ]

-- The metadata after `add_bottom_delegation`.
abbrev pub after_bottom :
    (T : Config) → Bool → Bond → Delegations → CandidateMetadata → CandidateMetadata
after_bottom T bumped d bottom m = reset_bottom_data T (enter_bottom T d bottom) (record m {
  delegation_count =
      if not (length bottom.delegations == T.max_bottom_delegations_per_candidate) && not bumped
      then saturating_add_u32 m.delegation_count 1
      else m.delegation_count;
})

pub add_bottom_lem :
    (T : Config) (bumped : Bool) (c : ℕ) (d : Bond) (m : CandidateMetadata) (s : Storage T)
    (bottom : Delegations)
    → s.bottom_delegations c ≡ some bottom
    → CanMakeRoom T c s bottom
    → let (r, s') = add_bottom_delegation T bumped c d m s in
      (r ≡ ok (after_bottom T bumped d bottom m))
      × (s'.bottom_delegations ≡ update s.bottom_delegations c (some (enter_bottom T d bottom)))
      × (s'.top_delegations ≡ s.top_delegations)
      × (s'.candidate_pool ≡ s.candidate_pool)
unfolding add_bottom_delegation
add_bottom_lem T bumped c d m s bottom e h = ground (arith, make_room_lem T c s bottom h)

-- `reset_top_data` sets the metadata, and keeps an active candidate in the pool.
pub reset_top_lem :
    (T : Config) (c : ℕ) (top : Delegations) (m : CandidateMetadata) (s : Storage T)
    → (is_active m ≡ true → IsListed T c s.candidate_pool)
    → let (r, s') = reset_top_data T c top m s in
      (r ≡ ok (with_top T top m))
      × (s'.bottom_delegations ≡ s.bottom_delegations)
      × (s'.top_delegations ≡ s.top_delegations)
      × (is_active m ≡ true → IsListed T c s'.candidate_pool)
unfolding reset_top_data
reset_top_lem T c top m s listed = elim (Bool-cases (is_active m)) [
  | inl e ↦
      ground (arith, update_active_lem T c (saturating_add m.bond top.total) s (listed e), listed e)
  | inr e ↦ ground arith
]

-- `add_top_delegation` on a full top.
pub add_full_top_lem :
    (T : Config) (c : ℕ) (d k : Bond) (m : CandidateMetadata) (s : Storage T)
    (top bottom : Delegations)
    → s.top_delegations c ≡ some top
    → s.bottom_delegations c ≡ some bottom
    → length top.delegations ≡ T.max_top_delegations_per_candidate
    → last? top.delegations ≡ some k
    → CanMakeRoom T c s bottom
    → (is_active m ≡ true → IsListed T c s.candidate_pool)
    → let (r, s') = add_top_delegation T c d m s in
      let less =
        if is_full m.bottom_capacity then some m.lowest_bottom_delegation_amount else none in
      let m' = with_top T (enter_full_top d top) (after_bottom T true k bottom m) in
      (r ≡ ok (less, count_unless_kicked less m'))
      × (s'.top_delegations c ≡ some (enter_full_top d top))
      × (s'.bottom_delegations c ≡ some (enter_bottom T k bottom))
      × (is_active m ≡ true → IsListed T c s'.candidate_pool)
unfolding add_top_delegation bump_lowest_top
add_full_top_lem T c d k m s top bottom e f full last h listed = ground (
  arith,
  add_bottom_lem T true c k m s bottom f h,
  reset_top_lem T c (enter_full_top d top) (after_bottom T true k bottom m)
      (add_bottom_delegation T true c k m s).1 carried,
)
  where
    carried :
        is_active m ≡ true → IsListed T c ((add_bottom_delegation T true c k m s).1).candidate_pool
    carried a = rw ((add_bottom_lem T true c k m s bottom f h).3) (listed a)

-- `add_top_delegation` while the top has room.
pub add_free_top_lem :
    (T : Config) (c : ℕ) (d : Bond) (m : CandidateMetadata) (s : Storage T) (top : Delegations)
    → s.top_delegations c ≡ some top
    → length top.delegations < T.max_top_delegations_per_candidate
    → (is_active m ≡ true → IsListed T c s.candidate_pool)
    → let (r, s') = add_top_delegation T c d m s in
      let top' = insert_sorted_greatest_to_least d top in
      (r ≡ ok (none, count_unless_kicked none (with_top T top' m)))
      × (s'.top_delegations c ≡ some top')
      × (s'.bottom_delegations ≡ s.bottom_delegations)
      × (is_active m ≡ true → IsListed T c s'.candidate_pool)
unfolding add_top_delegation bump_lowest_top
add_free_top_lem T c d m s top e free listed =
    ground (arith, reset_top_lem T c (insert_sorted_greatest_to_least d top) m s listed)
