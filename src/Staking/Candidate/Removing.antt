-- ===== src/Staking/Candidate/Removing.antt =====
-- The removals of `CandidateMetadata` in pallets/sequencer-staking/src/types.rs: each ends, and
-- leaves the lists described here.
use popsicle.Prelude.{
  ℕ, ◌≡◌, true, false, none, some, List, ◌∷◌, update, saturating_sub, ◌==◌, arith,
}
use popsicle.Prelude.Effects.{ok, err}
use popsicle.Staking.Types.{Bond, Delegations, CandidateMetadata, is_active, is_empty}
use popsicle.Staking.Storage.{Config, Storage, delegation_dne}
use popsicle.Staking.Pool.Laws.{IsListed}
use popsicle.Staking.Delegations.{insert_sorted_greatest_to_least}
use popsicle.Staking.Delegator.{matched_amount, without}
use popsicle.Staking.Candidate.Book.{
  with_top, reset_bottom_data, promote_highest_bottom, count_down, rm_top_delegation,
  rm_bottom_delegation,
}
use popsicle.Staking.Candidate.Adding.{reset_top_lem}

-- A list without the delegation of `o`, of amount `a`.
abbrev pub taken : ℕ → ℕ → Delegations → Delegations
taken o a d = record { delegations = without o d.delegations; total = saturating_sub d.total a }

-- A list without its first.
abbrev pub behind : Delegations → Bond → List Bond → Delegations
behind d x rest = record { delegations = rest; total = saturating_sub d.total x.amount }

module _ (T : Config) (c o : ℕ) (m : CandidateMetadata) (s : Storage T) where
  -- Nothing at the bottom: the top loses the delegation.
  pub rm_top_last_lem :
      (top : Delegations) (a : ℕ)
      → s.top_delegations c ≡ some top
      → matched_amount o top.delegations ≡ some a
      → is_empty m.bottom_capacity ≡ true
      → (is_active m ≡ true → IsListed T c s.candidate_pool)
      → let (r, s') = rm_top_delegation T c o m s in
        let m' = with_top T (taken o a top) m in
        (r ≡ ok (m.total_counted == m'.total_counted, count_down m'))
        × (s'.top_delegations c ≡ some (taken o a top))
        × (s'.bottom_delegations ≡ s.bottom_delegations)
        × (is_active m ≡ true → IsListed T c s'.candidate_pool)
  unfolding rm_top_delegation promote_highest_bottom
  rm_top_last_lem top a e f g listed = ground (arith, reset_top_lem T c (taken o a top) m s listed)

  -- Otherwise the highest at the bottom moves to the top.
  pub rm_top_lem :
      (top bottom : Delegations) (a : ℕ) (x : Bond) (rest : List Bond)
      → s.top_delegations c ≡ some top
      → s.bottom_delegations c ≡ some bottom
      → matched_amount o top.delegations ≡ some a
      → is_empty m.bottom_capacity ≡ false
      → bottom.delegations ≡ x ∷ rest
      → (is_active m ≡ true → IsListed T c s.candidate_pool)
      → let (r, s') = rm_top_delegation T c o m s in
        let top' = insert_sorted_greatest_to_least x (taken o a top) in
        let m' = with_top T top' (reset_bottom_data T (behind bottom x rest) m) in
        (r ≡ ok (m.total_counted == m'.total_counted, count_down m'))
        × (s'.top_delegations c ≡ some top')
        × (s'.bottom_delegations c ≡ some (behind bottom x rest))
        × (is_active m ≡ true → IsListed T c s'.candidate_pool)
  unfolding rm_top_delegation promote_highest_bottom
  rm_top_lem top bottom a x rest e f g h k listed = ground (
    arith,
    reset_top_lem T c (insert_sorted_greatest_to_least x (taken o a top))
        (reset_bottom_data T (behind bottom x rest) m)
        (record s {
          bottom_delegations = update s.bottom_delegations c (some (behind bottom x rest));
        })
        listed,
  )

  -- Where the top has no such delegation, `rm_top_delegation` says so and writes nothing.
  pub rm_top_dne :
      (top : Delegations)
      → s.top_delegations c ≡ some top
      → matched_amount o top.delegations ≡ none
      → rm_top_delegation T c o m s ≡ (err delegation_dne, s)
  unfolding rm_top_delegation
  rm_top_dne top e f = ground arith

  pub rm_bottom_lem :
      (bottom : Delegations) (a : ℕ)
      → s.bottom_delegations c ≡ some bottom
      → matched_amount o bottom.delegations ≡ some a
      → let (r, s') = rm_bottom_delegation T c o m s in
        (r ≡ ok (false, count_down (reset_bottom_data T (taken o a bottom) m)))
        × (s'.top_delegations ≡ s.top_delegations)
        × (s'.bottom_delegations c ≡ some (taken o a bottom))
        × (s'.candidate_pool ≡ s.candidate_pool)
  unfolding rm_bottom_delegation
  rm_bottom_lem bottom a e f = ground arith
