-- ===== src/Staking/Candidate/Finding.antt =====
-- How `rm_delegation_if_exists` of `CandidateMetadata` in pallets/sequencer-staking/src/types.rs looks
-- for a delegation by its amount.
use popsicle.Prelude.{
  ℕ, ◌≤◌, ◌≡◌, subst, sym, ◌⊎◌, inl, inr, Bool, some, List, [], ◌∷◌, length, max_balance, leb,
  arith,
}
use popsicle.Prelude.Effects.{ok}
use popsicle.Staking.Types.{Bond, Delegations, CandidateMetadata, is_full}
use popsicle.Staking.Storage.{Config, Storage}
use popsicle.Staking.Delegations.{highest_delegation_amount, lowest_delegation_amount}
use popsicle.Staking.Delegations.Insertion.{AtMost, IsDescending}
use popsicle.Staking.Delegations.Sums.{sum, count_owner, last-some, lowest-AtLeast}
use popsicle.Staking.Delegator.{matched_amount}
use popsicle.Staking.Candidate.Book.{
  rm_top_delegation, rm_bottom_delegation, rm_delegation_if_exists,
}
use popsicle.Staking.Candidate.Invariant.{HasBounds, IsBook}
use popsicle.Staking.Candidate.Splitting.{is_full-capacity}
use popsicle.Staking.Candidate.Without.{
  matched-none, matched-AtMost, matched-AtLeast, length-le-count,
}
use popsicle.Staking.Candidate.Removing.{rm_top_dne}
use popsicle.Staking.Candidate.Removal.{Removal, from_top, from_bottom}

-- `o` has one delegation, of amount `a`, in the list `here`, and none in the list `there`.
abbrev pub OnlyIn : ℕ → ℕ → Delegations → Delegations → Type 0
OnlyIn o a here there =
    (count_owner o here.delegations ≡ 1)
    × (matched_amount o here.delegations ≡ some a)
    × (count_owner o there.delegations ≡ 0)

AtMost-highest :
    (ds : List Bond) (t : ℕ)
    → IsDescending ds
    → AtMost (highest_delegation_amount (record { delegations = ds; total = t })) ds
AtMost-highest [] t s = tt
AtMost-highest (x ∷ xs) t s = (omega arith, s.0)

module _ (T : Config) (c o a : ℕ) (m : CandidateMetadata) (s : Storage T) (top bottom : Delegations)
    (h : HasBounds T) (b : IsBook T c m s top bottom) where
  top_full :
      is_full m.top_capacity ≡ leb T.max_top_delegations_per_candidate (length top.delegations)
  top_full =
      rw (b.caches.top_cap) (is_full-capacity T.max_top_delegations_per_candidate top.delegations)

  finds_top :
      OnlyIn o a top bottom
      → (r : Bool × CandidateMetadata) → (rm_top_delegation T c o m s).0 ≡ ok r
      → rm_delegation_if_exists T c o a m s ≡ rm_top_delegation T c o m s
  unfolding rm_delegation_if_exists
  finds_top here r e = ground (arith, above, b.caches.lowest_top)
    where
      above : lowest_delegation_amount top ≤ a
      above =
          let (k, last) =
            last-some top.delegations (omega (arith, length-le-count o top.delegations, here.0)) in
          let low : k.amount ≤ a =
            matched-AtLeast k.amount o a top.delegations
              (lowest-AtLeast top.delegations k b.split.top_sorted last) here.1 in
          ground arith

  finds_bottom :
      OnlyIn o a bottom top → rm_delegation_if_exists T c o a m s ≡ rm_bottom_delegation T c o m s
  unfolding rm_delegation_if_exists
  finds_bottom here = ground (
    arith,
    top_full,
    packed,
    below,
    highest,
    b.caches.lowest_top,
    b.caches.highest_bottom,
    rm_top_dne T c o m s top b.has_top (matched-none o top.delegations here.2),
  )
    where
      packed : length top.delegations ≡ T.max_top_delegations_per_candidate
      packed = omega (arith, b.split.spill, length-le-count o bottom.delegations, here.0)

      below : a ≤ lowest_delegation_amount top
      below = matched-AtMost _ o a bottom.delegations b.split.layered here.1

      highest :
          (a ≤ highest_delegation_amount bottom)
          × (highest_delegation_amount bottom ≤ lowest_delegation_amount top)
      highest = (
        matched-AtMost _ o a bottom.delegations
            (AtMost-highest bottom.delegations 0 b.split.bottom_sorted) here.1,
        capped bottom.delegations b.split.layered,
      )
        where
          capped :
              (ds : List Bond)
              → AtMost (lowest_delegation_amount top) ds
              → highest_delegation_amount (record { delegations = ds; total = 0 })
                ≤ lowest_delegation_amount top
          capped [] p = omega arith
          capped (x ∷ xs) p = p.0

-- With positive bounds, and lists and metadata as they should be, the only delegation of an owner
-- is found from its amount alone, in the top or the bottom, also where the lowest of the top
-- equals the highest of the bottom. If the sum of the top is a balance the call succeeds; the
-- lists and the metadata are as they should be again, and together they hold exactly the
-- delegations from before but for that one.
pub rm_delegation_if_exists-Removal :
    (T : Config) (c o a : ℕ) (m : CandidateMetadata) (s : Storage T) (top bottom : Delegations)
    → HasBounds T
    → IsBook T c m s top bottom
    → sum top.delegations ≤ max_balance
    → OnlyIn o a top bottom ⊎ OnlyIn o a bottom top
    → Removal T c o a top bottom (rm_delegation_if_exists T c o a m s)
rm_delegation_if_exists-Removal T c o a m s top bottom h b fits (inl here) =
    let gone = from_top T c o a m s top bottom h b here.0 here.1 fits in
    subst (Removal T c o a top bottom) (sym (finds_top T c o a m s top bottom h b here _ gone.runs))
      gone
rm_delegation_if_exists-Removal T c o a m s top bottom h b fits (inr here) =
    subst (Removal T c o a top bottom) (sym (finds_bottom T c o a m s top bottom h b here))
      (from_bottom T c o a m s top bottom h b here.0 here.1)
