-- ===== src/Staking/Candidate/Adjust.antt =====
-- How `CandidateMetadata` of pallets/sequencer-staking/src/types.rs raises and lowers a delegation.
use popsicle.Prelude.{
  ℕ, Bool, true, false, not, ◌&&◌, List, [], ◌∷◌, map, any, last?, init, uncons, saturating_add,
  saturating_sub, leb, ltb, ◌==◌, if◌then◌else◌,
}
use popsicle.Prelude.Effects.{pure, gets, expect, ok_or, ensure, on_error, ◌>>=◌, ◌>>◌}
use popsicle.Staking.Types.{Bond, Delegations, is_full, is_empty, CandidateMetadata}
use popsicle.Staking.Storage.{
  Config, Storage, delegation_dne, candidate_dne, Call, insert_top, insert_bottom,
}
use popsicle.Staking.Delegations.{insert_sorted_greatest_to_least, sort_greatest_to_least, capacity}
use popsicle.Staking.Delegator.{matched_amount, without}
use popsicle.Staking.Candidate.Book.{reset_top_data, reset_bottom_data, is_delegation_dne}

-- The loop over delegations that changes the amount of those of `owner`.
abbrev pub adjust : ℕ → (ℕ → ℕ) → List Bond → List Bond
adjust owner f = map λ (x : Bond). if x.owner == owner then record x { amount = f x.amount } else x

-- Whether such a loop meets a delegation of `owner`.
abbrev pub delegates : ℕ → List Bond → Bool
delegates owner = any λ (x : Bond). x.owner == owner

-- `increase_top_delegation`
unfoldable pub increase_top_delegation :
    (T : Config) → ℕ → ℕ → ℕ → CandidateMetadata → Call T (Bool × CandidateMetadata)
increase_top_delegation T candidate delegator more m = do
  top ← expect (← gets (λ (s : Storage T). s.top_delegations candidate))
  ensure (delegates delegator top.delegations) delegation_dne
  let top' = sort_greatest_to_least (record {
    delegations = adjust delegator (λ a. saturating_add a more) top.delegations;
    total = saturating_add top.total more;
  })
  m' ← reset_top_data T candidate top' m
  insert_top T candidate top'
  pure (true, m')

-- In `increase_bottom_delegation` and elsewhere: a full top gives its lowest to the bottom.
unfoldable pub lowest_top_to_bottom :
    (T : Config) → Delegations → Delegations → Call T (Delegations × Delegations)
lowest_top_to_bottom T top bottom =
    if is_full (capacity T.max_top_delegations_per_candidate top.delegations)
    then (do
      lowest ← expect (last? top.delegations)
      pure (
        record {
          delegations = init top.delegations;
          total = saturating_sub top.total lowest.amount;
        },
        insert_sorted_greatest_to_least lowest bottom,
      ))
    else pure (top, bottom)

-- the branch of `increase_bottom_delegation` that moves the delegation to the top
unfoldable pub raise_to_top :
    (T : Config)
    → ℕ
    → ℕ
    → ℕ
    → ℕ
    → Delegations
    → CandidateMetadata
    → Call T (Delegations × CandidateMetadata)
raise_to_top T candidate delegator bond more bottom m = do
  amount ← ok_or delegation_dne (matched_amount delegator bottom.delegations)
  top ← expect (← gets (λ (s : Storage T). s.top_delegations candidate))
  (top', bottom') ← lowest_top_to_bottom T top (record {
    delegations = without delegator bottom.delegations;
    total = saturating_sub bottom.total bond;
  })
  let top'' =
      insert_sorted_greatest_to_least
        (record { owner = delegator; amount = saturating_add amount more }) top'
  m' ← reset_top_data T candidate top'' m
  insert_top T candidate top''
  pure (bottom', m')

-- `increase_bottom_delegation`
unfoldable pub increase_bottom_delegation :
    (T : Config) → ℕ → ℕ → ℕ → ℕ → CandidateMetadata → Call T (Bool × CandidateMetadata)
increase_bottom_delegation T candidate delegator bond more m = do
  bottom ← ok_or candidate_dne (← gets (λ (s : Storage T). s.bottom_delegations candidate))
  let in_top_after = ltb m.lowest_top_delegation_amount (saturating_add bond more)
  (bottom', m') ←
      if in_top_after then raise_to_top T candidate delegator bond more bottom m else (do
        ensure (delegates delegator bottom.delegations) delegation_dne
        pure (
          sort_greatest_to_least (record {
            delegations = adjust delegator (λ a. saturating_add a more) bottom.delegations;
            total = saturating_add bottom.total more;
          }),
          m,
        ))
  insert_bottom T candidate bottom'
  pure (in_top_after, reset_bottom_data T bottom' m')

-- `increase_delegation`
unfoldable pub increase_delegation :
    (T : Config) → ℕ → ℕ → ℕ → ℕ → CandidateMetadata → Call T (Bool × CandidateMetadata)
increase_delegation T candidate delegator bond more m =
    let geq = leb m.lowest_top_delegation_amount bond in
    let same = m.lowest_top_delegation_amount == m.highest_bottom_delegation_amount in
    if geq && not same
    then increase_top_delegation T candidate delegator more m
    else if geq && same
    then on_error is_delegation_dne (increase_top_delegation T candidate delegator more m)
        (increase_bottom_delegation T candidate delegator bond more m)
    else increase_bottom_delegation T candidate delegator bond more m

-- The total that the closure in `decrease_top_delegation` leaves: it subtracts the amount of each
-- delegation of `owner`.
abbrev pub total_without : ℕ → List Bond → ℕ → ℕ
total_without owner [] total = total
total_without owner (x ∷ xs) total =
    total_without owner xs (if x.owner == owner then saturating_sub total x.amount else total)

-- the branch of `decrease_top_delegation` that swaps the delegation with the highest bottom
unfoldable pub lower_to_bottom :
    (T : Config)
    → ℕ
    → ℕ
    → ℕ
    → Delegations
    → CandidateMetadata
    → Call T (Delegations × CandidateMetadata)
lower_to_bottom T candidate delegator less top m = do
  amount ← ok_or delegation_dne (matched_amount delegator top.delegations)
  bottom ← expect (← gets (λ (s : Storage T). s.bottom_delegations candidate))
  (highest, rest) ← expect (uncons bottom.delegations)
  let top' = insert_sorted_greatest_to_least highest (record {
    delegations = without delegator top.delegations;
    total = total_without delegator top.delegations top.total;
  })
  let bottom' =
      insert_sorted_greatest_to_least
        (record { owner = delegator; amount = saturating_sub amount less })
        (record { delegations = rest; total = saturating_sub bottom.total highest.amount })
  insert_bottom T candidate bottom'
  pure (top', reset_bottom_data T bottom' m)

-- `decrease_top_delegation`
unfoldable pub decrease_top_delegation :
    (T : Config) → ℕ → ℕ → ℕ → ℕ → CandidateMetadata → Call T (Bool × CandidateMetadata)
decrease_top_delegation T candidate delegator bond less m = do
  let falls =
      ltb (saturating_sub bond less) m.highest_bottom_delegation_amount
      && is_full m.top_capacity
      && not (is_empty m.bottom_capacity)
  top ← ok_or candidate_dne (← gets (λ (s : Storage T). s.top_delegations candidate))
  (top', m') ← if falls then lower_to_bottom T candidate delegator less top m else (do
    ensure (delegates delegator top.delegations) delegation_dne
    pure (
      sort_greatest_to_least (record {
        delegations = adjust delegator (λ a. saturating_sub a less) top.delegations;
        total = saturating_sub top.total less;
      }),
      m,
    ))
  m'' ← reset_top_data T candidate top' m'
  insert_top T candidate top'
  pure (not falls, m'')

-- `decrease_bottom_delegation`
unfoldable pub decrease_bottom_delegation :
    (T : Config) → ℕ → ℕ → ℕ → CandidateMetadata → Call T (Bool × CandidateMetadata)
decrease_bottom_delegation T candidate delegator less m = do
  bottom ← expect (← gets (λ (s : Storage T). s.bottom_delegations candidate))
  ensure (delegates delegator bottom.delegations) delegation_dne
  let bottom' = sort_greatest_to_least (record bottom {
    delegations = adjust delegator (λ a. saturating_sub a less) bottom.delegations;
  })
  insert_bottom T candidate bottom'
  pure (false, reset_bottom_data T bottom' m)

-- `decrease_delegation`
unfoldable pub decrease_delegation :
    (T : Config) → ℕ → ℕ → ℕ → ℕ → CandidateMetadata → Call T (Bool × CandidateMetadata)
decrease_delegation T candidate delegator bond less m =
    let geq = leb m.lowest_top_delegation_amount bond in
    let same = m.lowest_top_delegation_amount == m.highest_bottom_delegation_amount in
    if geq && not same
    then decrease_top_delegation T candidate delegator bond less m
    else if geq && same
    then on_error is_delegation_dne (decrease_top_delegation T candidate delegator bond less m)
        (decrease_bottom_delegation T candidate delegator less m)
    else decrease_bottom_delegation T candidate delegator less m
