-- ===== src/Staking/Genesis.antt =====
-- The genesis build of pallets/sequencer-staking/src/lib.rs.
pub mod Founding
use popsicle.Prelude.{
  ℕ, Bool, suc, ◌*◌, ◌/◌, ◌%◌, ◌^◌, ◌<◌, ◌≤◌, ◌≡◌, refl, inl, inr, Bool-cases, true, false, List,
  [], ◌∷◌, update, saturating_add_u32, leb, ltb, if◌then◌else◌, arith,
}
use popsicle.Prelude.Effects.{ok, err, panic, pure, gets, modify, ◌>>=◌, ◌>>◌, Outcome-cases}
use popsicle.Prelude.Origin.{signed}
use popsicle.Staking.Types.{RoundInfo}
use popsicle.Staking.Storage.{Config, Storage, Call, deposit_event, new_round}
use popsicle.Staking.Calls.{join_candidates, join_candidates_inner}
use popsicle.Staking.Calls.Enrolment.{Agrees, to-Agrees, join_candidates_inner-Agrees}
use popsicle.Staking.Delegating.{delegate}
use popsicle.Staking.Selection.{select_top_candidates}

pub record GenesisConfig : Type 0 where
  pub candidates : List ℕ
  -- delegator, candidate and amount
  pub delegations : List (ℕ × ℕ × ℕ)
  pub sequencer_commission : ℕ
  pub blocks_per_round : ℕ

abbrev assert : (T : Config) → Bool → Call T (Unit {0})
assert T true s = (ok tt, s)
assert T false s = (panic, s)

module _ (T : Config) where
  -- the loop over the candidates; a candidate that may not join is passed over
  unfoldable pub init_candidates : List ℕ → ℕ → Call T (Unit {0})
  unfolding join_candidates
  init_candidates [] candidate_count = pure tt
  init_candidates (c ∷ cs) candidate_count = do
    s ← gets (λ (s : Storage T). s)
    assert T (leb T.min_candidate_stk (T.free_balance s.ledger c))
    λ s.
        let (r, t) = join_candidates T (signed c) candidate_count s in
        elim r [
          | ok _ ↦ init_candidates cs (saturating_add_u32 candidate_count 1) t
          | err _ ↦ init_candidates cs candidate_count t
          | panic ↦ (panic, t)
        ]

  -- the loop over the delegations, with how many each candidate and each delegator has so far
  unfoldable pub init_delegations : List (ℕ × ℕ × ℕ) → (ℕ → ℕ) → (ℕ → ℕ) → Call T (Unit {0})
  unfolding delegate
  init_delegations [] col_delegator_count del_delegation_count = pure tt
  init_delegations ((delegator, target, balance) ∷ ds) col_delegator_count del_delegation_count = do
    s ← gets (λ (s : Storage T). s)
    assert T (leb balance (T.reducible_balance s.ledger delegator))
    λ s.
        let cd_count = col_delegator_count target in
        let dd_count = del_delegation_count delegator in
        let (r, t) = delegate T (signed delegator) target balance cd_count dd_count s in
        elim r [
          | ok _ ↦
              init_delegations ds
                (update col_delegator_count target (saturating_add_u32 cd_count 1))
                (update del_delegation_count delegator (saturating_add_u32 dd_count 1)) t
          | err _ ↦ init_delegations ds col_delegator_count del_delegation_count t
          | panic ↦ (panic, t)
        ]

  -- the round that the genesis sets
  abbrev pub first_round : ℕ → RoundInfo
  first_round blocks_per_round = record {
    current = 1;
    first = 0;
    length = blocks_per_round;
    snapshot_time_point = (blocks_per_round * 3) % 2 ^ 32 / 4;
  }

  -- `GenesisConfig::build`, with the `total_selected` of the grouping pallet
  unfoldable pub build : ℕ → GenesisConfig → Call T (Unit {0})
  unfolding init_candidates init_delegations select_top_candidates
  build total_selected genesis = do
    assert T (ltb 0 genesis.blocks_per_round)
    init_candidates genesis.candidates 0
    init_delegations genesis.delegations (λ _. 0) (λ _. 0)
    modify (λ (s : Storage T). record s { sequencer_commission = genesis.sequencer_commission })
    selected ← select_top_candidates T total_selected 1
    modify (λ (s : Storage T). record s { round = first_round genesis.blocks_per_round })
    deposit_event T (new_round 0 1 selected.sequencer_count)
