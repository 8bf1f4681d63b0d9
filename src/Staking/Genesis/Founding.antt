-- ===== src/Staking/Genesis/Founding.antt =====
-- The chain that the genesis of pallets/sequencer-staking/src/lib.rs founds.
use popsicle.Prelude.{
  ℕ, ◌*◌, ◌≤◌, ◌≡◌, refl, subst, inl, inr, Bool-cases, Option-cases, some, List, [], ◌∷◌, All,
  length, update, ◌==◌, leb, max_u32, arith, saturating_add_u32,
}
use popsicle.Prelude.Effects.{Outcome, ok, err}
use popsicle.Grouping
use popsicle.Grouping.Trigger.{HasMetric}
use popsicle.Staking.Set.{insert}
use popsicle.Staking.Types.{from_owner, bond_key, new_candidate, no_delegations}
use popsicle.Staking.Storage
use popsicle.Staking.Storage.{
  Config, Storage, candidate_exists, delegator_exists,
  too_low_candidate_count_weight_hint_join_candidates, insufficient_balance,
  joined_sequencer_candidates, new_round,
}
use popsicle.Staking.Calls.{join_candidates, join_candidates_inner}
use popsicle.Staking.Calls.Enrolment.{
  Agrees, join_candidates_inner-Agrees, entered, refused, enter_pool-Entered,
}
use popsicle.Staking.Selection.Choosing.{HasLists}
use popsicle.Staking.Rounds.{Chain}
use popsicle.Staking.Rounds.Sound.{
  IsSound, AllStaked, select_top_candidates-IsChosen, chosen-IsSound,
}
use popsicle.Staking.Rounds.Safety.{IsRunning, HasPhase, serving, to-IsRunning}
use popsicle.Staking.Genesis.{GenesisConfig, init_candidates, first_round, build}

module _ (T : Config) where
  -- the storage after `c` has joined
  abbrev with_candidate : ℕ → Storage T → Storage T
  with_candidate c s = record s {
    ledger = T.set_lock c T.min_candidate_stk s.ledger;
    candidate_info = update s.candidate_info c (some (new_candidate 0));
    top_delegations = update s.top_delegations c (some no_delegations);
    bottom_delegations = update s.bottom_delegations c (some no_delegations);
    candidate_pool = (insert bond_key (from_owner c) s.candidate_pool).1;
    events = joined_sequencer_candidates c T.min_candidate_stk ∷ s.events;
  }

  -- Either the candidate joins, or nothing changes.
  data Joined (c : ℕ) (s : Storage T) (r : Outcome Storage.Error (Unit {0}) × Storage T)
      : Type 0 where
    joined : r ≡ (ok tt, with_candidate c s) → Joined c s r
    turned_away : (e : Storage.Error) → r ≡ (err e, s) → Joined c s r

  join_candidates_inner-Joined :
      (c count : ℕ) (s : Storage T) → Joined c s (join_candidates_inner T c count s)
  unfolding join_candidates_inner
  join_candidates_inner-Joined c count s = elim (Option-cases (s.candidate_info c)) [
    | inr (m, e) ↦ turned_away candidate_exists (ground (arith, e))
    | inl e ↦ elim (Option-cases (s.delegator_state c)) [
      | inr (d, f) ↦ turned_away delegator_exists (ground (arith, e, f))
      | inl f ↦ elim (Bool-cases (leb (length s.candidate_pool) count)) [
        | inr few ↦
            turned_away too_low_candidate_count_weight_hint_join_candidates
              (ground (arith, e, f, few))
        | inl many ↦
            elim (enter_pool-Entered T candidate_exists (from_owner c) s.candidate_pool s) [
              | refused x r ↦ turned_away x (ground (arith, e, f, many, r))
              | entered r fresh room ↦
                  elim (Bool-cases (leb T.min_candidate_stk (T.free_balance s.ledger c))) [
                    | inr poor ↦
                        turned_away insufficient_balance (ground (arith, e, f, many, r, poor))
                    | inl rich ↦ joined (ground (arith, e, f, many, r, rich))
                  ]
            ]
      ]
    ]
  ]

  -- A lock does not change a free balance.
  abbrev pub LocksKeepFree : Type 0
  LocksKeepFree =
      (l : T.Ledger) (who amount c : ℕ)
      → T.free_balance (T.set_lock who amount l) c ≡ T.free_balance l c

  -- Before the first selection.
  pub record IsFounded (s : Storage T) : Type 0 where
    pub agrees : Agrees T s
    pub lists : HasLists T s
    pub stakes : (q : ℕ) → s.at_stake q ≡ []
    pub selected : s.selected_candidates ≡ []

  with_candidate-IsFounded :
      (c count : ℕ) (s : Storage T)
      → join_candidates_inner T c count s ≡ (ok tt, with_candidate c s)
      → IsFounded s
      → IsFounded (with_candidate c s)
  with_candidate-IsFounded c count s e h = record {
    agrees = subst (λ r. Agrees T r.1) e (join_candidates_inner-Agrees T c s h.agrees count);
    lists = λ d m f. elim (Bool-cases (d == c)) [
      | inl here ↦ (no_delegations, ground (arith, here))
      | inr away ↦
          let (top, g) = h.lists d m (ground (arith, away, f)) in (top, ground (arith, away, g))
    ];
    stakes = h.stakes;
    selected = h.selected;
  }

  funds_kept :
      (locks : LocksKeepFree) (l : T.Ledger) (who amount : ℕ) (cs : List ℕ)
      → All (λ c. T.min_candidate_stk ≤ T.free_balance l c) cs
      → All (λ c. T.min_candidate_stk ≤ T.free_balance (T.set_lock who amount l) c) cs
  funds_kept locks l who amount [] h = tt
  funds_kept locks l who amount (c ∷ cs) h =
      (rw (locks l who amount c) h.0, funds_kept locks l who amount cs h.1)

  init_candidates-IsFounded :
      (locks : LocksKeepFree) (cs : List ℕ) (count : ℕ) (s : Storage T)
      → IsFounded s
      → All (λ c. T.min_candidate_stk ≤ T.free_balance s.ledger c) cs
      → (t : Storage T) × (init_candidates T cs count s ≡ (ok tt, t)) × IsFounded t
  unfolding init_candidates join_candidates
  init_candidates-IsFounded locks [] count s h funds = (s, refl, h)
  init_candidates-IsFounded locks (c ∷ cs) count s h funds =
      elim (join_candidates_inner-Joined c count s) [
        | joined e ↦
            let (t, r, i) =
              init_candidates-IsFounded locks cs (saturating_add_u32 count 1) (with_candidate c s)
                (with_candidate-IsFounded c count s e h)
                (funds_kept locks s.ledger c T.min_candidate_stk cs funds.1) in
            (t, ground (arith, funds.0, e, r), i)
        | turned_away x e ↦
            let (t, r, i) = init_candidates-IsFounded locks cs count s h funds.1 in
            (t, ground (arith, funds.0, e, r), i)
      ]

module _ (T : Config) (blocks : ℕ) (some_blocks : 2 ≤ blocks) (fits : blocks * 3 ≤ max_u32) where
  -- The snapshot of the first round is within the round.
  first_round-HasPhase : HasPhase 0 (first_round T blocks)
  first_round-HasPhase = record {
    numbered = omega arith;
    paced = omega arith;
    begun = omega arith;
    undue = omega (arith, some_blocks);
    later = omega (arith, some_blocks, fits);
    sooner = omega (arith, some_blocks, fits);
  }

  first_serving : 1 ≡ serving 0 (first_round T blocks)
  first_serving = ground (arith, first_round-HasPhase.later)

-- A genesis without delegations.
abbrev pub only_candidates : List ℕ → ℕ → ℕ → GenesisConfig
only_candidates cs commission blocks = record {
  candidates = cs;
  delegations = [];
  sequencer_commission = commission;
  blocks_per_round = blocks;
}

-- From a storage whose pool and metadata agree, whose candidates have their lists, and in which nothing
-- is selected and there is no snapshot, with a grouping whose metric is within its bounds: the genesis
-- build without delegations, with 2 to (2 ^ 32 - 1) / 3 blocks per round and candidates that have the
-- balance to be locked, where a lock changes no free balance, ends with a value, and leaves the chain
-- in order after block 0.
pub build-IsRunning :
    (T : Config) (G : Grouping.Config) (n commission blocks : ℕ) (cs : List ℕ) (c : Chain T)
    → LocksKeepFree T
    → IsFounded T c.staking
    → HasMetric G c.grouping
    → All (λ a. T.min_candidate_stk ≤ T.free_balance c.staking.ledger a) cs
    → 2 ≤ blocks
    → blocks * 3 ≤ max_u32
    → (t : Storage T) × (build T n (only_candidates cs commission blocks) c.staking ≡ (ok tt, t))
      × IsRunning T G 0 (record c { staking = t })
unfolding build
build-IsRunning T G n commission blocks cs c locks founded metric funds some_blocks fits =
    let (s, e, f) = init_candidates-IsFounded T locks cs 0 c.staking founded funds in
    let u : Storage T = record s { sequencer_commission = commission } in
    let sound : IsSound T u = record {
      agrees = f.agrees;
      lists = f.lists;
      distinct = λ q. rw (f.stakes q) tt;
    } in
    let (counts, t, r, i) = select_top_candidates-IsChosen T n 1 u sound (rw f.selected tt) in
    let chosen : IsSound T t = chosen-IsSound T u t sound 1 i in
    let v : Storage T = record t {
      round = first_round T blocks;
      events = new_round 0 1 counts.sequencer_count ∷ t.events;
    } in
    (
      v,
      ground (arith, some_blocks, e, r),
      to-IsRunning T G 0 (first_round T blocks) (record c { staking = v }) refl
          (first_round-HasPhase T blocks some_blocks fits)
          (record { agrees = chosen.agrees; lists = chosen.lists; distinct = chosen.distinct })
          metric (subst (λ q. AllStaked T q v) (first_serving T blocks some_blocks fits) i.staked),
    )
