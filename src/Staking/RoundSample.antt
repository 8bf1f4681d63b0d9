-- ===== src/Staking/RoundSample.antt =====
-- A small chain of pallets/sequencer-staking with a past round to pay, and the arithmetic of sp_arithmetic
-- on parts of a billion.
use popsicle.Prelude.{
  ◌+◌, ◌-◌, ◌*◌, ◌/◌, inl, inr, true, Bool-cases, [], ◌∷◌, some, update, ◌==◌, if◌then◌else◌, arith,
}
use native.Mathlib.Nat.{div-mul-le_self}
use popsicle.Grouping
use popsicle.Staking.Types.{SequencerSnapshot, DelayedPayout}
use popsicle.Staking.Storage.{Storage}
use popsicle.Staking.Calls.Enrolment.{Agrees}
use popsicle.Staking.Selection.Choosing.{HasLists}
use popsicle.Staking.Payouts.{Perbill}
use popsicle.Staking.Payouts.Bounds.{billion, PerbillLaws}
use popsicle.Staking.Rounds.{Chain}
use popsicle.Staking.Sample.{small_config, full_top, packed, staked, two_candidates}

-- A ratio rounded down, a product to the nearest, of two the lower.
abbrev pub rounded : Perbill
rounded = record {
  from_rational = λ p q. if q == 0 then 0 else p * billion / q;
  times = λ a x. (2 * (a * x) + (billion - 1)) / (2 * billion);
}

pub rounded-PerbillLaws : PerbillLaws rounded
rounded-PerbillLaws = record {
  ratio = λ p q. ground (arith, div-mul-le_self (p * billion) q);
  nearest = λ a x. omega (arith, div-mul-le_self (2 * (a * x) + (billion - 1)) (2 * billion));
}

abbrev pub stake_of_one : SequencerSnapshot
stake_of_one = record { bond = 100; delegations = full_top.delegations; total = 150 }

-- Both listed candidates with metadata and top lists; candidate 1 is selected for round 1.
abbrev pub ranked : Storage small_config
ranked = record staked {
  candidate_info = update staked.candidate_info 2 (some (record packed { total_counted = 60 }));
  top_delegations = update staked.top_delegations 2 (some full_top);
  at_stake = update (λ _. []) 1 ((1, stake_of_one) ∷ []);
  enable_marking_offline = true;
}

pub ranked-Agrees : Agrees small_config ranked
ranked-Agrees = record {
  ordered = two_candidates;
  bounded = omega arith;
  agrees = λ c. ground arith;
}

pub ranked-HasLists : HasLists small_config ranked
ranked-HasLists c m e = elim (Bool-cases (c == 2)) [
  | inl two ↦ (full_top, ground (arith, two))
  | inr other ↦ elim (Bool-cases (c == 1)) [
    | inl one ↦ (full_top, ground (arith, one))
    | inr none ↦ ground (arith, e, other, none)
  ]
]

abbrev pub group_config : Grouping.Config
group_config = record { max_group_size = 4; max_group_number = 4; max_running_app = 3 }

-- one sequencer for each of two groups
abbrev pub pairs : Grouping.Storage
pairs = record {
  group_members = [];
  next_round = record { starting_block = 0; round_index = 0 };
  group_size = 1;
  group_number = 2;
  processor_info =
      record { account = 70; ip_address = 10 ∷ []; groups = [] }
      ∷ record { account = 71; ip_address = 11 ∷ []; groups = [] }
      ∷ [];
  events = [];
  parent_hash_byte = 7;
}

abbrev pub chain : Chain small_config
chain = record { staking = ranked; grouping = pairs }

abbrev pub payout : DelayedPayout
payout = record { total_staking_reward = 100; sequencer_commission = 200000000 }
