-- ===== src/Staking/Sample.antt =====
-- A small configuration of pallets/sequencer-staking, and a candidate with full lists.
use popsicle.Prelude.{
  ℕ, ◌+◌, ◌-◌, inr, refl, false, [], ◌∷◌, Option, none, some, update, ltb, if◌then◌else◌, arith,
}
use popsicle.Staking.Types.{
  Bond, bond_key, Delegations, Delegator, CandidateMetadata, CapacityStatus, SequencerStatus,
  DelegatorStatus, default_round,
}
use popsicle.Staking.Storage.{Config, Storage}
use popsicle.Staking.Set.{contains, from}
use popsicle.Staking.Set.Laws.{IsOrdered}
use popsicle.Staking.Pool.Laws.{IsListed}
use popsicle.Staking.Candidate.Kick.{IsKickable}
use popsicle.Staking.Candidate.Invariant.{HasBounds, IsBook}
use popsicle.Staking.Candidate.Adding.{CanMakeRoom}

-- balances of one asset and one currency, without locks
abbrev pub pay : ℕ → ℕ → ℕ → (ℕ → ℕ) → Option (ℕ → ℕ)
pay from to amount balances =
    if ltb (balances from) amount
    then none
    else some (
        let less = update balances from (balances from - amount) in
        update less to (less to + amount))

abbrev pub small_config : Config
small_config = record {
  Ledger = ℕ → ℕ;
  reducible_balance = λ l who. l who;
  transfer = pay;
  free_balance = λ l who. l who;
  set_lock = λ who amount l. l;
  remove_lock = λ who l. l;
  transfer_native = pay;
  transfer_keep_alive = pay;
  key_before = ltb;
  account_id = 0;
  min_blocks_per_round = 3;
  max_offline_rounds = 2;
  leave_candidates_delay = 2;
  candidate_bond_less_delay = 2;
  revoke_delegation_delay = 2;
  delegation_bond_less_delay = 2;
  reward_payment_delay = 2;
  max_top_delegations_per_candidate = 2;
  max_bottom_delegations_per_candidate = 2;
  max_delegations_per_delegator = 4;
  min_candidate_stk = 10;
  min_delegation = 3;
  round_reward = 100;
  max_candidates = 3;
}

abbrev pub bond : ℕ → ℕ → Bond
bond owner amount = record { owner = owner; amount = amount }

abbrev pub full_top : Delegations
full_top = record { delegations = bond 10 30 ∷ bond 11 20 ∷ []; total = 50 }

abbrev pub full_bottom : Delegations
full_bottom = record { delegations = bond 12 20 ∷ bond 13 5 ∷ []; total = 25 }

abbrev pub packed : CandidateMetadata
packed = record {
  bond = 100;
  delegation_count = 4;
  total_counted = 150;
  lowest_top_delegation_amount = 20;
  highest_bottom_delegation_amount = 20;
  lowest_bottom_delegation_amount = 5;
  top_capacity = CapacityStatus.full;
  bottom_capacity = CapacityStatus.full;
  request = none;
  status = SequencerStatus.active;
}

abbrev pub lowest_delegator : Delegator
lowest_delegator = record {
  id = 13;
  delegations = bond 1 5 ∷ bond 2 9 ∷ [];
  total = 14;
  less_total = 0;
  status = DelegatorStatus.active;
}

abbrev pub staked : Storage small_config
staked = record {
  sequencer_commission = 0;
  round = default_round;
  delegator_state = update (λ _. none) 13 (some lowest_delegator);
  candidate_info = update (λ _. none) 1 (some packed);
  delegation_scheduled_requests = λ _. [];
  top_delegations = update (λ _. none) 1 (some full_top);
  bottom_delegations = update (λ _. none) 1 (some full_bottom);
  selected_candidates = 1 ∷ [];
  total = 175;
  candidate_pool = bond 1 150 ∷ bond 2 60 ∷ [];
  at_stake = λ _. [];
  delayed_payouts = λ _. none;
  points = λ _. 0;
  awarded_pts = λ _ _. 0;
  enable_marking_offline = false;
  events = [];
  ledger = λ _. 1000;
}

pub two_candidates : IsOrdered bond_key (bond 1 150 ∷ bond 2 60 ∷ [])
two_candidates = ((omega arith, tt), (tt, tt))

pub is_listed : IsListed small_config 1 staked.candidate_pool
unfolding contains
is_listed = record { ordered = two_candidates; bounded = omega arith; member = refl }

pub has_bounds : HasBounds small_config
has_bounds = record { top_pos = omega arith; bottom_pos = omega arith; fits = omega arith }

pub is_book : IsBook small_config 1 packed staked full_top full_bottom
is_book = record {
  has_top = refl;
  has_bottom = refl;
  split = record {
    top_sorted = ((omega arith, tt), (tt, tt));
    bottom_sorted = ((omega arith, tt), (tt, tt));
    top_fits = omega arith;
    bottom_fits = omega arith;
    top_total = refl;
    spill = inr refl;
    layered = (omega arith, (omega arith, tt));
  };
  caches = record {
    lowest_top = refl;
    top_cap = refl;
    counted = refl;
    lowest_bottom = refl;
    highest_bottom = refl;
    bottom_cap = refl;
    count = refl;
  };
  listed = λ e. is_listed;
}

is_kickable : IsKickable small_config 1 staked (bond 13 5)
is_kickable = record {
  state = lowest_delegator;
  has_state = refl;
  amount = 5;
  has_amount = refl;
  ledger = _;
  pays = refl;
}

pub can_make_room : CanMakeRoom small_config 1 staked full_bottom
can_make_room e = (bond 13 5, refl, is_kickable)
