-- ===== src/Staking/RoundExamples.antt =====
-- Concrete rounds of pallets/sequencer-staking: selection, payout, inactivity, genesis.
use popsicle.Prelude.{
  ℕ, ◌+◌, ◌*◌, ◌≤◌, ◌<◌, ◌≡◌, inl, inr, refl, Bool-cases, List, [], ◌∷◌, none, some, update, ◌==◌,
  arith,
}
use popsicle.Prelude.Effects.{ok, err}
use popsicle.Prelude.Origin.{signed}
use popsicle.Staking.Types.{SequencerSnapshot, default_round}
use popsicle.Staking.Storage.{Storage, cannot_be_notified_as_inactive}
use popsicle.Staking.Delegations.Sums.{sum}
use popsicle.Staking.Selection.{Selected, owners, requested_action, select_top_candidates}
use popsicle.Staking.Selection.Snapshots.{AreDistinct, snapshot_at}
use popsicle.Staking.Selection.Choosing.{IsSelected, select_top_candidates-IsSelected}
use popsicle.Staking.Selection.Backing.{snapshot_at-sum}
use popsicle.Staking.Payouts.Draining.{handle_times, IsPaying, IsPaidOut, handle_times-IsPaidOut}
use popsicle.Staking.Payouts.Bounds.{points_of, roundings}
use popsicle.Staking.Payouts.Rewards.{rewards, handle_times-rewards}
use popsicle.Staking.Rounds.{
  Chain, on_initialize, at_snapshot, notify_inactive_sequencer, award_points_to_sequencer,
}
use popsicle.Staking.Rounds.Safety.{IsRunning}
use popsicle.Staking.Rounds.Blocks.{start, block, on_initialize-History}
use popsicle.Staking.Rounds.Snapshot.{IsGrouped, at_snapshot-IsGrouped}
use popsicle.Staking.Rounds.Stalled.{initialize_blocks, IsStalled, initialize_blocks-IsStalled}
use popsicle.Staking.Rounds.Points.{AreCounted, award_points_to_sequencer-AreCounted}
use popsicle.Staking.Rounds.Inactivity.{IsInactive, GoneOffline, notify_inactive_sequencer_decides}
use popsicle.Staking.Genesis.{build}
use popsicle.Staking.Genesis.Founding.{IsFounded, only_candidates, build-IsRunning}
use popsicle.Staking.Sample.{small_config, packed, staked, full_top, full_bottom, is_book}
use popsicle.Staking.RoundSample.{
  rounded, rounded-PerbillLaws, stake_of_one, ranked, ranked-Agrees, ranked-HasLists, group_config,
  chain, payout,
}

one_entry-AreDistinct : (q : ℕ) → AreDistinct (ranked.at_stake q)
one_entry-AreDistinct q = elim (Bool-cases (q == 1)) [
  | inl here ↦ rw here (refl, tt)
  | inr away ↦ rw away tt
]

is_running : IsRunning small_config group_config 15 chain
is_running = record {
  sound = record {
    agrees = ranked-Agrees;
    lists = ranked-HasLists;
    distinct = one_entry-AreDistinct;
  };
  metric = record {
    size = omega arith;
    number = omega arith;
    number_word = omega arith;
    word = omega arith;
  };
  numbered = omega arith;
  paced = omega arith;
  begun = omega arith;
  undue = omega arith;
  later = omega arith;
  sooner = omega arith;
  staked = (λ e. cc, tt);
}

-- the block of the snapshot
abbrev chain_16 : Chain small_config
chain_16 = (on_initialize rounded small_config group_config 16 chain).1

on_initialize-History_example :
    (e : Chain small_config) × (on_initialize rounded small_config group_config 17 chain_16
      ≡ (ok tt, e))
    × IsRunning small_config group_config 17 e
on_initialize-History_example =
    on_initialize-History rounded small_config group_config 15 16 chain chain_16 is_running
      (omega arith) (block start) (omega arith)

at_snapshot-IsGrouped_example :
    (d : Chain small_config) × (at_snapshot small_config group_config default_round chain
      ≡ (ok tt, d))
    × IsGrouped small_config default_round chain d
at_snapshot-IsGrouped_example =
    at_snapshot-IsGrouped small_config group_config default_round chain ranked-Agrees
      ranked-HasLists
      (record {
        size = omega arith;
        number = omega arith;
        word = omega arith;
        number_word = omega arith;
        some_size = omega arith;
        some_number = omega arith;
        some_processor = omega arith;
        places = omega arith;
      })
      (omega arith)

select_top_candidates-IsSelected_example :
    (counts : Selected) × (t : Storage small_config) × (select_top_candidates small_config 1 2
        ranked
      ≡ (ok counts, t))
    × IsSelected small_config 1 2 ranked t counts
select_top_candidates-IsSelected_example =
    select_top_candidates-IsSelected small_config 1 2 ranked ranked-Agrees ranked-HasLists
      (omega arith) (omega arith)

snapshot_at-sum_example :
    let x = snapshot_at small_config staked packed full_top 1 in
    (x.bond + sum x.delegations ≡ x.total) × (owners x.delegations ≡ owners full_top.delegations)
snapshot_at-sum_example =
    snapshot_at-sum small_config 1 packed staked full_top full_bottom is_book
      (unfold requested_action in (tt, (tt, tt))) (omega arith)

-- Round 1 is to be paid: candidate 1 has all 20 points.
abbrev twenty : ℕ → ℕ
twenty = update (λ _. 0) 1 20

abbrev owing : Storage small_config
owing = record ranked {
  points = update (λ _. 0) 1 20;
  awarded_pts = update (λ _ _. 0) 1 twenty;
  delayed_payouts = update (λ _. none) 1 (some payout);
}

is_paying : IsPaying rounded small_config 1 payout 20 ((1, stake_of_one) ∷ []) owing
is_paying = record { delayed = refl; points = refl; stakes = refl; distinct = (refl, tt) }

handle_times-IsPaidOut_example :
    (t : Storage small_config) × (handle_times rounded small_config 3 2 owing ≡ (ok tt, t))
    × IsPaidOut rounded small_config 1 payout 20 ((1, stake_of_one) ∷ []) owing t
handle_times-IsPaidOut_example =
    handle_times-IsPaidOut rounded small_config 1 payout 20 3 ((1, stake_of_one) ∷ []) 2 owing
      (omega arith) refl (omega arith) is_paying (omega arith)

handle_times-rewards_example :
    (t : Storage small_config) × (handle_times rounded small_config 3 2 owing ≡ (ok tt, t))
    × (2 * rewards t.events
        ≤ 2 * rewards owing.events
          + 2 * payout.total_staking_reward
          + roundings ((1, stake_of_one) ∷ []))
handle_times-rewards_example =
    handle_times-rewards rounded small_config 1 payout 20 3 ((1, stake_of_one) ∷ []) 2 owing
      rounded-PerbillLaws (omega arith) refl (omega arith) is_paying (omega arith) (omega arith)
      (omega arith) (refl, omega arith, tt)

-- The round has been cut to 10 blocks; its snapshot would be at the 15th.
abbrev cut_chain : Chain small_config
cut_chain = record chain {
  staking = record ranked { round = record default_round { length = 10 } };
}

initialize_blocks-IsStalled_example :
    (d : Chain small_config) × (initialize_blocks rounded small_config group_config 3 1000 cut_chain
      ≡ (ok tt, d))
    × IsStalled small_config cut_chain d
initialize_blocks-IsStalled_example =
    initialize_blocks-IsStalled rounded small_config group_config 3 1000 cut_chain
      (record {
        begun = omega arith;
        undue = omega arith;
        later = omega arith;
        short = omega arith;
      })
      (omega arith)

points_of-zero : (es : List (ℕ × SequencerSnapshot)) → points_of (λ _. 0) es ≡ 0
points_of-zero [] = refl
points_of-zero (e ∷ es) = omega (arith, points_of-zero es)

ranked-AreCounted : (q : ℕ) → AreCounted small_config q ranked
ranked-AreCounted q es d = omega (arith, points_of-zero es)

award_points_to_sequencer-AreCounted_example :
    let (r, t) = award_points_to_sequencer small_config 1 20 ranked in
    (r ≡ ok tt) × ((q : ℕ) → AreCounted small_config q t)
award_points_to_sequencer-AreCounted_example =
    award_points_to_sequencer-AreCounted small_config 1 20 ranked ranked-AreCounted (omega arith)

-- Round 3 has begun.
abbrev third : Storage small_config
third = record ranked { round = record default_round { current = 3 } }

notify_inactive_sequencer_decides_example :
    let (r, t) = notify_inactive_sequencer small_config 1 (signed 9) 1 third in
    (((q : ℕ) → 1 ≤ q → q < 3 → IsInactive small_config third 1 q)
      → (r ≡ ok tt) × GoneOffline small_config 1 third t)
    × ((q : ℕ)
        → 1 ≤ q
        → q < 3
        → ¬ (IsInactive small_config third 1 q)
        → (r ≡ err cannot_be_notified_as_inactive) × (t ≡ third))
notify_inactive_sequencer_decides_example =
    notify_inactive_sequencer_decides small_config 1 9 1 third
      (record { enabled = refl; enough = omega arith; few = omega arith; late = omega arith })

-- nobody has joined yet
abbrev unfounded : Chain small_config
unfounded = record chain {
  staking = record staked {
    candidate_info = λ _. none;
    candidate_pool = [];
    selected_candidates = [];
  };
}

is_founded : IsFounded small_config unfounded.staking
is_founded = record {
  agrees = record { ordered = tt; bounded = omega arith; agrees = λ c. refl };
  lists = λ c m e. cc;
  stakes = λ q. refl;
  selected = refl;
}

build-IsRunning_example :
    (t : Storage small_config) × (build small_config 2
        (only_candidates (1 ∷ 2 ∷ []) 0 20)
        unfounded.staking
      ≡ (ok tt, t))
    × IsRunning small_config group_config 0 (record unfounded { staking = t })
build-IsRunning_example =
    build-IsRunning small_config group_config 2 0 20 (1 ∷ 2 ∷ []) unfounded (λ l who amount c. refl)
      is_founded is_running.metric (omega arith, (omega arith, tt)) (omega arith) (omega arith)
