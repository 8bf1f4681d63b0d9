-- ===== src/Staking/Rounds/Clock.antt =====
-- The first half of `on_initialize` in pallets/sequencer-staking/src/lib.rs: a round begins, or a past
-- one is paid.
use popsicle.Prelude.{
  ℕ, ◌+◌, ◌≤◌, ◌≡◌, refl, inl, inr, true, false, Bool-cases, some, ◌∷◌, length, update,
  saturating_sub, sub_u32, leb, ◌==◌, max_u32, arith,
}
use popsicle.Prelude.Effects.{ok}
use popsicle.Staking.Types.{RoundInfo, should_update, should_snapshot, next_round}
use popsicle.Staking.Storage.{Config, Storage, new_round}
use popsicle.Staking.Payouts.{Perbill, prepare_staking_payouts}
use popsicle.Staking.Payouts.Frame.{IsPayoutStep, handle_delayed_payouts-IsPayoutStep}
use popsicle.Staking.Rounds.{begin_round, update_round}

-- A round has begun: nothing else differs but the payout that is prepared, and the events.
abbrev pub HasBegun : (T : Config) → ℕ → Storage T → Storage T → Type 0
HasBegun T n s t = t ≡ record s {
  round = next_round s.round n;
  delayed_payouts = t.delayed_payouts;
  events = t.events;
}

module _ (P : Perbill) (T : Config) (n : ℕ) (s : Storage T) where
  pub update_round-HasBegun :
      should_update s.round n ≡ true
      → (t : Storage T) × (update_round P T n s ≡ (ok (next_round s.round n), t)) × HasBegun T n s t
  unfolding update_round begin_round prepare_staking_payouts
  update_round-HasBegun due =
      let next : RoundInfo = next_round s.round n in
      let ended : ℕ = sub_u32 next.current 1 in
      let begun : Storage T = record s {
        round = next;
        events = new_round next.first next.current (length s.selected_candidates) ∷ s.events;
      } in
      elim (Bool-cases (s.points ended == 0)) [
        | inl e ↦ (begun, ground (arith, due, e), refl)
        | inr e ↦ (
          record begun {
            delayed_payouts = update s.delayed_payouts ended (
                some (record {
                  total_staking_reward = T.round_reward;
                  sequencer_commission = s.sequencer_commission;
                }));
          },
          ground (arith, due, e),
          refl,
        )
      ]

  pub update_round-IsPayoutStep :
      should_update s.round n ≡ false
      → (t : Storage T) × (update_round P T n s ≡ (ok s.round, t))
        × IsPayoutStep T (saturating_sub s.round.current T.reward_payment_delay) s t
  unfolding update_round
  update_round-IsPayoutStep early =
      let (t, e, i) = handle_delayed_payouts-IsPayoutStep P T s.round.current s in
      (t, ground (arith, early, e), i)

-- The tests on a block number that the round has reached.
pub should_update_iff :
    (r : RoundInfo) (n : ℕ)
    → r.first ≤ n
    → n ≤ max_u32
    → should_update r n ≡ leb (r.first + r.length) n
unfolding should_update
should_update_iff r n begun word = ground (arith, begun, word)

pub should_snapshot_iff :
    (r : RoundInfo) (n : ℕ)
    → r.first ≤ n
    → n ≤ max_u32
    → should_snapshot r n ≡ (n == r.first + r.snapshot_time_point)
unfolding should_snapshot
should_snapshot_iff r n begun word = ground (arith, begun, word)
