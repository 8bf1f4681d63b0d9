-- ===== src/Staking/Payouts/Rewards.antt =====
-- The rewards that the payout of a round in pallets/sequencer-staking/src/lib.rs announces.
use popsicle.Prelude.{
  ℕ, ◌+◌, ◌*◌, ◌≤◌, ◌<◌, ◌≡◌, inl, inr, ap, Option-cases, List, [], ◌∷◌, length, saturating_sub,
  arith,
}
use popsicle.Prelude.Effects.{ok}
use popsicle.Staking.Types.{SequencerSnapshot, DelayedPayout}
use popsicle.Staking.Storage.{Config, Storage, Event, rewarded}
use popsicle.Staking.Payouts.{Perbill}
use popsicle.Staking.Payouts.Shares.{payments}
use popsicle.Staking.Payouts.Draining.{handle_times, round_shares, IsPaying, handle_times-IsPaidOut}
use popsicle.Staking.Payouts.Bounds.{
  billion, PerbillLaws, amounts, points_of, roundings, AreBacked, amounts-round_shares,
}

-- The rewards among the events.
abbrev reward_of : Event → ℕ
reward_of (rewarded who amount) = amount
reward_of _ = 0

unfoldable pub rewards : List Event → ℕ
rewards [] = 0
rewards (e ∷ es) = reward_of e + rewards es

rewards-payments :
    (T : Config) (xs : List (ℕ × ℕ)) (w : T.Ledger × List Event)
    → rewards (payments T xs w).1 ≤ rewards w.1 + amounts xs
unfolding payments rewards
rewards-payments T [] w = omega arith
rewards-payments T (x ∷ xs) w = elim (Option-cases (T.transfer_native T.account_id x.1 x.0 w.0)) [
  | inl e ↦ ground (arith, e, rewards-payments T xs w)
  | inr (l, e) ↦ ground (arith, e, rewards-payments T xs (l, rewarded x.1 x.0 ∷ w.1))
]

-- While the payout of the round `now - RewardPaymentDelay` is under way, with a commission of at most
-- the whole, no more points at its `k` snapshots than in total, and snapshots whose bond and
-- delegations make up their totals: any `n > k` calls of `handle_delayed_payouts` end with a value, and
-- the rewards that they announce are at most the reward of the round and half a unit for each
-- rounding, one for each recipient and two more for each snapshot. A `Perbill` ratio is taken to be
-- rounded down, a product to the nearest number.
pub handle_times-rewards :
    (P : Perbill) (T : Config) (r : ℕ) (info : DelayedPayout) (total now : ℕ)
    (es : List (ℕ × SequencerSnapshot)) (n : ℕ) (s : Storage T)
    → PerbillLaws P
    → T.reward_payment_delay ≤ now
    → saturating_sub now T.reward_payment_delay ≡ r
    → 0 < total
    → IsPaying P T r info total es s
    → length es < n
    → info.sequencer_commission ≤ billion
    → points_of (s.awarded_pts r) es ≤ total
    → AreBacked es
    → (t : Storage T) × (handle_times P T now n s ≡ (ok tt, t))
      × (2 * rewards t.events ≤ 2 * rewards s.events + 2 * info.total_staking_reward + roundings es)
handle_times-rewards P T r info total now es n s laws due round pos paying lt le enough backed =
    let (t, e, i) = handle_times-IsPaidOut P T r info total now es n s due round pos paying lt in
    let pays : List (ℕ × ℕ) = round_shares P info total (s.awarded_pts r) es in
    let events : t.events ≡ (payments T pays (s.ledger, s.events)).1 =
      ap (λ (w : T.Ledger × List Event). w.1) i.purse in
    (
      t,
      e,
      rw events (
          omega (
            arith,
            rewards-payments T pays (s.ledger, s.events),
            amounts-round_shares P info total (s.awarded_pts r) es laws le pos enough backed,
          )),
    )
