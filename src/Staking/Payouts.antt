-- ===== src/Staking/Payouts.antt =====
-- The payout of a past round in pallets/sequencer-staking/src/lib.rs, with the default
-- `PayoutSequencerReward` of src/traits.rs: one sequencer a block. The arithmetic of `Perbill` is that
-- of sp_arithmetic: it is a parameter.
pub mod Shares
pub mod Draining
pub mod Bounds
pub mod Frame
pub mod Rewards
use popsicle.Prelude.{
  ℕ, Bool, true, false, ◌-◌, Option, none, some, List, [], ◌∷◌, update, saturating_add,
  saturating_sub, sub_u32, ltb, ◌==◌, if◌then◌else◌, uncons,
}
use popsicle.Prelude.Effects.{ok, pure, gets, modify, ◌>>=◌, ◌>>◌}
use popsicle.Staking.Types.{Bond, SequencerSnapshot, DelayedPayout, RoundInfo}
use popsicle.Staking.Storage.{Config, Storage, Call, rewarded}

-- A `Perbill` is the number of its parts.
pub record Perbill : Type 0 where
  -- `Perbill::from_rational`
  pub from_rational : ℕ → ℕ → ℕ
  -- `Perbill * balance`
  pub times : ℕ → ℕ → ℕ

pub data RewardPayment : Type 0 where
  paid skipped finished : RewardPayment

-- `payout_reward`: a transfer that fails is passed over.
unfoldable pub payout_reward : (T : Config) → ℕ → ℕ → Call T (Unit {0})
payout_reward T amt who s = elim (T.transfer_native T.account_id who amt s.ledger) [
  | none ↦ (ok tt, s)
  | some l ↦ (ok tt, record s { ledger = l; events = rewarded who amt ∷ s.events })
]

-- `payout_sequencer_reward` of the unit type
unfoldable pub payout_sequencer_reward : (T : Config) → ℕ → ℕ → Call T (Unit {0})
unfolding payout_reward
payout_sequencer_reward T sequencer amount = payout_reward T amount sequencer

-- `prepare_staking_payouts`, with the round that has begun
unfoldable pub prepare_staking_payouts : (T : Config) → RoundInfo → Call T (Unit {0})
prepare_staking_payouts T round_info = do
  let round = sub_u32 round_info.current 1
  s ← gets (λ (s : Storage T). s)
  if s.points round == 0
      then pure tt
      else modify (λ s. record s {
        delayed_payouts = update s.delayed_payouts round (
            some (record {
              total_staking_reward = T.round_reward;
              sequencer_commission = s.sequencer_commission;
            }));
      })

module _ (P : Perbill) (T : Config) where
  -- the loop over the delegations of a snapshot
  unfoldable pub pay_delegators : ℕ → ℕ → List Bond → Call T (Unit {0})
  unfolding payout_reward
  pay_delegators amt_due total [] = pure tt
  pay_delegators amt_due total (b ∷ bs) =
      let due = P.times (P.from_rational b.amount total) amt_due in
      let others = pay_delegators amt_due total bs in
      if due == 0 then others else payout_reward T due b.owner >> others

  -- the payment to a sequencer with points, and to those who delegate to it
  unfoldable pub pay_shares : ℕ → ℕ → ℕ → ℕ → SequencerSnapshot → Call T (Unit {0})
  unfolding pay_delegators payout_sequencer_reward
  pay_shares pct_due sequencer_issuance staking_issuance sequencer state =
      let total_paid = P.times pct_due staking_issuance in
      elim state.delegations [
        | [] ↦ payout_sequencer_reward T sequencer total_paid
        | d ∷ ds ↦
            let sequencer_pct = P.from_rational state.bond state.total in
            let commission = P.times pct_due sequencer_issuance in
            let amt_due = saturating_sub total_paid commission in
            payout_sequencer_reward T sequencer
              (saturating_add (P.times sequencer_pct amt_due) commission)
            >> pay_delegators amt_due state.total (d ∷ ds)
      ]

  -- the sequencer's entry is gone from `AtStake` and `AwardedPts`
  abbrev take_entry : ℕ → ℕ → List (ℕ × SequencerSnapshot) → Call T (Unit {0})
  take_entry round sequencer left = modify λ s. record s {
    at_stake = update s.at_stake round left;
    awarded_pts = update s.awarded_pts round (update (s.awarded_pts round) sequencer 0);
  }

  -- `pay_one_sequencer_reward`
  unfoldable pub pay_one_sequencer_reward : ℕ → DelayedPayout → Call T RewardPayment
  unfolding pay_shares
  pay_one_sequencer_reward round payout_info = do
    s ← gets (λ (s : Storage T). s)
    let total_points = s.points round
    if total_points == 0
        then pure finished
        else (let sequencer_issuance =
              P.times payout_info.sequencer_commission payout_info.total_staking_reward in
            let staking_issuance =
              saturating_sub payout_info.total_staking_reward sequencer_issuance in
            elim (s.at_stake round) [
              | [] ↦ pure finished
              | x ∷ left ↦ do
                let pts = s.awarded_pts round x.0
                take_entry round x.0 left
                if pts == 0 then pure skipped else do
                  pay_shares (P.from_rational pts total_points) sequencer_issuance staking_issuance
                      x.0 x.1
                  pure paid
            ])

  -- `handle_delayed_payouts`
  unfoldable pub handle_delayed_payouts : ℕ → Call T (Unit {0})
  unfolding pay_one_sequencer_reward
  handle_delayed_payouts now = if ltb now T.reward_payment_delay then pure tt else do
    let round = saturating_sub now T.reward_payment_delay
    s ← gets (λ (s : Storage T). s)
    elim (s.delayed_payouts round) [
      | none ↦ pure tt
      | some payout_info ↦ do
        result ← pay_one_sequencer_reward round payout_info
        elim result [
          | paid ↦ pure tt
          | skipped ↦ pure tt
          | finished ↦ modify (λ s. record s {
            delayed_payouts = update s.delayed_payouts round none;
            points = update s.points round 0;
          })
        ]
    ]
