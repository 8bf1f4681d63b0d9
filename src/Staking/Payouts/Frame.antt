-- ===== src/Staking/Payouts/Frame.antt =====
-- What a call of `handle_delayed_payouts` in pallets/sequencer-staking/src/lib.rs leaves alone.
use popsicle.Prelude.{
  ℕ, ◌≡◌, ◌≢◌, subst, refl, ap, inl, inr, false, Bool-cases, Option-cases, List-cases, none, some,
  List, ◌∷◌, update, ltb, ◌==◌, saturating_sub, arith,
}
use popsicle.Prelude.Effects.{ok}
use popsicle.Staking.Types.{SequencerSnapshot, DelayedPayout}
use popsicle.Staking.Storage.{Config, Storage}
use popsicle.Staking.Selection.Snapshots.{AreDistinct}
use popsicle.Staking.Payouts
use popsicle.Staking.Payouts.{Perbill, pay_shares, pay_one_sequencer_reward, handle_delayed_payouts}
use popsicle.Staking.Payouts.Shares.{payments, with_purse, shares, pay_shares-shares}
use popsicle.Staking.Payouts.Draining.{sequencer_part, staking_part}

-- Only what belongs to the payout of the round `r` differs.
pub record IsPayoutStep (T : Config) (r : ℕ) (s t : Storage T) : Type 0 where
  pub same : t ≡ record s {
    ledger = t.ledger;
    events = t.events;
    at_stake = t.at_stake;
    delayed_payouts = t.delayed_payouts;
    points = t.points;
    awarded_pts = t.awarded_pts;
  }
  pub stakes : (q : ℕ) → q ≢ r → t.at_stake q ≡ s.at_stake q
  pub distinct : ((q : ℕ) → AreDistinct (s.at_stake q)) → (q : ℕ) → AreDistinct (t.at_stake q)

same-IsPayoutStep : (T : Config) (r : ℕ) (s : Storage T) → IsPayoutStep T r s s
same-IsPayoutStep T r s = record { same = refl; stakes = λ q ne. refl; distinct = λ h. h }

left-AreDistinct :
    (T : Config) (r : ℕ) (s : Storage T) (c : ℕ) (x : SequencerSnapshot)
    (left : List (ℕ × SequencerSnapshot))
    → s.at_stake r ≡ (c, x) ∷ left
    → ((q : ℕ) → AreDistinct (s.at_stake q))
    → (q : ℕ) → AreDistinct (update s.at_stake r left q)
left-AreDistinct T r s c x left e h q = elim (Bool-cases (q == r)) [
  | inl here ↦ rw here ((subst AreDistinct e (h r)).1)
  | inr away ↦ rw away (h q)
]

module _ (P : Perbill) (T : Config) where
  pay_one-IsPayoutStep :
      (r : ℕ) (info : DelayedPayout) (s : Storage T)
      → (x : Payouts.RewardPayment) × (t : Storage T) × (pay_one_sequencer_reward P T r info s
          ≡ (ok x, t))
        × IsPayoutStep T r s t
  unfolding pay_one_sequencer_reward
  pay_one-IsPayoutStep r info s = elim (Bool-cases (s.points r == 0)) [
    | inl none_left ↦ (Payouts.finished, s, ground (arith, none_left), same-IsPayoutStep T r s)
    | inr some_left ↦ elim (List-cases (s.at_stake r)) [
      | inl e ↦ (Payouts.finished, s, ground (arith, some_left, e), same-IsPayoutStep T r s)
      | inr ((c, x), left, e) ↦
          let u : Storage T = record s {
            at_stake = update s.at_stake r left;
            awarded_pts = update s.awarded_pts r (update (s.awarded_pts r) c 0);
          } in
          let step : IsPayoutStep T r s u = record {
            same = refl;
            stakes = λ q ne. ground (arith, ne);
            distinct = λ h. left-AreDistinct T r s c x left e h;
          } in
          elim (Bool-cases (s.awarded_pts r c == 0)) [
            | inl f ↦ (Payouts.skipped, u, ground (arith, some_left, e, f), step)
            | inr f ↦ (
              Payouts.paid,
              with_purse T u (
                  payments T
                    (shares P (P.from_rational (s.awarded_pts r c) (s.points r))
                      (sequencer_part P info) (staking_part P info) c x)
                    (s.ledger, s.events)),
              ground (
                arith,
                some_left,
                e,
                f,
                pay_shares-shares P T (P.from_rational (s.awarded_pts r c) (s.points r))
                    (sequencer_part P info) (staking_part P info) c x u,
              ),
              record { same = refl; stakes = step.stakes; distinct = step.distinct },
            )
          ]
    ]
  ]

  -- what follows the payment of one entry
  finish-IsPayoutStep :
      (now : ℕ) (info : DelayedPayout) (s t : Storage T) (x : Payouts.RewardPayment)
      → let r = saturating_sub now T.reward_payment_delay in
        ltb now T.reward_payment_delay ≡ false
        → s.delayed_payouts r ≡ some info
        → pay_one_sequencer_reward P T r info s ≡ (ok x, t)
        → IsPayoutStep T r s t
        → (u : Storage T) × (handle_delayed_payouts P T now s ≡ (ok tt, u)) × IsPayoutStep T r s u
  unfolding handle_delayed_payouts
  finish-IsPayoutStep now info s t Payouts.paid late e f i = (t, ground (arith, late, e, f), i)
  finish-IsPayoutStep now info s t Payouts.skipped late e f i = (t, ground (arith, late, e, f), i)
  finish-IsPayoutStep now info s t Payouts.finished late e f i =
      let r : ℕ = saturating_sub now T.reward_payment_delay in
      let u : Storage T = record t {
        delayed_payouts = update t.delayed_payouts r none;
        points = update t.points r 0;
      } in
      (
        u,
        ground (arith, late, e, f),
        record {
          same =
              ap
                (λ (v : Storage T). record v {
                  delayed_payouts = u.delayed_payouts;
                  points = u.points;
                })
                i.same;
          stakes = i.stakes;
          distinct = i.distinct;
        },
      )

  -- The call ends with a value, whatever the state is.
  pub handle_delayed_payouts-IsPayoutStep :
      (now : ℕ) (s : Storage T)
      → (t : Storage T) × (handle_delayed_payouts P T now s ≡ (ok tt, t))
        × IsPayoutStep T (saturating_sub now T.reward_payment_delay) s t
  unfolding handle_delayed_payouts
  handle_delayed_payouts-IsPayoutStep now s =
      let r : ℕ = saturating_sub now T.reward_payment_delay in
      elim (Bool-cases (ltb now T.reward_payment_delay)) [
        | inl early ↦ (s, ground (arith, early), same-IsPayoutStep T r s)
        | inr late ↦ elim (Option-cases (s.delayed_payouts r)) [
          | inl e ↦ (s, ground (arith, late, e), same-IsPayoutStep T r s)
          | inr (info, e) ↦
              let (x, t, f, i) = pay_one-IsPayoutStep r info s in
              finish-IsPayoutStep now info s t x late e f i
        ]
      ]
