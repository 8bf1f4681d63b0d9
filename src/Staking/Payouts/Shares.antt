-- ===== src/Staking/Payouts/Shares.antt =====
-- What a payout in pallets/sequencer-staking/src/lib.rs pays, as a list of amounts and recipients.
use popsicle.Prelude.{
  ℕ, ◌≡◌, refl, inl, inr, Bool-cases, Option-cases, List-cases, none, some, List, [], ◌∷◌, ◌++◌,
  saturating_add, saturating_sub, ◌==◌, if◌then◌else◌, arith,
}
use popsicle.Prelude.Effects.{ok}
use popsicle.Staking.Types.{Bond, SequencerSnapshot}
use popsicle.Staking.Storage
use popsicle.Staking.Storage.{Config, Storage, Call, rewarded}
use popsicle.Staking.Payouts.{
  Perbill, payout_reward, payout_sequencer_reward, pay_delegators, pay_shares,
}

-- The ledger and the events after one payment from the pallet's account, and after several.
module _ (T : Config) where
  abbrev pub pay_to : ℕ × ℕ → T.Ledger × List Storage.Event → T.Ledger × List Storage.Event
  pay_to x w = elim (T.transfer_native T.account_id x.1 x.0 w.0) [
    | none ↦ w
    | some l ↦ (l, rewarded x.1 x.0 ∷ w.1)
  ]

  unfoldable pub payments :
      List (ℕ × ℕ) → T.Ledger × List Storage.Event → T.Ledger × List Storage.Event
  payments [] w = w
  payments (x ∷ xs) w = payments xs (pay_to x w)

  pub payments-append :
      (xs ys : List (ℕ × ℕ)) (w : T.Ledger × List Storage.Event)
      → payments (xs ++ ys) w ≡ payments ys (payments xs w)
  unfolding payments
  payments-append [] ys w = refl
  payments-append (x ∷ xs) ys w = payments-append xs ys (pay_to x w)

  -- A storage with another ledger and other events.
  abbrev pub with_purse : Storage T → T.Ledger × List Storage.Event → Storage T
  with_purse s w = record s { ledger = w.0; events = w.1 }

  payout_reward-pay_to :
      (amt who : ℕ) (s : Storage T)
      → payout_reward T amt who s ≡ (ok tt, with_purse s (pay_to (amt, who) (s.ledger, s.events)))
  unfolding payout_reward
  payout_reward-pay_to amt who s =
      ground (arith, Option-cases (T.transfer_native T.account_id who amt s.ledger))

module _ (P : Perbill) where
  -- the dues of the delegators, without those that are zero
  abbrev pub dues : ℕ → ℕ → List Bond → List (ℕ × ℕ)
  dues amt_due total [] = []
  dues amt_due total (b ∷ bs) =
      let due = P.times (P.from_rational b.amount total) amt_due in
      let rest = dues amt_due total bs in if due == 0 then rest else (due, b.owner) ∷ rest

  -- What a sequencer with points and its delegators are paid.
  abbrev pub shares : ℕ → ℕ → ℕ → ℕ → SequencerSnapshot → List (ℕ × ℕ)
  shares pct_due sequencer_issuance staking_issuance sequencer x =
      let total_paid = P.times pct_due staking_issuance in
      elim x.delegations [
        | [] ↦ (total_paid, sequencer) ∷ []
        | d ∷ ds ↦
            let commission = P.times pct_due sequencer_issuance in
            let amt_due = saturating_sub total_paid commission in
            (
              saturating_add (P.times (P.from_rational x.bond x.total) amt_due) commission,
              sequencer,
            )
            ∷ dues amt_due x.total (d ∷ ds)
      ]

  pay_delegators-dues :
      (T : Config) (amt_due total : ℕ) (bs : List Bond) (s : Storage T)
      → pay_delegators P T amt_due total bs s
        ≡ (ok tt, with_purse T s (payments T (dues amt_due total bs) (s.ledger, s.events)))
  unfolding pay_delegators payments
  pay_delegators-dues T amt_due total [] s = refl
  pay_delegators-dues T amt_due total (b ∷ bs) s =
      let due : ℕ = P.times (P.from_rational b.amount total) amt_due in
      elim (Bool-cases (due == 0)) [
        | inl e ↦ rw e (pay_delegators-dues T amt_due total bs s)
        | inr e ↦ ground (
          arith,
          e,
          payout_reward-pay_to T due b.owner s,
          pay_delegators-dues T amt_due total bs
              (with_purse T s (pay_to T (due, b.owner) (s.ledger, s.events))),
        )
      ]

  pub pay_shares-shares :
      (T : Config) (pct si st sequencer : ℕ) (x : SequencerSnapshot) (s : Storage T)
      → pay_shares P T pct si st sequencer x s
        ≡ (ok tt, with_purse T s (payments T (shares pct si st sequencer x) (s.ledger, s.events)))
  unfolding pay_shares payout_sequencer_reward payments
  pay_shares-shares T pct si st sequencer x s = elim (List-cases x.delegations) [
    | inl e ↦ ground (arith, e, payout_reward-pay_to T (P.times pct st) sequencer s)
    | inr (d, ds, e) ↦
        let amt : ℕ = saturating_sub (P.times pct st) (P.times pct si) in
        let own : ℕ =
          saturating_add (P.times (P.from_rational x.bond x.total) amt) (P.times pct si) in
        ground (
          arith,
          e,
          payout_reward-pay_to T own sequencer s,
          pay_delegators-dues T amt x.total (d ∷ ds)
              (with_purse T s (pay_to T (own, sequencer) (s.ledger, s.events))),
        )
  ]
