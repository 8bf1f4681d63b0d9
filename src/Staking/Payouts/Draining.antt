-- ===== src/Staking/Payouts/Draining.antt =====
-- A round of pallets/sequencer-staking/src/lib.rs is paid out one sequencer a block, until nothing is
-- left of it.
use popsicle.Prelude.{
  ℕ, zero, suc, ◌≤◌, ◌<◌, ◌≡◌, ◌≢◌, refl, inl, inr, Bool-cases, Option-cases, none, some, List, [],
  ◌∷◌, ◌++◌, length, update, ◌==◌, ==_self, ==_iff, saturating_sub, if◌then◌else◌, arith,
}
use popsicle.Prelude.Effects.{ok, pure, ◌>>◌}
use popsicle.Staking.Types.{SequencerSnapshot, DelayedPayout}
use popsicle.Staking.Storage.{Config, Storage, Call}
use popsicle.Staking.Selection.{stake_of}
use popsicle.Staking.Selection.Snapshots.{AreDistinct}
use popsicle.Staking.Payouts.{Perbill, pay_one_sequencer_reward, handle_delayed_payouts}
use popsicle.Staking.Payouts.Shares.{payments, payments-append, shares, pay_shares-shares}

module _ (P : Perbill) where
  -- The two parts of the reward of a round.
  abbrev pub sequencer_part : DelayedPayout → ℕ
  sequencer_part info = P.times info.sequencer_commission info.total_staking_reward

  abbrev pub staking_part : DelayedPayout → ℕ
  staking_part info = saturating_sub info.total_staking_reward (sequencer_part info)

  -- What one entry of the round is paid: nothing without points.
  abbrev pub entry_shares : DelayedPayout → ℕ → (ℕ → ℕ) → ℕ × SequencerSnapshot → List (ℕ × ℕ)
  entry_shares info total pts e =
      if pts e.0 == 0
      then []
      else shares P (P.from_rational (pts e.0) total) (sequencer_part info) (staking_part info) e.0
          e.1

  -- What the round is paid, entry by entry.
  abbrev pub round_shares :
      DelayedPayout → ℕ → (ℕ → ℕ) → List (ℕ × SequencerSnapshot) → List (ℕ × ℕ)
  round_shares info total pts [] = []
  round_shares info total pts (e ∷ es) =
      entry_shares info total pts e ++ round_shares info total pts es

  round_shares-taken :
      (info : DelayedPayout) (total : ℕ) (pts : ℕ → ℕ) (c : ℕ) (es : List (ℕ × SequencerSnapshot))
      → stake_of c es ≡ none
      → round_shares info total (update pts c 0) es ≡ round_shares info total pts es
  round_shares-taken info total pts c [] h = refl
  round_shares-taken info total pts c (e ∷ es) h =
      ground (arith, round_shares-taken info total pts c es, Bool-cases (e.0 == c), h)

  -- The calls of `n` blocks of the same round.
  unfoldable pub handle_times : (T : Config) → ℕ → ℕ → Call T (Unit {0})
  handle_times T now zero = pure tt
  handle_times T now (suc n) = handle_delayed_payouts P T now >> handle_times T now n

module _ (P : Perbill) (T : Config) (r : ℕ) (info : DelayedPayout) (total : ℕ) where
  -- The payout of the round `r` is under way.
  pub record IsPaying (es : List (ℕ × SequencerSnapshot)) (s : Storage T) : Type 0 where
    pub delayed : s.delayed_payouts r ≡ some info
    pub points : s.points r ≡ total
    pub stakes : s.at_stake r ≡ es
    pub distinct : AreDistinct es

  -- Nothing is left of the round, and its shares are paid; the other rounds are as before.
  pub record IsPaidOut (es : List (ℕ × SequencerSnapshot)) (s t : Storage T) : Type 0 where
    pub purse :
        (t.ledger, t.events)
        ≡ payments T (round_shares P info total (s.awarded_pts r) es) (s.ledger, s.events)
    pub stakes : t.at_stake r ≡ []
    pub delayed : t.delayed_payouts r ≡ none
    pub points : t.points r ≡ 0
    pub taken : (c : ℕ) → stake_of c es ≢ none → t.awarded_pts r c ≡ 0
    pub kept : (c : ℕ) → stake_of c es ≡ none → t.awarded_pts r c ≡ s.awarded_pts r c
    pub others :
        (q : ℕ)
        → q ≢ r
        → (t.at_stake q ≡ s.at_stake q)
          × (t.delayed_payouts q ≡ s.delayed_payouts q)
          × (t.points q ≡ s.points q)
          × ((c : ℕ) → t.awarded_pts q c ≡ s.awarded_pts q c)
    pub rest : t ≡ record s {
      ledger = t.ledger;
      events = t.events;
      at_stake = t.at_stake;
      delayed_payouts = t.delayed_payouts;
      points = t.points;
      awarded_pts = t.awarded_pts;
    }

  -- the storage after the payment to the first entry
  abbrev after_entry : ℕ → SequencerSnapshot → List (ℕ × SequencerSnapshot) → Storage T → Storage T
  after_entry c x left s =
      let w =
        payments T (entry_shares P info total (s.awarded_pts r) (c, x)) (s.ledger, s.events) in
      record s {
        at_stake = update s.at_stake r left;
        awarded_pts = update s.awarded_pts r (update (s.awarded_pts r) c 0);
        ledger = w.0;
        events = w.1;
      }

  module _ (now : ℕ) (due : T.reward_payment_delay ≤ now)
      (round : saturating_sub now T.reward_payment_delay ≡ r) (positive : 0 < total) where
    handle_entry :
        (c : ℕ) (x : SequencerSnapshot) (left : List (ℕ × SequencerSnapshot)) (s : Storage T)
        → IsPaying ((c, x) ∷ left) s
        → handle_delayed_payouts P T now s ≡ (ok tt, after_entry c x left s)
    unfolding handle_delayed_payouts pay_one_sequencer_reward payments
    handle_entry c x left s h = elim (Bool-cases (s.awarded_pts r c == 0)) [
      | inl e ↦ ground (arith, due, round, positive, h.delayed, h.points, h.stakes, e)
      | inr e ↦ ground (
        arith,
        due,
        round,
        positive,
        h.delayed,
        h.points,
        h.stakes,
        e,
        pay_shares-shares P T (P.from_rational (s.awarded_pts r c) total) (sequencer_part P info)
            (staking_part P info) c x
            (record s {
              at_stake = update s.at_stake r left;
              awarded_pts = update s.awarded_pts r (update (s.awarded_pts r) c 0);
            }),
      )
    ]

    handle_last :
        (s : Storage T)
        → IsPaying [] s
        → handle_delayed_payouts P T now s ≡ (
          ok tt,
          record s {
            delayed_payouts = update s.delayed_payouts r none;
            points = update s.points r 0;
          },
        )
    unfolding handle_delayed_payouts pay_one_sequencer_reward
    handle_last s h = ground (arith, due, round, positive, h.delayed, h.points, h.stakes)

    -- what is left is still being paid
    still-IsPaying :
        (c : ℕ) (x : SequencerSnapshot) (left : List (ℕ × SequencerSnapshot)) (s : Storage T)
        → IsPaying ((c, x) ∷ left) s
        → IsPaying left (after_entry c x left s)
    still-IsPaying c x left s h = record {
      delayed = h.delayed;
      points = h.points;
      stakes = ground (arith, ==_self r);
      distinct = h.distinct.1;
    }

    entry_then :
        (c : ℕ) (x : SequencerSnapshot) (left : List (ℕ × SequencerSnapshot)) (s t : Storage T)
        → IsPaying ((c, x) ∷ left) s
        → IsPaidOut left (after_entry c x left s) t
        → IsPaidOut ((c, x) ∷ left) s t
    entry_then c x left s t h i = record {
      purse = ground (
        arith,
        i.purse,
        ==_self r,
        round_shares-taken P info total (s.awarded_pts r) c left h.distinct.0,
        payments-append T (entry_shares P info total (s.awarded_pts r) (c, x))
            (round_shares P info total (s.awarded_pts r) left) (s.ledger, s.events),
      );
      stakes = i.stakes;
      delayed = i.delayed;
      points = i.points;
      taken = λ d e. elim (Option-cases (stake_of d left)) [
        | inl gone ↦ elim (Bool-cases (c == d)) [
          | inl here ↦ ground (arith, i.kept d gone, ==_self r, here, ==_iff c d)
          | inr away ↦ absurd (e (ground (arith, gone, away)))
        ]
        | inr (y, f) ↦ i.taken d (λ g. ground (arith, f, g))
      ];
      kept = λ d e. ground (arith, i.kept d (ground (arith, e)), ==_self r, e);
      others = λ q ne.
          let o = i.others q ne in
          (ground (arith, o.0, ne), o.1, o.2, λ d. ground (arith, o.3 d, ne));
      rest = i.rest;
    }

    -- Once nothing is left, the calls do nothing.
    handle_times-idle :
        (n : ℕ) (s : Storage T) → s.delayed_payouts r ≡ none → handle_times P T now n s ≡ (ok tt, s)
    unfolding handle_times handle_delayed_payouts
    handle_times-idle zero s h = refl
    handle_times-idle (suc n) s h = ground (arith, due, round, h, handle_times-idle n s h)

    abbrev cleaned : Storage T → Storage T
    cleaned s = record s {
      delayed_payouts = update s.delayed_payouts r none;
      points = update s.points r 0;
    }

    cleaned-IsPaidOut : (s : Storage T) → IsPaying [] s → IsPaidOut [] s (cleaned s)
    unfolding payments
    cleaned-IsPaidOut s h = record {
      purse = refl;
      stakes = h.stakes;
      delayed = ground (arith, ==_self r);
      points = ground (arith, ==_self r);
      taken = λ c e. absurd (e refl);
      kept = λ c e. refl;
      others = λ q ne. (refl, ground (arith, ne), ground (arith, ne), λ c. refl);
      rest = refl;
    }

-- While the payout of the round `now - RewardPaymentDelay` is under way, with points in total, no
-- account twice among its `k` snapshots: after any `n > k` calls of `handle_delayed_payouts` nothing
-- is left of the snapshots, of the payout and of the points of that round. The ledger and the events
-- are as after paying, entry by entry, each sequencer with points and its delegators, once. The
-- points of each sequencer with a snapshot are 0; no other round and nothing else has changed.
pub handle_times-IsPaidOut :
    (P : Perbill) (T : Config) (r : ℕ) (info : DelayedPayout) (total now : ℕ)
    (es : List (ℕ × SequencerSnapshot)) (n : ℕ) (s : Storage T)
    → T.reward_payment_delay ≤ now
    → saturating_sub now T.reward_payment_delay ≡ r
    → 0 < total
    → IsPaying P T r info total es s
    → length es < n
    → (t : Storage T) × (handle_times P T now n s ≡ (ok tt, t)) × IsPaidOut P T r info total es s t
unfolding handle_times
handle_times-IsPaidOut P T r info total now [] zero s due round positive h lt =
    let bad : zero ≡ suc zero = omega arith in cc
handle_times-IsPaidOut P T r info total now [] (suc n) s due round positive h lt =
    let u : Storage T = record s {
      delayed_payouts = update s.delayed_payouts r none;
      points = update s.points r 0;
    } in
    (
      u,
      ground (
        arith,
        handle_last P T r info total now due round positive s h,
        handle_times-idle P T r info total now due round positive n u (ground (arith, ==_self r)),
      ),
      cleaned-IsPaidOut P T r info total now due round positive s h,
    )
handle_times-IsPaidOut P T r info total now (e ∷ left) zero s due round positive h lt =
    let bad : zero ≡ suc zero = omega arith in cc
handle_times-IsPaidOut P T r info total now ((c, x) ∷ left) (suc n) s due round positive h lt =
    let u : Storage T = after_entry P T r info total c x left s in
    let (t, e, i) =
      handle_times-IsPaidOut P T r info total now left n u due round positive
        (still-IsPaying P T r info total now due round positive c x left s h) (omega arith) in
    (
      t,
      ground (arith, handle_entry P T r info total now due round positive c x left s h, e),
      entry_then P T r info total now due round positive c x left s t h i,
    )
