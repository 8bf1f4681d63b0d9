-- ===== src/Staking/Payouts/Bounds.antt =====
-- How much a payout in pallets/sequencer-staking/src/lib.rs pays.
use popsicle.Prelude.{
  ℕ, ◌+◌, ◌-◌, ◌*◌, ◌≤◌, ◌<◌, ◌≡◌, inl, inr, Bool-cases, List-cases, List, [], ◌∷◌, ◌++◌, length,
  saturating_sub, ◌==◌, arith,
}
use native.Mathlib.Nat.{add-mul, mul-add, mul-le-mul_right, le_of_mul-le-mul_right}
use popsicle.Staking.Types.{Bond, SequencerSnapshot, DelayedPayout}
use popsicle.Staking.Delegations.Sums.{sum}
use popsicle.Staking.Payouts.{Perbill}
use popsicle.Staking.Payouts.Shares.{dues, shares}
use popsicle.Staking.Payouts.Draining.{sequencer_part, staking_part, entry_shares, round_shares}

abbrev pub billion : ℕ
billion = 1000000000

-- What sp_arithmetic documents of a `Perbill`: a ratio is rounded down, and a product is rounded to
-- the nearest number.
pub record PerbillLaws (P : Perbill) : Type 0 where
  pub ratio : (p q : ℕ) → P.from_rational p q * q ≤ p * billion
  pub nearest : (a x : ℕ) → 2 * billion * P.times a x ≤ 2 * (a * x) + billion

abbrev pub amounts : List (ℕ × ℕ) → ℕ
amounts [] = 0
amounts (x ∷ xs) = x.0 + amounts xs

-- the points of the entries, and the recipients with two roundings more for each entry
abbrev pub points_of : (ℕ → ℕ) → List (ℕ × SequencerSnapshot) → ℕ
points_of pts [] = 0
points_of pts (e ∷ es) = pts e.0 + points_of pts es

abbrev pub roundings : List (ℕ × SequencerSnapshot) → ℕ
roundings [] = 0
roundings (e ∷ es) = length e.1.delegations + 3 + roundings es

abbrev pub AreBacked : List (ℕ × SequencerSnapshot) → Type 0
AreBacked [] = Unit
AreBacked (e ∷ es) = (e.1.bond + sum e.1.delegations ≡ e.1.total) × (0 < e.1.total) × AreBacked es

module _ (P : Perbill) (h : PerbillLaws P) where
  abbrev parts : ℕ → List Bond → ℕ
  parts total [] = 0
  parts total (b ∷ bs) = P.from_rational b.amount total + parts total bs

  parts-le : (total : ℕ) (bs : List Bond) → parts total bs * total ≤ sum bs * billion
  parts-le total [] = omega arith
  parts-le total (b ∷ bs) = omega (
    arith,
    parts-le total bs,
    h.ratio b.amount total,
    add-mul (P.from_rational b.amount total) (parts total bs) total,
  )

  amounts-dues :
      (amt total : ℕ) (bs : List Bond)
      → 2 * billion * amounts (dues P amt total bs)
        ≤ 2 * (parts total bs * amt) + length bs * billion
  amounts-dues amt total [] = omega arith
  amounts-dues amt total (b ∷ bs) = ground (
    arith,
    amounts-dues amt total bs,
    h.nearest (P.from_rational b.amount total) amt,
    add-mul (P.from_rational b.amount total) (parts total bs) amt,
  )

  -- The bond of the sequencer and the delegations make up the total of the snapshot.
  parts-billion :
      (x : SequencerSnapshot)
      → x.bond + sum x.delegations ≡ x.total
      → 0 < x.total
      → P.from_rational x.bond x.total + parts x.total x.delegations ≤ billion
  parts-billion x whole pos =
      le_of_mul-le-mul_right {k = x.total}
        (omega (
          arith,
          parts-le x.total x.delegations,
          h.ratio x.bond x.total,
          whole,
          add-mul (P.from_rational x.bond x.total) (parts x.total x.delegations) x.total,
        ))
        pos

  -- The shares of an amount add up to it, but for half a unit for each recipient.
  amounts-split :
      (x : SequencerSnapshot) (amt : ℕ)
      → x.bond + sum x.delegations ≡ x.total
      → 0 < x.total
      → 2
          * (P.times (P.from_rational x.bond x.total) amt
              + amounts (dues P amt x.total x.delegations))
        ≤ 2 * amt + (length x.delegations + 1)
  amounts-split x amt whole pos = omega (
    arith,
    amounts-dues amt x.total x.delegations,
    h.nearest (P.from_rational x.bond x.total) amt,
    add-mul (P.from_rational x.bond x.total) (parts x.total x.delegations) amt,
    mul-le-mul_right amt (parts-billion x whole pos),
  )

  -- A sequencer and its delegators together are paid the larger of the sequencer's part of the
  -- staking reward and its commission, and no more, but for half a unit for each of them.
  pub amounts-shares :
      (pct si st c : ℕ) (x : SequencerSnapshot)
      → x.bond + sum x.delegations ≡ x.total
      → 0 < x.total
      → let commission = P.times pct si in
        2 * amounts (shares P pct si st c x)
        ≤ 2 * (commission + (P.times pct st - commission)) + (length x.delegations + 1)
  amounts-shares pct si st c x whole pos = elim (List-cases x.delegations) [
    | inl e ↦ ground (arith, e)
    | inr (d, ds, e) ↦
        let amt : ℕ = saturating_sub (P.times pct st) (P.times pct si) in
        ground (arith, e, amounts-split x amt whole pos)
  ]

  amounts-append : (xs ys : List (ℕ × ℕ)) → amounts (xs ++ ys) ≡ amounts xs + amounts ys
  amounts-append [] ys = omega arith
  amounts-append (x ∷ xs) ys = omega (arith, amounts-append xs ys)

  entry-le :
      (info : DelayedPayout) (total : ℕ) (pts : ℕ → ℕ) (c : ℕ) (x : SequencerSnapshot)
      → x.bond + sum x.delegations ≡ x.total
      → 0 < x.total
      → 2 * billion * amounts (entry_shares P info total pts (c, x))
        ≤ 2 * (P.from_rational (pts c) total * (sequencer_part P info + staking_part P info))
          + (length x.delegations + 3) * billion
  entry-le info total pts c x whole pos =
      let pct : ℕ = P.from_rational (pts c) total in
      elim (Bool-cases (pts c == 0)) [
        | inl e ↦ ground (arith, e)
        | inr e ↦ ground (
          arith,
          e,
          amounts-shares pct (sequencer_part P info) (staking_part P info) c x whole pos,
          h.nearest pct (sequencer_part P info),
          h.nearest pct (staking_part P info),
          mul-add pct (sequencer_part P info) (staking_part P info),
        )
      ]

  abbrev ratios : ℕ → (ℕ → ℕ) → List (ℕ × SequencerSnapshot) → ℕ
  ratios total pts [] = 0
  ratios total pts (e ∷ es) = P.from_rational (pts e.0) total + ratios total pts es

  ratios-le :
      (total : ℕ) (pts : ℕ → ℕ) (es : List (ℕ × SequencerSnapshot))
      → ratios total pts es * total ≤ points_of pts es * billion
  ratios-le total pts [] = omega arith
  ratios-le total pts (e ∷ es) = omega (
    arith,
    ratios-le total pts es,
    h.ratio (pts e.0) total,
    add-mul (P.from_rational (pts e.0) total) (ratios total pts es) total,
  )

  entries-le :
      (info : DelayedPayout) (total : ℕ) (pts : ℕ → ℕ) (es : List (ℕ × SequencerSnapshot))
      → AreBacked es
      → 2 * billion * amounts (round_shares P info total pts es)
        ≤ 2 * (ratios total pts es * (sequencer_part P info + staking_part P info))
          + roundings es * billion
  entries-le info total pts [] b = omega arith
  entries-le info total pts ((c, x) ∷ es) b = omega (
    arith,
    entry-le info total pts c x b.0 b.1,
    entries-le info total pts es b.2,
    amounts-append (entry_shares P info total pts (c, x)) (round_shares P info total pts es),
    add-mul (P.from_rational (pts c) total) (ratios total pts es)
        (sequencer_part P info + staking_part P info),
  )

  parts-reward :
      (info : DelayedPayout)
      → info.sequencer_commission ≤ billion
      → sequencer_part P info + staking_part P info ≡ info.total_staking_reward
  parts-reward info le = omega (
    arith,
    h.nearest info.sequencer_commission info.total_staking_reward,
    mul-le-mul_right info.total_staking_reward le,
  )

-- With a commission of at most the whole, no more points at the entries than in total, and snapshots
-- whose bond and delegations make up their total: what a round pays is at most its reward and half a
-- unit for each rounding, which are one for each recipient and two more for each entry.
pub amounts-round_shares :
    (P : Perbill) (info : DelayedPayout) (total : ℕ) (pts : ℕ → ℕ)
    (es : List (ℕ × SequencerSnapshot))
    → PerbillLaws P
    → info.sequencer_commission ≤ billion
    → 0 < total
    → points_of pts es ≤ total
    → AreBacked es
    → 2 * amounts (round_shares P info total pts es) ≤ 2 * info.total_staking_reward + roundings es
amounts-round_shares P info total pts es h le pos enough b =
    let whole : ratios P h total pts es ≤ billion =
      le_of_mul-le-mul_right {k = total} (omega (arith, ratios-le P h total pts es, enough)) pos in
    omega (
      arith,
      entries-le P h info total pts es b,
      parts-reward P h info le,
      mul-le-mul_right (sequencer_part P info + staking_part P info) whole,
    )
