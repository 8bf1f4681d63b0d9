-- ===== src/Staking/Rounds/Stalled.antt =====
-- A round of pallets/sequencer-staking/src/lib.rs that ends before its snapshot, as
-- `set_blocks_per_round` allows, which leaves the snapshot where it is.
use popsicle.Prelude.{
  ℕ, zero, suc, ◌+◌, ◌≤◌, ◌<◌, ◌≡◌, refl, ap, ◌∙◌, inl, inr, true, false, Bool-cases, max_u32,
  arith,
}
use popsicle.Prelude.Effects.{ok, Action, pure, ◌>>◌}
use popsicle.Grouping
use popsicle.Staking.Types.{RoundInfo, should_update, should_snapshot, next_round}
use popsicle.Staking.Storage
use popsicle.Staking.Storage.{Config, Storage}
use popsicle.Staking.Payouts.{Perbill}
use popsicle.Staking.Rounds.{Chain, on_initialize}
use popsicle.Staking.Rounds.Clock.{
  update_round-HasBegun, update_round-IsPayoutStep, should_update_iff, should_snapshot_iff,
}

-- The hooks of `k` blocks after the block `n`.
unfoldable pub initialize_blocks :
    Perbill → (T : Config) → Grouping.Config → ℕ → ℕ → Action (Chain T) Storage.Error (Unit {0})
initialize_blocks P T G n zero = pure tt
initialize_blocks P T G n (suc k) = on_initialize P T G (suc n) >> initialize_blocks P T G (suc n) k

-- The round is over before its snapshot is taken.
pub record IsCutShort (n : ℕ) (r : RoundInfo) : Type 0 where
  pub begun : r.first ≤ n
  pub undue : n < r.first + r.length
  pub later : 0 < r.snapshot_time_point
  pub short : r.length ≤ r.snapshot_time_point

-- Neither the selection nor the groups have changed.
pub record IsStalled (T : Config) (c d : Chain T) : Type 0 where
  pub selected : d.staking.selected_candidates ≡ c.staking.selected_candidates
  pub grouping : d.grouping ≡ c.grouping

module _ (P : Perbill) (T : Config) (G : Grouping.Config) (n : ℕ) (c : Chain T)
    (h : IsCutShort n c.staking.round) (word : suc n ≤ max_u32) where
  begin-IsStalled :
      should_update c.staking.round (suc n) ≡ true
      → (d : Chain T) × (on_initialize P T G (suc n) c ≡ (ok tt, d))
        × IsStalled T c d
        × IsCutShort (suc n) d.staking.round
  unfolding on_initialize next_round
  begin-IsStalled due =
      let r : RoundInfo = next_round c.staking.round (suc n) in
      let (t, e, same) = update_round-HasBegun P T (suc n) c.staking due in
      let no_snapshot : should_snapshot r (suc n) ≡ false =
        ground (arith, h.later, should_snapshot_iff r (suc n) (omega arith) word) in
      let round : t.round ≡ r = ap (λ (v : Storage T). v.round) same in
      (
        record c { staking = t },
        ground (arith, e, no_snapshot),
        record { selected = ap (λ (v : Storage T). v.selected_candidates) same; grouping = refl },
        rw round (record {
          begun = omega arith;
          undue = omega (arith, h.undue, h.begun);
          later = h.later;
          short = h.short;
        }),
      )

  pay-IsStalled :
      should_update c.staking.round (suc n) ≡ false
      → (d : Chain T) × (on_initialize P T G (suc n) c ≡ (ok tt, d))
        × IsStalled T c d
        × IsCutShort (suc n) d.staking.round
  unfolding on_initialize
  pay-IsStalled early =
      let r : RoundInfo = c.staking.round in
      let (t, e, i) = update_round-IsPayoutStep P T (suc n) c.staking early in
      let undue : suc n < r.first + r.length =
        ground (arith, early, should_update_iff r (suc n) (omega (arith, h.begun)) word) in
      let no_snapshot : should_snapshot r (suc n) ≡ false =
        ground
          (arith, undue, h.short, should_snapshot_iff r (suc n) (omega (arith, h.begun)) word) in
      let round : t.round ≡ r = ap (λ (v : Storage T). v.round) i.same in
      (
        record c { staking = t },
        ground (arith, e, no_snapshot),
        record { selected = ap (λ (v : Storage T). v.selected_candidates) i.same; grouping = refl },
        rw round (record {
          begun = omega (arith, h.begun);
          undue = undue;
          later = h.later;
          short = h.short;
        }),
      )

-- Where the length of the current round is at most its snapshot time point, which is not 0: however
-- many blocks follow, below 2 ^ 32, their hooks end with a value, but the selected sequencers and the
-- whole state of the grouping stay as they are, through all later rounds.
pub initialize_blocks-IsStalled :
    (P : Perbill) (T : Config) (G : Grouping.Config) (n k : ℕ) (c : Chain T)
    → IsCutShort n c.staking.round
    → n + k ≤ max_u32
    → (d : Chain T) × (initialize_blocks P T G n k c ≡ (ok tt, d)) × IsStalled T c d
unfolding initialize_blocks
initialize_blocks-IsStalled P T G n zero c h word =
    (c, refl, record { selected = refl; grouping = refl })
initialize_blocks-IsStalled P T G n (suc k) c h word =
    let (d, e, i, g) : (d : Chain T) × (on_initialize P T G (suc n) c ≡ (ok tt, d))
        × IsStalled T c d
        × IsCutShort (suc n) d.staking.round =
      elim (Bool-cases (should_update c.staking.round (suc n))) [
        | inl due ↦ begin-IsStalled P T G n c h (omega arith) due
        | inr early ↦ pay-IsStalled P T G n c h (omega arith) early
      ] in
    let (f, r, j) = initialize_blocks-IsStalled P T G (suc n) k d g (omega arith) in
    (
      f,
      ground (arith, e, r),
      record { selected = j.selected ∙ i.selected; grouping = j.grouping ∙ i.grouping },
    )
