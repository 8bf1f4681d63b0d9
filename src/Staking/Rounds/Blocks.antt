-- ===== src/Staking/Rounds/Blocks.antt =====
-- Any history of blocks in pallets/sequencer-staking/src/lib.rs, with other calls between them.
use popsicle.Prelude.{ℕ, suc, ◌+◌, ◌≤◌, ◌<◌, ◌≡◌, inl, inr, Bool-cases, max_u32, arith}
use popsicle.Prelude.Effects.{ok}
use popsicle.Grouping
use popsicle.Grouping.{trigger_group, total_selected}
use popsicle.Grouping.Trigger.{HasMetric}
use popsicle.Staking.Types.{should_update, should_snapshot}
use popsicle.Staking.Storage.{Config}
use popsicle.Staking.Payouts.{Perbill}
use popsicle.Staking.Rounds.{Chain, on_initialize}
use popsicle.Staking.Rounds.Sound.{IsSound}
use popsicle.Staking.Rounds.Safety.{IsRunning, to-IsRunning, begin_step, idle_step, select_step}

-- A block with the next number, or other calls, which keep what the selection relies on and touch
-- neither the rounds nor the snapshots nor the selection.
pub data History (P : Perbill) (T : Config) (G : Grouping.Config) (n : ℕ) (c : Chain T)
    : ℕ → Chain T → Type 0 where
  start : History P T G n c n c
  block :
      {m : ℕ} {d : Chain T}
      → History P T G n c m d
      → History P T G n c (suc m) (on_initialize P T G (suc m) d).1
  calls :
      {m : ℕ} {d : Chain T} (e : Chain T)
      → History P T G n c m d
      → IsSound T e.staking
      → HasMetric G e.grouping
      → e.staking.round ≡ d.staking.round
      → e.staking.at_stake ≡ d.staking.at_stake
      → e.staking.selected_candidates ≡ d.staking.selected_candidates
      → History P T G n c m e

on_initialize-IsRunning :
    (P : Perbill) (T : Config) (G : Grouping.Config) (n : ℕ) (c : Chain T)
    → IsRunning T G n c
    → n + 3 ≤ max_u32
    → 0 < T.reward_payment_delay
    → (d : Chain T) × (on_initialize P T G (suc n) c ≡ (ok tt, d)) × IsRunning T G (suc n) d
on_initialize-IsRunning P T G n c h fits delay =
    let word : suc n ≤ max_u32 = omega arith in
    let number : c.staking.round.current + 2 ≤ max_u32 = omega (arith, h.paced) in
    elim (Bool-cases (should_update c.staking.round (suc n))) [
      | inl due ↦ begin_step P T G n c h word number delay due
      | inr early ↦ elim (Bool-cases (should_snapshot c.staking.round (suc n))) [
        | inl snapshot ↦ select_step P T G n c h word number delay early snapshot
        | inr no_snapshot ↦ idle_step P T G n c h word number delay early no_snapshot
      ]
    ]

-- Other calls keep the invariant.
calls-IsRunning :
    (T : Config) (G : Grouping.Config) (m : ℕ) (d e : Chain T)
    → IsRunning T G m d
    → IsSound T e.staking
    → HasMetric G e.grouping
    → e.staking.round ≡ d.staking.round
    → e.staking.at_stake ≡ d.staking.at_stake
    → e.staking.selected_candidates ≡ d.staking.selected_candidates
    → IsRunning T G m e
calls-IsRunning T G m d e h sound metric p q r =
    to-IsRunning T G m d.staking.round e p
      (record {
        numbered = h.numbered;
        paced = h.paced;
        begun = h.begun;
        undue = h.undue;
        later = h.later;
        sooner = h.sooner;
      })
      sound metric (rw (q, r) h.staked)

History-ge :
    (P : Perbill) (T : Config) (G : Grouping.Config) (n : ℕ) (c : Chain T) {m : ℕ} {d : Chain T}
    → History P T G n c m d
    → n ≤ m
History-ge P T G n c start = omega arith
History-ge P T G n c (block h) = omega (arith, History-ge P T G n c h)
History-ge P T G n c (calls e h _ _ _ _ _) = History-ge P T G n c h

History-IsRunning :
    (P : Perbill) (T : Config) (G : Grouping.Config) (n : ℕ) (c : Chain T) {m : ℕ} {d : Chain T}
    → IsRunning T G n c
    → 0 < T.reward_payment_delay
    → m + 2 ≤ max_u32
    → History P T G n c m d
    → IsRunning T G m d
History-IsRunning P T G n c h delay fits start = h
History-IsRunning P T G n c h delay fits (block {m} {d} r) =
    let (e, f, i) =
      on_initialize-IsRunning P T G m d
        (History-IsRunning P T G n c h delay (omega (arith, fits)) r) (omega (arith, fits)) delay in
    rw f i
History-IsRunning P T G n c h delay fits (calls {m} {d} e r sound metric p q k) =
    calls-IsRunning T G m d e (History-IsRunning P T G n c h delay fits r) sound metric p q k

-- From a state after the block `n` in which the round, its selection before its end, the snapshots of
-- the selected sequencers, the pool with its metadata and the metric are in order, with a positive
-- payment delay: every history of blocks, with other calls between them that keep the pool, the
-- lists and the metric in order and touch neither rounds nor snapshots nor selection, is followed by
-- a block whose `on_initialize` ends with a value, as long as block numbers stay below 2 ^ 32 - 3;
-- and after it the state is again in order.
pub on_initialize-History :
    (P : Perbill) (T : Config) (G : Grouping.Config) (n m : ℕ) (c d : Chain T)
    → IsRunning T G n c
    → 0 < T.reward_payment_delay
    → History P T G n c m d
    → m + 3 ≤ max_u32
    → (e : Chain T) × (on_initialize P T G (suc m) d ≡ (ok tt, e)) × IsRunning T G (suc m) e
on_initialize-History P T G n m c d h delay r fits =
    on_initialize-IsRunning P T G m d (History-IsRunning P T G n c h delay (omega (arith, fits)) r)
      fits delay
