-- ===== src/Staking/Rounds/Safety.antt =====
-- One block of pallets/sequencer-staking/src/lib.rs: its hook ends with a value, and leaves the rounds in
-- order.
use popsicle.Prelude.{
  ℕ, suc, ◌+◌, ◌-◌, ◌≤◌, ◌<◌, ◌≡◌, sym, ap, subst, ◌∙◌, inl, inr, true, false, ◌∷◌, ltb,
  saturating_sub, saturating_add_u32, max_u32, if◌then◌else◌, arith,
}
use popsicle.Prelude.Effects.{ok, Outcome, Outcome-cases}
use popsicle.Grouping
use popsicle.Grouping.{trigger_group, total_selected}
use popsicle.Grouping.Trigger.{HasMetric, trigger_group-IsHarmless}
use popsicle.Staking.Types.{RoundInfo, should_update, should_snapshot, next_round}
use popsicle.Staking.Storage.{Config, Storage, candidates_selected}
use popsicle.Staking.Payouts.{Perbill}
use popsicle.Staking.Rounds.{Chain, select_for_next, group_selected, at_snapshot, on_initialize}
use popsicle.Staking.Rounds.Clock.{
  update_round-HasBegun, update_round-IsPayoutStep, should_update_iff, should_snapshot_iff,
}
use popsicle.Staking.Rounds.Sound.{
  AllStaked, IsSound, chosen-round, paid-round, begun-IsSound, paid-IsSound, chosen-IsSound,
  paid-AllStaked, select_top_candidates-IsChosen,
}

-- The round in which the selected sequencers serve, once the block `n` is over.
abbrev pub serving : ℕ → RoundInfo → ℕ
serving n r = if ltb n (r.first + r.snapshot_time_point) then r.current else suc r.current

-- After the block `n`, within a round whose selection comes before its end.
pub record IsRunning (T : Config) (G : Grouping.Config) (n : ℕ) (c : Chain T) : Type 0 where
  pub sound : IsSound T c.staking
  pub metric : HasMetric G c.grouping
  pub numbered : 0 < c.staking.round.current
  pub paced : c.staking.round.current ≤ suc n
  pub begun : c.staking.round.first ≤ n
  pub undue : n < c.staking.round.first + c.staking.round.length
  pub later : 0 < c.staking.round.snapshot_time_point
  pub sooner : c.staking.round.snapshot_time_point < c.staking.round.length
  pub staked : AllStaked T (serving n c.staking.round) c.staking

-- The conditions on the round, apart from the storage that holds it.
pub record HasPhase (n : ℕ) (r : RoundInfo) : Type 0 where
  pub numbered : 0 < r.current
  pub paced : r.current ≤ suc n
  pub begun : r.first ≤ n
  pub undue : n < r.first + r.length
  pub later : 0 < r.snapshot_time_point
  pub sooner : r.snapshot_time_point < r.length

pub to-IsRunning :
    (T : Config) (G : Grouping.Config) (n : ℕ) (r : RoundInfo) (d : Chain T)
    → d.staking.round ≡ r
    → HasPhase n r
    → IsSound T d.staking
    → HasMetric G d.grouping
    → AllStaked T (serving n r) d.staking
    → IsRunning T G n d
to-IsRunning T G n r d e p sound metric staked = record {
  sound = sound;
  metric = metric;
  numbered = rw e p.numbered;
  paced = rw e p.paced;
  begun = rw e p.begun;
  undue = rw e p.undue;
  later = rw e p.later;
  sooner = rw e p.sooner;
  staked = rw e staked;
}

-- The call of the grouping pallet, whatever comes of it.
group_selected_ok :
    (T : Config) (G : Grouping.Config) (r : RoundInfo) (d : Chain T)
    → HasMetric G d.grouping
    → (g : Grouping.Storage) × (group_selected T G r d ≡ (ok tt, record d { grouping = g }))
      × HasMetric G g
unfolding group_selected
group_selected_ok T G r d m =
    let block : ℕ = saturating_add_u32 r.first r.length in
    let next : ℕ = saturating_add_u32 r.current 1 in
    let out : Outcome Grouping.Error (Unit {0}) × Grouping.Storage =
      trigger_group G d.staking.selected_candidates block next d.grouping in
    let harmless =
      trigger_group-IsHarmless G d.grouping d.staking.selected_candidates block next m in
    (
      out.1,
      elim (Outcome-cases out.0) [
        | inl (a, e) ↦ ground (arith, e)
        | inr (inl (x, e)) ↦ ground (arith, e)
        | inr (inr e) ↦ absurd (harmless.0 e)
      ],
      record {
        size = rw harmless.1 m.size;
        number = rw harmless.2 m.number;
        number_word = rw harmless.2 m.number_word;
        word = rw (harmless.1, harmless.2) m.word;
      },
    )

module _ (P : Perbill) (T : Config) (G : Grouping.Config) (n : ℕ) (c : Chain T)
    (h : IsRunning T G n c) (word : suc n ≤ max_u32)
    (number : c.staking.round.current + 2 ≤ max_u32) (delay : 0 < T.reward_payment_delay) where
  serves_on :
      should_update c.staking.round (suc n) ≡ true
      → serving n c.staking.round ≡ serving (suc n) (next_round c.staking.round (suc n))
  unfolding next_round
  serves_on due = ground (
    arith,
    due,
    should_update_iff c.staking.round (suc n) (omega (arith, h.begun)) word,
    h.later,
    h.sooner,
    number,
  )

  -- A round begins.
  pub begin_step :
      should_update c.staking.round (suc n) ≡ true
      → (d : Chain T) × (on_initialize P T G (suc n) c ≡ (ok tt, d)) × IsRunning T G (suc n) d
  unfolding on_initialize next_round
  begin_step due =
      let r : RoundInfo = c.staking.round in
      let (t, e, same) = update_round-HasBegun P T (suc n) c.staking due in
      let no_snapshot : should_snapshot (next_round r (suc n)) (suc n) ≡ false =
        ground
          (arith, h.later, should_snapshot_iff (next_round r (suc n)) (suc n) (omega arith) word) in
      (
        record c { staking = t },
        ground (arith, e, no_snapshot),
        to-IsRunning T G (suc n) (next_round r (suc n)) (record c { staking = t })
            (ap (λ (v : Storage T). v.round) same)
            (record {
              numbered = omega arith;
              paced = omega (arith, h.paced);
              begun = omega arith;
              undue = omega (arith, h.later, h.sooner);
              later = h.later;
              sooner = h.sooner;
            })
            (begun-IsSound T c.staking t h.sound (suc n) same) h.metric
            (subst (AllStaked T (serving (suc n) (next_round r (suc n)))) (sym same)
              (subst (λ q. AllStaked T q c.staking) (serves_on due) h.staked)),
      )

  still : should_update c.staking.round (suc n) ≡ false → HasPhase (suc n) c.staking.round
  still early = record {
    numbered = h.numbered;
    paced = omega (arith, h.paced);
    begun = omega (arith, h.begun);
    undue =
        ground
          (arith, early, should_update_iff c.staking.round (suc n) (omega (arith, h.begun)) word);
    later = h.later;
    sooner = h.sooner;
  }

  serves_still :
      should_update c.staking.round (suc n) ≡ false
      → should_snapshot c.staking.round (suc n) ≡ false
      → serving n c.staking.round ≡ serving (suc n) c.staking.round
  serves_still early no_snapshot = ground (
    arith,
    no_snapshot,
    should_snapshot_iff c.staking.round (suc n) (omega (arith, h.begun)) word,
  )

  -- No selection is due at this block.
  pub idle_step :
      should_update c.staking.round (suc n) ≡ false
      → should_snapshot c.staking.round (suc n) ≡ false
      → (d : Chain T) × (on_initialize P T G (suc n) c ≡ (ok tt, d)) × IsRunning T G (suc n) d
  unfolding on_initialize
  idle_step early no_snapshot =
      let (t, e, i) = update_round-IsPayoutStep P T (suc n) c.staking early in
      (
        record c { staking = t },
        ground (arith, e, no_snapshot),
        to-IsRunning T G (suc n) c.staking.round (record c { staking = t })
            (ap (λ (v : Storage T). v.round) i.same) (still early)
            (paid-IsSound T c.staking t h.sound
              (saturating_sub c.staking.round.current T.reward_payment_delay) i)
            h.metric
            (paid-AllStaked T (saturating_sub c.staking.round.current T.reward_payment_delay)
              (serving (suc n) c.staking.round) c.staking t i (ground (arith, h.numbered, delay))
              (subst (λ q. AllStaked T q c.staking) (serves_still early no_snapshot) h.staked)),
      )

  -- The next sequencers are selected.
  pub select_step :
      should_update c.staking.round (suc n) ≡ false
      → should_snapshot c.staking.round (suc n) ≡ true
      → (d : Chain T) × (on_initialize P T G (suc n) c ≡ (ok tt, d)) × IsRunning T G (suc n) d
  unfolding on_initialize at_snapshot select_for_next
  select_step early snapshot =
      let r : RoundInfo = c.staking.round in
      let past : ℕ = saturating_sub r.current T.reward_payment_delay in
      let q : ℕ = saturating_add_u32 r.current 1 in
      let (t, e, i) = update_round-IsPayoutStep P T (suc n) c.staking early in
      let at_block = should_snapshot_iff r (suc n) (omega (arith, h.begun)) word in
      let here : serving n r ≡ q - 1 = ground (arith, snapshot, at_block, number) in
      let there : q ≡ serving (suc n) r = ground (arith, snapshot, at_block, number) in
      let paid : IsSound T t = paid-IsSound T c.staking t h.sound past i in
      let (counts, u, f, k) =
        select_top_candidates-IsChosen T (total_selected c.grouping) q t paid (
          paid-AllStaked T past (q - 1) c.staking t i (ground (arith, h.numbered, delay, number))
            (subst (λ x. AllStaked T x c.staking) here h.staked)) in
      let chosen_round : u.round ≡ t.round = chosen-round T q t u k in
      let paid_round : t.round ≡ r = paid-round T past c.staking t i in
      let chosen : IsSound T u = chosen-IsSound T t u paid q k in
      let v : Storage T = record u {
        events = candidates_selected q counts.sequencer_count counts.total ∷ u.events;
      } in
      let (g, b, m) =
        group_selected_ok T G r (record { staking = v; grouping = c.grouping }) h.metric in
      (
        record { staking = v; grouping = g },
        ground (arith, e, snapshot, f, b),
        to-IsRunning T G (suc n) r (record { staking = v; grouping = g })
            (chosen_round ∙ paid_round) (still early)
            (record { agrees = chosen.agrees; lists = chosen.lists; distinct = chosen.distinct }) m
            (subst (λ x. AllStaked T x v) there k.staked),
      )
