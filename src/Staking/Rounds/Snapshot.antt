-- ===== src/Staking/Rounds/Snapshot.antt =====
-- The selection of pallets/sequencer-staking/src/lib.rs together with the grouping of
-- pallets/sequencer-grouping/src/lib.rs, at the block that takes the snapshot.
use popsicle.Prelude.{
  ℕ, zero, suc, ap, ◌*◌, ◌≤◌, ◌<◌, ◌≡◌, refl, List, [], ◌∷◌, length, saturating_add_u32, max_u32,
  arith,
}
use popsicle.Prelude.Effects.{ok}
use popsicle.Grouping
use popsicle.Grouping.{total_selected, sequencer_group_updated}
use popsicle.Grouping.Trigger.{IsReady, AreFormed, trigger_group-AreFormed}
use popsicle.Grouping.Assignment.{Served}
use popsicle.Staking.Types.{RoundInfo}
use popsicle.Staking.Storage.{Config, Storage, candidates_selected}
use popsicle.Staking.Calls.Enrolment.{Agrees}
use popsicle.Staking.Selection.Top.{IsTop}
use popsicle.Staking.Selection.Snapshots.{IsSnapshotted}
use popsicle.Staking.Selection.Choosing.{HasLists, select_top_candidates-IsSelected}
use popsicle.Staking.Rounds.{Chain, select_for_next, group_selected, at_snapshot}

-- The grouping pallet can group as many sequencers as it asks for.
pub record CanGroup (G : Grouping.Config) (g : Grouping.Storage) : Type 0 where
  pub size : g.group_size ≤ G.max_group_size
  pub number : g.group_number ≤ G.max_group_number
  pub word : g.group_size * g.group_number ≤ max_u32
  pub number_word : g.group_number ≤ max_u32
  pub some_size : 0 < g.group_size * g.group_number
  pub some_number : 0 < g.group_number
  pub some_processor : 0 < length g.processor_info
  pub places : g.group_number ≤ length g.processor_info * G.max_running_app

-- The best candidates are selected, with their snapshots, and all of them are grouped for the round
-- that follows `r`.
pub record IsGrouped (T : Config) (r : RoundInfo) (c d : Chain T) : Type 0 where
  pub top :
      IsTop
        (c.grouping.group_size * c.grouping.group_number)
        c.staking.candidate_pool
        d.staking.selected_candidates
  pub snapshots :
      IsSnapshotted T
        (saturating_add_u32 r.current 1)
        d.staking.selected_candidates
        (record c.staking { selected_candidates = d.staking.selected_candidates })
        d.staking
  pub formed : AreFormed c.grouping d.staking.selected_candidates d.grouping.group_members
  pub all_grouped : formed.over ≡ []
  pub served : Served c.grouping.group_number c.grouping.processor_info d.grouping.processor_info
  pub block : d.grouping.next_round.starting_block ≡ saturating_add_u32 r.first r.length
  pub round : d.grouping.next_round.round_index ≡ saturating_add_u32 r.current 1

no_elements {ℓ} : {A : Type ℓ} (xs : List A) → length xs ≡ 0 → xs ≡ []
no_elements [] e = refl
no_elements (x ∷ xs) e = let bad : zero ≡ suc zero = omega arith in cc

-- At the block of the snapshot, with a pool that agrees with the metadata, a list for every candidate, a
-- positive metric within the bounds, processors with places for all groups, and at least as many
-- candidates in the pool as the metric asks for: the hook ends with a value. The best candidates of
-- the pool are selected, the stake behind each is recorded for the next round, the groups are formed
-- of all of them, none left over, and dealt to the processors, and the grouping's next round is the
-- one after `r`, which starts where `r` ends.
pub at_snapshot-IsGrouped :
    (T : Config) (G : Grouping.Config) (r : RoundInfo) (c : Chain T)
    → Agrees T c.staking
    → HasLists T c.staking
    → CanGroup G c.grouping
    → c.grouping.group_size * c.grouping.group_number ≤ length c.staking.candidate_pool
    → (d : Chain T) × (at_snapshot T G r c ≡ (ok tt, d)) × IsGrouped T r c d
unfolding at_snapshot select_for_next group_selected total_selected
at_snapshot-IsGrouped T G r c h lists can enough =
    let q : ℕ = saturating_add_u32 r.current 1 in
    let n : ℕ = c.grouping.group_size * c.grouping.group_number in
    let (counts, t, e, i) =
      select_top_candidates-IsSelected T n q c.staking h lists can.some_size
        (omega (arith, can.some_size, enough)) in
    let ready : IsReady G c.grouping t.selected_candidates = record {
      size = can.size;
      number = can.number;
      number_word = can.number_word;
      word = can.word;
      enough = omega (arith, i.top.count, enough);
    } in
    let (groups, infos, f, formed, served) =
      trigger_group-AreFormed G c.grouping t.selected_candidates
        (saturating_add_u32 r.first r.length) q ready can.some_number can.some_processor
        can.places in
    let s : Storage T = record t {
      events = candidates_selected q counts.sequencer_count counts.total ∷ t.events;
    } in
    let d : Chain T = record {
      staking = s;
      grouping = record c.grouping {
        group_members = groups;
        processor_info = infos;
        next_round = record {
          starting_block = saturating_add_u32 r.first r.length;
          round_index = q;
        };
        events =
            sequencer_group_updated (saturating_add_u32 r.first r.length) q ∷ c.grouping.events;
      };
    } in
    (
      d,
      ground (arith, e, f, can.word),
      record {
        top = i.top;
        snapshots = record {
          same = ap (λ (v : Storage T). record v { events = s.events }) i.snapshots.same;
          rounds = i.snapshots.rounds;
          distinct = i.snapshots.distinct;
          taken = i.snapshots.taken;
          others = i.snapshots.others;
        };
        formed = formed;
        all_grouped = no_elements formed.over (omega (arith, formed.left, i.top.count, enough));
        served = served;
        block = refl;
        round = refl;
      },
    )
