-- ===== src/Staking/Rounds.antt =====
-- The rounds of pallets/sequencer-staking/src/lib.rs: the hook at the start of a block, with the
-- grouping pallet that it calls, the points of a round, and the calls that have to do with rounds.
pub mod Clock
pub mod Sound
pub mod Safety
pub mod Blocks
pub mod Stalled
pub mod Points
pub mod Inactivity
pub mod Snapshot
use popsicle.Prelude.{
  ℕ, zero, suc, ◌+◌, ◌-◌, ◌*◌, ◌%◌, ◌^◌, Bool, true, false, not, ◌&&◌, Option, none, some, List, [],
  ◌∷◌, length, update, saturating_sub, saturating_add_u32, ltb, ◌==◌, if◌then◌else◌,
}
use popsicle.Prelude.Effects.{
  Action, ok, err, panic, pure, fail, gets, ensure, modify, discard, ◌>>=◌, ◌>>◌,
}
use popsicle.Prelude.Origin.{Origin, ensure_signed}
use popsicle.Grouping
use popsicle.Grouping.{trigger_group, total_selected}
use popsicle.Staking.Types.{RoundInfo, next_round, should_update, should_snapshot}
use popsicle.Staking.Storage
use popsicle.Staking.Storage.{
  Config, Storage, Call, deposit_event, bad_origin, currency_error, marking_offline_not_enabled,
  too_low_sequencer_count_to_notify_as_inactive, current_round_too_low,
  cannot_be_notified_as_inactive, insufficient_balance, candidate_not_leaving, new_round,
  candidates_selected,
}
use popsicle.Staking.Calls.{go_offline_inner, is_candidate}
use popsicle.Staking.Selection.{stake_of, Selected, select_top_candidates}
use popsicle.Staking.Payouts.{Perbill, prepare_staking_payouts, handle_delayed_payouts}

-- `award_points_to_sequencer`
unfoldable pub award_points_to_sequencer : (T : Config) → ℕ → ℕ → Call T (Unit {0})
award_points_to_sequencer T sequencer points = modify λ s.
    let now = s.round.current in
    record s {
      awarded_pts = update s.awarded_pts now (
          update (s.awarded_pts now) sequencer
            (saturating_add_u32 (s.awarded_pts now sequencer) points));
      points = update s.points now (saturating_add_u32 (s.points now) points);
    }

-- the beginning of a round in `on_initialize`
unfoldable pub begin_round : (T : Config) → ℕ → RoundInfo → Call T RoundInfo
unfolding prepare_staking_payouts next_round
begin_round T n round = do
  let next = next_round round n
  prepare_staking_payouts T next
  selected ← gets (λ (s : Storage T). s.selected_candidates)
  modify (λ s. record s { round = next })
  deposit_event T (new_round next.first next.current (length selected))
  pure next

-- the first half of `on_initialize`, with the round that it leaves
unfoldable pub update_round : (P : Perbill) (T : Config) → ℕ → Call T RoundInfo
unfolding begin_round handle_delayed_payouts should_update
update_round P T n = do
  round ← gets (λ (s : Storage T). s.round)
  if should_update round n
      then begin_round T n round
      else do handle_delayed_payouts P T round.current; pure round

-- the selection for the next round in `on_initialize`
unfoldable pub select_for_next : (T : Config) → ℕ → RoundInfo → Call T (Unit {0})
unfolding select_top_candidates
select_for_next T n round = do
  selected ← select_top_candidates T n (saturating_add_u32 round.current 1)
  deposit_event T (
      candidates_selected (saturating_add_u32 round.current 1) selected.sequencer_count
        selected.total)

-- The states of the two pallets.
pub record Chain (T : Config) : Type 0 where
  pub staking : Storage T
  pub grouping : Grouping.Storage

abbrev pub on_staking : {T : Config} {A : Type 0} → Call T A → Action (Chain T) Storage.Error A
on_staking m c = let (r, s) = m c.staking in (r, record c { staking = s })

-- the call of the grouping pallet in `on_initialize`, whose result is dropped
unfoldable pub group_selected :
    (T : Config) → Grouping.Config → RoundInfo → Action (Chain T) Storage.Error (Unit {0})
group_selected T G round c =
    let (r, g) =
      trigger_group G c.staking.selected_candidates (saturating_add_u32 round.first round.length)
        (saturating_add_u32 round.current 1) c.grouping in
    elim r [
      | ok _ ↦ (ok tt, record c { grouping = g })
      | err _ ↦ (ok tt, record c { grouping = g })
      | panic ↦ (panic, record c { grouping = g })
    ]

-- the second half of `on_initialize`
unfoldable pub at_snapshot :
    (T : Config) → Grouping.Config → RoundInfo → Action (Chain T) Storage.Error (Unit {0})
unfolding select_for_next group_selected total_selected
at_snapshot T G round = do
  c ← gets (λ (c : Chain T). c)
  on_staking (select_for_next T (total_selected c.grouping) round)
  group_selected T G round

-- `on_initialize`
unfoldable pub on_initialize :
    Perbill → (T : Config) → Grouping.Config → ℕ → Action (Chain T) Storage.Error (Unit {0})
unfolding update_round at_snapshot should_snapshot
on_initialize P T G n = do
  round ← on_staking (update_round P T n)
  if should_snapshot round n then at_snapshot T G round else pure tt

-- `charge_reward_account`
unfoldable pub charge_reward_account : (T : Config) → Origin → ℕ → Call T (Unit {0})
charge_reward_account T origin amount = do
  acc ← ensure_signed bad_origin origin
  λ s. elim (T.transfer_keep_alive acc T.account_id amount s.ledger) [
    | none ↦ (err currency_error, s)
    | some l ↦ (ok tt, record s { ledger = l })
  ]

-- the loop of `notify_inactive_sequencer` over `n` rounds from `r` on
unfoldable pub inactive_rounds : (T : Config) → ℕ → ℕ → ℕ → Storage T → ℕ
inactive_rounds T sequencer r zero s = 0
inactive_rounds T sequencer r (suc n) s =
    let rest = inactive_rounds T sequencer (suc r) n s in
    elim (stake_of sequencer (s.at_stake r)) [
      | none ↦ rest
      | some _ ↦ if s.awarded_pts r sequencer == 0 then suc rest else rest
    ]

-- `notify_inactive_sequencer`, with the runtime's `OnInactiveSequencer`; `max_sequencers` is the
-- `total_selected` of the grouping pallet.
unfoldable pub notify_inactive_sequencer : (T : Config) → ℕ → Origin → ℕ → Call T (Unit {0})
unfolding inactive_rounds go_offline_inner
notify_inactive_sequencer T max_sequencers origin sequencer = do
  s ← gets (λ (s : Storage T). s)
  ensure s.enable_marking_offline marking_offline_not_enabled
  ensure_signed bad_origin origin
  ensure (ltb ((max_sequencers * 2) % 2 ^ 32) ((length s.selected_candidates * 3) % 2 ^ 64))
      too_low_sequencer_count_to_notify_as_inactive
  ensure (ltb T.max_offline_rounds s.round.current) current_round_too_low
  let first = saturating_sub s.round.current T.max_offline_rounds
  if inactive_rounds T sequencer first (s.round.current - first) s == T.max_offline_rounds
      then discard (go_offline_inner T sequencer)
      else fail cannot_be_notified_as_inactive

abbrev has_requests : (T : Config) → ℕ → Storage T → Bool
has_requests T candidate s = not (length (s.delegation_scheduled_requests candidate) == 0)

-- the checks of `hotfix_remove_delegation_requests_exited_candidates`
unfoldable pub ensure_exited : (T : Config) → List ℕ → Call T (Unit {0})
ensure_exited T [] = pure tt
ensure_exited T (c ∷ cs) = do
  s ← gets (λ (s : Storage T). s)
  ensure (not (is_candidate T c s)) candidate_not_leaving
  ensure (not (has_requests T c s)) candidate_not_leaving
  ensure_exited T cs

unfoldable pub remove_requests : (T : Config) → List ℕ → Call T (Unit {0})
remove_requests T [] = pure tt
remove_requests T (c ∷ cs) = do
  modify (λ (s : Storage T). record s {
    delegation_scheduled_requests = update s.delegation_scheduled_requests c [];
  })
  remove_requests T cs

-- `hotfix_remove_delegation_requests_exited_candidates`
unfoldable pub hotfix_remove_delegation_requests_exited_candidates :
    (T : Config) → Origin → List ℕ → Call T (Unit {0})
unfolding ensure_exited remove_requests
hotfix_remove_delegation_requests_exited_candidates T origin candidates = do
  ensure_signed bad_origin origin
  ensure (ltb (length candidates) 100) insufficient_balance
  ensure_exited T candidates
  remove_requests T candidates
