-- ===== src/Staking/Calls/History.antt =====
-- Every sequence of calls of candidates in pallets/sequencer-staking/src/lib.rs, each with whatever
-- outcome, between other calls that change neither the pool nor the metadata.
use popsicle.Prelude.{ℕ, ◌≡◌}
use popsicle.Prelude.Origin.{signed}
use popsicle.Staking.Storage.{Config, Storage}
use popsicle.Staking.Calls.{
  join_candidates_inner, schedule_leave_candidates, cancel_leave_candidates, go_offline_inner,
  go_online_inner, candidate_bond_more_inner, schedule_candidate_bond_less,
  execute_candidate_bond_less_inner, cancel_candidate_bond_less,
}
use popsicle.Staking.Calls.Enrolment.{
  Agrees, to-Agrees, join_candidates_inner-Agrees, schedule_leave_candidates-Agrees,
  cancel_leave_candidates-Agrees, go_offline_inner-Agrees, go_online_inner-Agrees,
}
use popsicle.Staking.Calls.Bonding.{
  candidate_bond_more_inner-Agrees, schedule_candidate_bond_less-Agrees,
  execute_candidate_bond_less_inner-Agrees, cancel_candidate_bond_less-Agrees,
}

pub data Step (T : Config) : Storage T → Storage T → Type 0 where
  joins : (s : Storage T) (c count : ℕ) → Step T s (join_candidates_inner T c count s).1
  leaves :
      (s : Storage T) (c count : ℕ) → Step T s (schedule_leave_candidates T (signed c) count s).1
  stays : (s : Storage T) (c count : ℕ) → Step T s (cancel_leave_candidates T (signed c) count s).1
  goes_offline : (s : Storage T) (c : ℕ) → Step T s (go_offline_inner T c s).1
  goes_online : (s : Storage T) (c : ℕ) → Step T s (go_online_inner T c s).1
  bonds_more : (s : Storage T) (c more : ℕ) → Step T s (candidate_bond_more_inner T c more s).1
  schedules_less :
      (s : Storage T) (c less : ℕ) → Step T s (schedule_candidate_bond_less T (signed c) less s).1
  executes_less : (s : Storage T) (c : ℕ) → Step T s (execute_candidate_bond_less_inner T c s).1
  cancels_less : (s : Storage T) (c : ℕ) → Step T s (cancel_candidate_bond_less T (signed c) s).1
  moves_on :
      (s t : Storage T)
      → t.candidate_pool ≡ s.candidate_pool
      → t.candidate_info ≡ s.candidate_info
      → Step T s t

pub data Reach (T : Config) (s : Storage T) : Storage T → Type 0 where
  here : Reach T s s
  next : {t u : Storage T} → Reach T s t → Step T t u → Reach T s u

Step-Agrees : (T : Config) {s t : Storage T} → Step T s t → Agrees T s → Agrees T t
Step-Agrees T (joins s c count) h = join_candidates_inner-Agrees T c s h count
Step-Agrees T (leaves s c count) h = schedule_leave_candidates-Agrees T c s h count
Step-Agrees T (stays s c count) h = cancel_leave_candidates-Agrees T c s h count
Step-Agrees T (goes_offline s c) h = go_offline_inner-Agrees T c s h
Step-Agrees T (goes_online s c) h = go_online_inner-Agrees T c s h
Step-Agrees T (bonds_more s c more) h = candidate_bond_more_inner-Agrees T c s h more
Step-Agrees T (schedules_less s c less) h = schedule_candidate_bond_less-Agrees T c s h less
Step-Agrees T (executes_less s c) h = execute_candidate_bond_less_inner-Agrees T c s h
Step-Agrees T (cancels_less s c) h = cancel_candidate_bond_less-Agrees T c s h
Step-Agrees T (moves_on s t p q) h = to-Agrees T t s.candidate_pool s.candidate_info p q h

-- From a storage whose pool lists exactly the active candidates, each with its total, every sequence
-- of the calls by which candidates join, leave, stay, go offline or online, and raise or lower their
-- bond, failing or not, between calls that change neither pool nor metadata, ends in such a storage.
pub Reach-Agrees : (T : Config) {s t : Storage T} → Agrees T s → Reach T s t → Agrees T t
Reach-Agrees T h here = h
Reach-Agrees T h (next r st) = Step-Agrees T st (Reach-Agrees T h r)
