-- ===== src/Staking/Selection.antt =====
-- The selection of the sequencers of a round in pallets/sequencer-staking/src/lib.rs: the top
-- candidates of the pool, and the snapshot of the stake behind each of them.
pub mod Ranking
pub mod Top
pub mod Rewardable
pub mod Snapshots
pub mod Choosing
pub mod Standing
pub mod Backing
use popsicle.Prelude.{
  ℕ, zero, suc, ◌-◌, Bool, true, false, not, ◌||◌, ◌&&◌, Option, none, some, List, [], ◌∷◌, map,
  filter, length, update, saturating_add, saturating_sub, saturating_add_u32, leb, ltb, ◌==◌,
  sort_by, sort_insert, if◌then◌else◌,
}
use popsicle.Prelude.Sorted.{take}
use popsicle.Prelude.Effects.{ok, err, panic, pure, gets, expect, modify, ◌>>=◌, ◌>>◌}
use popsicle.Staking.Types.{
  Bond, SequencerSnapshot, Delegations, DelegationAction, revoke, decrease, ScheduledRequest,
  CandidateMetadata,
}
use popsicle.Staking.Storage.{Config, Storage, Call, deposit_event, sequencer_chosen}

-- The comparison of two bonds by amount, then owner, reversed: whether `a` may precede `b`.
unfoldable pub outranks : Bond → Bond → Bool
outranks a b = ltb b.amount a.amount || ((a.amount == b.amount) && leb b.owner a.owner)

abbrev pub owners : List Bond → List ℕ
owners = map λ (b : Bond). b.owner

-- `compute_top_candidates`; of `select_nth_unstable_by` the code uses that the first elements are
-- the best ones, and a sorted list is one order that it may leave.
unfoldable pub compute_top_candidates : ℕ → List Bond → List ℕ
unfolding outranks
compute_top_candidates top_n pool =
    if top_n == 0
    then []
    else if ltb top_n (length pool)
    then sort_by leb (owners (take top_n (sort_by outranks pool)))
    else owners pool

-- The lookup in the map that `get_rewardable_delegators` collects from the requests: of two for one
-- delegator, the later stands.
unfoldable pub requested_action : ℕ → List ScheduledRequest → Option DelegationAction
requested_action delegator [] = none
requested_action delegator (r ∷ rs) =
    let later = requested_action delegator rs in
    elim later [ some a ↦ some a | none ↦ if r.delegator == delegator then some r.action else none ]

abbrev pub intended_amount : ℕ → Option DelegationAction → ℕ
intended_amount amount none = amount
intended_amount amount (some (revoke _)) = 0
intended_amount amount (some (decrease less)) = saturating_sub amount less

abbrev pub uncounted_after : ℕ → ℕ → Option DelegationAction → ℕ
uncounted_after uncounted amount none = uncounted
uncounted_after uncounted amount (some (revoke _)) = saturating_add uncounted amount
uncounted_after uncounted amount (some (decrease less)) = saturating_add uncounted less

pub record CountedDelegations : Type 0 where
  pub uncounted_stake : ℕ
  pub rewardable_delegations : List Bond

-- the closure over the top delegations, with the uncounted stake so far
unfoldable pub count_delegations : List ScheduledRequest → ℕ → List Bond → CountedDelegations
unfolding requested_action
count_delegations requests uncounted [] = record {
  uncounted_stake = uncounted;
  rewardable_delegations = [];
}
count_delegations requests uncounted (b ∷ bs) =
    let action = requested_action b.owner requests in
    let rest = count_delegations requests (uncounted_after uncounted b.amount action) bs in
    record rest {
      rewardable_delegations =
          record b { amount = intended_amount b.amount action } ∷ rest.rewardable_delegations;
    }

-- `get_rewardable_delegators`
unfoldable pub get_rewardable_delegators : (T : Config) → ℕ → Call T CountedDelegations
unfolding count_delegations
get_rewardable_delegators T sequencer = do
  requests ← gets (λ (s : Storage T). s.delegation_scheduled_requests sequencer)
  top ← expect (← gets (λ (s : Storage T). s.top_delegations sequencer))
  pure (count_delegations requests 0 top.delegations)

-- `AtStake::get(round, account)` on the entries of a round
abbrev pub stake_of : ℕ → List (ℕ × SequencerSnapshot) → Option SequencerSnapshot
stake_of account [] = none
stake_of account (x ∷ xs) =
    let rest = stake_of account xs in if x.0 == account then some x.1 else rest

-- `AtStake::insert`: an entry of the account is replaced, and the new one stands where its key does.
unfoldable pub insert_stake :
    (ℕ → ℕ → Bool)
    → ℕ
    → SequencerSnapshot
    → List (ℕ × SequencerSnapshot)
    → List (ℕ × SequencerSnapshot)
insert_stake before account snapshot entries =
    sort_insert (λ (x y : ℕ × SequencerSnapshot). before x.0 y.0) (account, snapshot)
      (filter (λ (x : ℕ × SequencerSnapshot). not (x.0 == account)) entries)

abbrev put_stake : (T : Config) → ℕ → ℕ → SequencerSnapshot → Call T (Unit {0})
put_stake T round account snapshot = modify λ s. record s {
  at_stake =
      update s.at_stake round (insert_stake T.key_before account snapshot (s.at_stake round));
}

-- What `select_top_candidates` returns: the numbers of sequencers and delegations, and the total.
pub record Selected : Type 0 where
  pub sequencer_count : ℕ
  pub delegation_count : ℕ
  pub total : ℕ

abbrev pub add_selected : Selected → ℕ → ℕ → Selected
add_selected x delegation_count total = record {
  sequencer_count = saturating_add_u32 x.sequencer_count 1;
  delegation_count = saturating_add_u32 x.delegation_count delegation_count;
  total = saturating_add x.total total;
}

abbrev pub snapshot_of : CandidateMetadata → CountedDelegations → SequencerSnapshot
snapshot_of state counted = record {
  bond = state.bond;
  delegations = counted.rewardable_delegations;
  total = saturating_sub state.total_counted counted.uncounted_stake;
}

-- one round of the loop over the selected sequencers
unfoldable pub snapshot_candidate : (T : Config) → ℕ → ℕ → Selected → Call T Selected
unfolding get_rewardable_delegators insert_stake
snapshot_candidate T next account selected = do
  state ← expect (← gets (λ (s : Storage T). s.candidate_info account))
  counted ← get_rewardable_delegators T account
  put_stake T next account (snapshot_of state counted)
  deposit_event T (sequencer_chosen next account state.total_counted)
  pure (add_selected selected state.delegation_count state.total_counted)

unfoldable pub snapshot_candidates : (T : Config) → ℕ → List ℕ → Selected → Call T Selected
unfolding snapshot_candidate
snapshot_candidates T next [] selected = pure selected
snapshot_candidates T next (a ∷ rest) selected =
    snapshot_candidate T next a selected >>= λ x. snapshot_candidates T next rest x

-- the loop over the snapshots of the current round, where no candidate could be selected
unfoldable pub copy_snapshots :
    (T : Config) → ℕ → List (ℕ × SequencerSnapshot) → Selected → Call T Selected
unfolding insert_stake
copy_snapshots T next [] selected = pure selected
copy_snapshots T next ((account, snapshot) ∷ xs) selected =
    put_stake T next account snapshot
    >> copy_snapshots T next xs (add_selected selected (length snapshot.delegations) snapshot.total)

-- the loop that emits `SequencerChosen` for the sequencers that stay
unfoldable pub announce_again :
    (T : Config) → ℕ → List (ℕ × SequencerSnapshot) → List ℕ → Call T (Unit {0})
announce_again T next entries [] = pure tt
announce_again T next entries (c ∷ cs) = expect (stake_of c entries) >>= λ (x : SequencerSnapshot).
    deposit_event T (sequencer_chosen next c x.total) >> announce_again T next entries cs

abbrev none_selected : Selected
none_selected = record { sequencer_count = 0; delegation_count = 0; total = 0 }

-- `<SelectedCandidates<T>>::put`, whose bound is `MaxCandidates`
abbrev put_selected : (T : Config) → List ℕ → Call T (Unit {0})
put_selected T sequencers =
    if leb (length sequencers) T.max_candidates
    then modify (λ s. record s { selected_candidates = sequencers })
    else λ s. (panic, s)

-- the rest of `select_top_candidates` once the sequencers are computed
unfoldable pub select_sequencers : (T : Config) → ℕ → List ℕ → Call T Selected
unfolding copy_snapshots announce_again snapshot_candidates
select_sequencers T next [] = do
  s ← gets (λ (s : Storage T). s)
  let entries = s.at_stake (saturating_sub next 1)
  selected ← copy_snapshots T next entries none_selected
  announce_again T next entries s.selected_candidates
  pure selected
select_sequencers T next (a ∷ rest) = do
  selected ← snapshot_candidates T next (a ∷ rest) none_selected
  put_selected T (a ∷ rest)
  pure selected

-- `select_top_candidates`
unfoldable pub select_top_candidates : (T : Config) → ℕ → ℕ → Call T Selected
unfolding select_sequencers compute_top_candidates
select_top_candidates T total_selected next = do
  pool ← gets (λ (s : Storage T). s.candidate_pool)
  select_sequencers T next (compute_top_candidates total_selected pool)
