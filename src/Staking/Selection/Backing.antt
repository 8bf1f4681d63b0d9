-- ===== src/Staking/Selection/Backing.antt =====
-- The stake in a snapshot of pallets/sequencer-staking/src/lib.rs, for a candidate whose lists and
-- metadata are as they should be.
use popsicle.Prelude.{ℕ, ◌+◌, ◌≤◌, ◌≡◌, max_balance, arith}
use popsicle.Staking.Types.{CandidateMetadata, Delegations}
use popsicle.Staking.Storage.{Config, Storage}
use popsicle.Staking.Delegations.Sums.{sum}
use popsicle.Staking.Candidate.Invariant.{IsBook}
use popsicle.Staking.Selection.{owners}
use popsicle.Staking.Selection.Rewardable.{AllFit, count_delegations-sum, count_delegations-owners}
use popsicle.Staking.Selection.Snapshots.{snapshot_at}

-- Where the metadata caches the two lists of a candidate, no pending decrease exceeds its delegation,
-- and bond and top delegations stay within a u128, the total of the snapshot is the bond plus the
-- rewardable delegations, which are those of the top, each with its owner, in the same order.
pub snapshot_at-sum :
    (T : Config) (c : ℕ) (m : CandidateMetadata) (s : Storage T) (top bottom : Delegations)
    → IsBook T c m s top bottom
    → AllFit (s.delegation_scheduled_requests c) top.delegations
    → m.bond + sum top.delegations ≤ max_balance
    → let x = snapshot_at T s m top c in
      (x.bond + sum x.delegations ≡ x.total) × (owners x.delegations ≡ owners top.delegations)
snapshot_at-sum T c m s top bottom book fit le = (
  omega (
    arith,
    book.caches.counted,
    book.split.top_total,
    le,
    count_delegations-sum (s.delegation_scheduled_requests c) 0 top.delegations fit
        (omega (arith, le)),
  ),
  count_delegations-owners (s.delegation_scheduled_requests c) 0 top.delegations,
)
