-- ===== src/Staking/Candidate/Bond.antt =====
-- The self bond and the status of `CandidateMetadata` of pallets/sequencer-staking/src/types.rs.
use popsicle.Prelude.{
  ℕ, Bool, true, false, not, Option, none, some, saturating_add, saturating_sub, add_u32, leb, ltb,
  if◌then◌else◌,
}
use popsicle.Prelude.Effects.{Outcome, ok, err, panic, pure, fail, gets, ok_or, ensure, ◌>>=◌, ◌>>◌}
use popsicle.Staking.Types.{SequencerStatus, CandidateMetadata, is_active, is_leaving}
use popsicle.Staking.Storage.{
  Config, Storage, Error, candidate_already_leaving, candidate_cannot_leave_yet,
  candidate_not_leaving, insufficient_balance, transfer_failed,
  pending_candidate_request_already_exists, candidate_bond_below_min,
  pending_candidate_requests_dne, pending_candidate_request_not_due_yet, candidate_bonded_more,
  candidate_bonded_less, cancelled_candidate_bond_less, Call, deposit_event, put_total,
  transfer_btc,
}
use popsicle.Staking.Pool.{update_active}

abbrev is_none {ℓ} : {A : Type ℓ} → Option A → Bool
is_none none = true
is_none (some _) = false

-- `schedule_leave`: the current round and the round of the exit, and the metadata after it.
unfoldable pub schedule_leave :
    (T : Config) → CandidateMetadata → Call T (ℕ × ℕ × CandidateMetadata)
schedule_leave T m = do
  ensure (not (is_leaving m)) candidate_already_leaving
  now ← gets (λ (s : Storage T). s.round.current)
  let when = add_u32 now T.leave_candidates_delay
  pure (now, when, record m { status = SequencerStatus.leaving when })

can_leave_status : (T : Config) → SequencerStatus → Call T (Unit {0})
can_leave_status T SequencerStatus.active = fail candidate_not_leaving
can_leave_status T SequencerStatus.idle = fail candidate_not_leaving
can_leave_status T (SequencerStatus.leaving when) = do
  now ← gets (λ (s : Storage T). s.round.current)
  ensure (leb when now) candidate_cannot_leave_yet

-- `can_leave`
unfoldable pub can_leave : (T : Config) → CandidateMetadata → Call T (Unit {0})
unfolding can_leave_status
can_leave T m = can_leave_status T m.status

-- `bond_more`
unfoldable pub bond_more : (T : Config) → ℕ → ℕ → CandidateMetadata → Call T CandidateMetadata
bond_more T who more m = do
  balance ← gets (λ (s : Storage T). T.reducible_balance s.ledger who)
  ensure (leb more balance) insufficient_balance
  total ← gets (λ (s : Storage T). s.total)
  put_total T (saturating_add total more)
  let bond = saturating_add m.bond more
  transfer_btc T who T.account_id more
  deposit_event T (candidate_bonded_more who more bond)
  pure (record m { bond = bond; total_counted = saturating_add m.total_counted more })

-- What `bond_less` does once the transfer has gone through.
abbrev pub after_bond_less : (T : Config) → ℕ → ℕ → CandidateMetadata → Call T (Unit {0})
after_bond_less T who amount m =
    (if is_active m then update_active T who m.total_counted else pure tt)
    >> deposit_event T (candidate_bonded_less who amount m.bond)

-- `bond_less`, with the metadata that it leaves, also where it fails: the bond is then lower already.
unfoldable pub bond_less :
    (T : Config)
    → ℕ
    → ℕ
    → CandidateMetadata
    → Storage T
    → CandidateMetadata × Outcome Error (Unit {0}) × Storage T
bond_less T who amount m s =
    let lower = record m { bond = saturating_sub m.bond amount } in
    let counted = record lower { total_counted = saturating_sub m.total_counted amount } in
    let s' = record s { total = saturating_sub s.total amount } in
    elim (T.transfer T.account_id who amount s'.ledger) [
      | none ↦ (lower, err transfer_failed, s')
      | some l ↦
          let (r, s'') = after_bond_less T who amount counted (record s' { ledger = l }) in
          (counted, r, s'')
    ]

-- `self.bond_less(…)?`
abbrev pub with_self :
    (T : Config)
    → CandidateMetadata × Outcome Error (Unit {0}) × Storage T
    → Outcome Error CandidateMetadata × Storage T
with_self T (m, r, s) = elim r [ ok _ ↦ (ok m, s) | err e ↦ (err e, s) | panic ↦ (panic, s) ]

-- `schedule_bond_less`: the round of execution, and the metadata after it.
unfoldable pub schedule_bond_less :
    (T : Config) → ℕ → CandidateMetadata → Call T (ℕ × CandidateMetadata)
schedule_bond_less T less m = do
  ensure (is_none m.request) pending_candidate_request_already_exists
  ensure (ltb less m.bond) candidate_bond_below_min
  now ← gets (λ (s : Storage T). s.round.current)
  let when = add_u32 now T.candidate_bond_less_delay
  pure (when, record m { request = some (record { amount = less; when_executable = when }) })

-- `execute_bond_less`
unfoldable pub execute_bond_less : (T : Config) → ℕ → CandidateMetadata → Call T CandidateMetadata
execute_bond_less T who m = do
  request ← ok_or pending_candidate_requests_dne m.request
  now ← gets (λ (s : Storage T). s.round.current)
  ensure (leb request.when_executable now) pending_candidate_request_not_due_yet
  m' ← λ s. with_self T (bond_less T who request.amount m s)
  pure (record m' { request = none })

-- `cancel_bond_less`
unfoldable pub cancel_bond_less : (T : Config) → ℕ → CandidateMetadata → Call T CandidateMetadata
cancel_bond_less T who m = do
  request ← ok_or pending_candidate_requests_dne m.request
  deposit_event T (cancelled_candidate_bond_less who request.amount request.when_executable)
  pure (record m { request = none })
