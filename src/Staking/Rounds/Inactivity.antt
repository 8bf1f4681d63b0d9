-- ===== src/Staking/Rounds/Inactivity.antt =====
-- `notify_inactive_sequencer` of pallets/sequencer-staking/src/lib.rs: whom it takes offline.
use popsicle.Prelude.{
  ℕ, zero, suc, ◌+◌, ◌-◌, ◌*◌, ◌≤◌, ◌<◌, ◌≡◌, ◌≢◌, refl, inl, inr, true, false, Bool-cases,
  Option-cases, none, some, ◌∷◌, ◌⊎◌, ap, sym, update, subst, length, ◌==◌, max_u32, arith,
}
use popsicle.Prelude.Effects.{ok, err}
use popsicle.Prelude.Origin.{signed}
use popsicle.Staking.Storage
use popsicle.Staking.Storage.{
  Config, Storage, candidate_went_offline, candidate_dne, already_offline,
  cannot_be_notified_as_inactive,
}
use popsicle.Staking.Types.{CandidateMetadata, SequencerStatus, is_active, bond_key, from_owner}
use popsicle.Staking.Set.{remove}
use popsicle.Staking.Calls.{go_offline_inner}
use popsicle.Staking.Calls.Enrolment.{leave_pool_lem}
use popsicle.Staking.Selection.{stake_of}
use popsicle.Staking.Rounds.{inactive_rounds, notify_inactive_sequencer}

-- A sequencer with a stake in the round `r` and no points.
abbrev pub IsInactive : (T : Config) → Storage T → ℕ → ℕ → Type 0
IsInactive T s c r = (stake_of c (s.at_stake r) ≢ none) × (s.awarded_pts r c ≡ 0)

module _ (T : Config) (c : ℕ) (s : Storage T) where
  inactive_rounds-le : (r n : ℕ) → inactive_rounds T c r n s ≤ n
  unfolding inactive_rounds
  inactive_rounds-le r zero = omega arith
  inactive_rounds-le r (suc n) =
      ground (arith, inactive_rounds-le (suc r) n, Option-cases (stake_of c (s.at_stake r)))

  inactive_rounds_all :
      (r n : ℕ) → ((q : ℕ) → r ≤ q → q < r + n → IsInactive T s c q) → inactive_rounds T c r n s ≡ n
  unfolding inactive_rounds
  inactive_rounds_all r zero h = refl
  inactive_rounds_all r (suc n) h =
      let now : IsInactive T s c r = h r (omega arith) (omega arith) in
      let later = inactive_rounds_all (suc r) n (λ q le lt. h q (omega arith) (omega arith)) in
      elim (Option-cases (stake_of c (s.at_stake r))) [
        | inl e ↦ absurd (now.0 e)
        | inr (x, e) ↦ ground (arith, e, now.1, later)
      ]

  inactive_rounds_some :
      (r n q : ℕ) → r ≤ q → q < r + n → ¬ (IsInactive T s c q) → inactive_rounds T c r n s < n
  unfolding inactive_rounds
  inactive_rounds_some r zero q le lt h = omega arith
  inactive_rounds_some r (suc n) q le lt h = elim (Option-cases (stake_of c (s.at_stake r))) [
    | inl e ↦ ground (arith, e, inactive_rounds-le (suc r) n)
    | inr (x, e) ↦ elim (Bool-cases (s.awarded_pts r c == 0)) [
      | inr some_points ↦ ground (arith, e, some_points, inactive_rounds-le (suc r) n)
      | inl no_points ↦ elim (Bool-cases (r == q)) [
        | inl here ↦
            let same : r ≡ q = ground (arith, here) in
            absurd (
              h (
                subst (IsInactive T s c) same
                  (λ f. ground (arith, e, f), ground (arith, no_points))))
        | inr away ↦ ground (
          arith,
          e,
          no_points,
          inactive_rounds_some (suc r) n q (ground (arith, away)) (omega arith) h,
        )
      ]
    ]
  ]

  -- What becomes of the storage when the sequencer is to go offline: an active candidate is idle and
  -- has left the pool; one that is not active, or no candidate, changes nothing.
  pub data GoneOffline (t : Storage T) : Type 0 where
    taken :
        (m : CandidateMetadata)
        → s.candidate_info c ≡ some m
        → is_active m ≡ true
        → t ≡ record s {
          candidate_info =
              update s.candidate_info c (some (record m { status = SequencerStatus.idle }));
          candidate_pool = (remove bond_key (from_owner c) s.candidate_pool).1;
          events = candidate_went_offline c ∷ s.events;
        }
        → GoneOffline t
    nothing :
        ((m : CandidateMetadata) → s.candidate_info c ≡ some m → is_active m ≡ false)
        → t ≡ s
        → GoneOffline t

  go_offline_inner-GoneOffline :
      (((go_offline_inner T c s).0 ≡ ok tt)
        ⊎ ((e : Storage.Error) × ((go_offline_inner T c s).0 ≡ err e)))
      × GoneOffline (go_offline_inner T c s).1
  unfolding go_offline_inner
  go_offline_inner-GoneOffline = elim (Option-cases (s.candidate_info c)) [
    | inl f ↦ (
      inr (candidate_dne, ground (arith, f)),
      nothing (λ m e. ground (arith, f, e)) (ground (arith, f)),
    )
    | inr (m, f) ↦ elim (Bool-cases (is_active m)) [
      | inr idle ↦ (
        inr (already_offline, ground (arith, f, idle)),
        nothing (λ k e. ground (arith, f, e, idle)) (ground (arith, f, idle)),
      )
      | inl act ↦ (
        inl (ground (arith, f, act, leave_pool_lem T c s)),
        taken m f act (ground (arith, f, act, leave_pool_lem T c s)),
      )
    ]
  ]

-- The guards of the call: the feature is on, more than two thirds of the sequencers are selected, and
-- there are as many rounds as have to be checked.
pub record MayNotify (T : Config) (max_sequencers : ℕ) (s : Storage T) : Type 0 where
  pub enabled : s.enable_marking_offline ≡ true
  pub enough : max_sequencers * 2 < length s.selected_candidates * 3
  pub few : length s.selected_candidates * 3 ≤ max_u32
  pub late : T.max_offline_rounds < s.round.current

notify_inactive :
    (T : Config) (max_sequencers who c : ℕ) (s : Storage T)
    → MayNotify T max_sequencers s
    → ((q : ℕ)
        → s.round.current - T.max_offline_rounds ≤ q
        → q < s.round.current
        → IsInactive T s c q)
    → ((go_offline_inner T c s).0 ≡ ok tt)
      ⊎ ((e : Storage.Error) × ((go_offline_inner T c s).0 ≡ err e))
    → notify_inactive_sequencer T max_sequencers (signed who) c s
      ≡ (ok tt, (go_offline_inner T c s).1)
unfolding notify_inactive_sequencer
notify_inactive T max_sequencers who c s may h ends =
    let n : ℕ = T.max_offline_rounds in
    let first : ℕ = s.round.current - n in
    let span : s.round.current - first ≡ n = omega (arith, may.late) in
    let all = inactive_rounds_all T c s first n (λ q le lt. h q le (omega (arith, may.late))) in
    elim ends [
      | inl e ↦ ground (arith, may.enabled, may.enough, may.few, may.late, span, all, e)
      | inr (x, e) ↦ ground (arith, may.enabled, may.enough, may.few, may.late, span, all, e)
    ]

notify_active :
    (T : Config) (max_sequencers who c : ℕ) (s : Storage T)
    → MayNotify T max_sequencers s
    → (q : ℕ) → s.round.current - T.max_offline_rounds ≤ q
    → q < s.round.current
    → ¬ (IsInactive T s c q)
    → notify_inactive_sequencer T max_sequencers (signed who) c s
      ≡ (err cannot_be_notified_as_inactive, s)
unfolding notify_inactive_sequencer
notify_active T max_sequencers who c s may q le lt h =
    let n : ℕ = T.max_offline_rounds in
    let first : ℕ = s.round.current - n in
    let span : s.round.current - first ≡ n = omega (arith, may.late) in
    let some_active = inactive_rounds_some T c s first n q le (omega (arith, may.late)) h in
    ground (arith, may.enabled, may.enough, may.few, may.late, span, some_active)

-- Under its guards, `notify_inactive_sequencer` of a signed account decides by the last
-- `MaxOfflineRounds` rounds before the current one. If the sequencer had a stake and no points in each
-- of them, the call succeeds: an active candidate becomes idle and leaves the pool, with an event and
-- nothing else changed; if the sequencer is not an active candidate, nothing changes. If it had no stake
-- or some points in one of them, the call fails and changes nothing.
pub notify_inactive_sequencer_decides :
    (T : Config) (max_sequencers who c : ℕ) (s : Storage T)
    → MayNotify T max_sequencers s
    → let first = s.round.current - T.max_offline_rounds in
      let (r, t) = notify_inactive_sequencer T max_sequencers (signed who) c s in
      (((q : ℕ) → first ≤ q → q < s.round.current → IsInactive T s c q)
        → (r ≡ ok tt) × GoneOffline T c s t)
      × ((q : ℕ)
          → first ≤ q
          → q < s.round.current
          → ¬ (IsInactive T s c q)
          → (r ≡ err cannot_be_notified_as_inactive) × (t ≡ s))
notify_inactive_sequencer_decides T max_sequencers who c s may =
    let (ends, gone) = go_offline_inner-GoneOffline T c s in
    (
      λ h.
          let runs = notify_inactive T max_sequencers who c s may h ends in
          (ap (λ p. p.0) runs, subst (GoneOffline T c s) (sym (ap (λ p. p.1) runs)) gone),
      λ q le lt h.
          let runs = notify_active T max_sequencers who c s may q le lt h in
          (ap (λ p. p.0) runs, ap (λ p. p.1) runs),
    )
