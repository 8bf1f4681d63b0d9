-- ===== src/Staking/Calls/Enrolment.antt =====
-- The calls of pallets/sequencer-staking/src/lib.rs by which candidates join, leave, stay, and go
-- offline or online, and the agreement of the pool with the metadata.
use popsicle.Prelude.{
  ℕ, ◌<◌, ◌≡◌, refl, inl, inr, true, false, Option, none, some, List, length, update, leb, arith,
  Bool-cases, Option-cases, add_u32,
}
use popsicle.Prelude.Effects.{Outcome, ok, err}
use popsicle.Prelude.Origin.{signed}
use popsicle.Staking.Set.{insert, remove, contains}
use popsicle.Staking.Set.Laws.{entry}
use popsicle.Staking.Set.Build.{try_insert_lem}
use popsicle.Staking.Types.{
  Bond, from_owner, bond_key, CandidateMetadata, SequencerStatus, new_candidate, is_active,
  is_leaving, go_offline, go_online,
}
use popsicle.Staking.Storage
use popsicle.Staking.Storage.{Config, Storage, already_active, candidate_exists}
use popsicle.Staking.Calls.{
  enter_pool, leave_pool, join_candidates_inner, schedule_leave_candidates, cancel_leave_candidates,
  go_offline_inner, go_online_inner,
}
use popsicle.Staking.Candidate.Bond.{schedule_leave}
use popsicle.Staking.Calls.Pooled.{IsPooled, leave-IsPooled, enter-IsPooled}

-- The pool of a storage agrees with its metadata.
abbrev pub Agrees : (T : Config) → Storage T → Type 0
Agrees T s = IsPooled T s.candidate_pool s.candidate_info

remove-absent :
    (v : Bond) (xs : List Bond) → (remove bond_key v xs).0 ≡ false → (remove bond_key v xs).1 ≡ xs
unfolding remove
remove-absent v xs e = ground arith

pub leave_pool_lem :
    (T : Config) (c : ℕ) (s : Storage T)
    → leave_pool T c s.candidate_pool s
      ≡ (ok tt, record s { candidate_pool = (remove bond_key (from_owner c) s.candidate_pool).1 })
unfolding leave_pool
leave_pool_lem T c s = elim (Bool-cases (remove bond_key (from_owner c) s.candidate_pool).0) [
  | inl e ↦ rw e refl
  | inr e ↦ rw (e, remove-absent (from_owner c) s.candidate_pool e) refl
]

-- Either the bond is new and has room, or the call fails.
pub data Entered (T : Config) (b : Bond) (pool : List Bond) (s : Storage T)
    (r : Outcome Storage.Error (List Bond) × Storage T) : Type 0 where
  entered :
      r ≡ (ok (insert bond_key b pool).1, s)
      → contains bond_key b pool ≡ false
      → length pool < T.max_candidates
      → Entered T b pool s r
  refused : (e : Storage.Error) → r ≡ (err e, s) → Entered T b pool s r

pub enter_pool-Entered :
    (T : Config) (present : Storage.Error) (b : Bond) (pool : List Bond) (s : Storage T)
    → Entered T b pool s (enter_pool T present b pool s)
unfolding enter_pool insert contains
enter_pool-Entered T present b pool s = elim (Bool-cases (contains bond_key b pool)) [
  | inl e ↦ refused present (ground (arith, e, try_insert_lem bond_key T.max_candidates b pool))
  | inr e ↦ elim (Bool-cases (leb T.max_candidates (length pool))) [
    | inl f ↦
        refused Storage.candidate_limit_reached
          (ground (arith, e, f, try_insert_lem bond_key T.max_candidates b pool))
    | inr f ↦
        entered (ground (arith, e, f, try_insert_lem bond_key T.max_candidates b pool)) e
          (ground (arith, f))
  ]
]

-- A storage with a given pool and given metadata.
pub to-Agrees :
    (T : Config) (t : Storage T) (pool : List Bond) (info : ℕ → Option CandidateMetadata)
    → t.candidate_pool ≡ pool
    → t.candidate_info ≡ info
    → IsPooled T pool info
    → Agrees T t
to-Agrees T t pool info p q v = rw (p, q) v

module _ (T : Config) (c : ℕ) (s : Storage T) (h : Agrees T s) where
  kept :
      (t : Storage T)
      → t.candidate_pool ≡ s.candidate_pool
      → t.candidate_info ≡ s.candidate_info
      → Agrees T t
  kept t p q = to-Agrees T t s.candidate_pool s.candidate_info p q h

  -- Not listed, since the metadata are not those of an active candidate.
  pub go_offline_inner-Agrees : Agrees T (go_offline_inner T c s).1
  unfolding go_offline_inner
  go_offline_inner-Agrees = elim (Option-cases (s.candidate_info c)) [
    | inl e ↦ kept (go_offline_inner T c s).1 (ground (arith, e)) (ground (arith, e))
    | inr (m, e) ↦ elim (Bool-cases (is_active m)) [
      | inr idle ↦
          kept (go_offline_inner T c s).1 (ground (arith, e, idle)) (ground (arith, e, idle))
      | inl act ↦
          to-Agrees T (go_offline_inner T c s).1 (remove bond_key (from_owner c) s.candidate_pool).1
            (update s.candidate_info c (some (go_offline m)))
            (ground (arith, e, act, leave_pool_lem T c s))
            (ground (arith, e, act, leave_pool_lem T c s))
            (leave-IsPooled T s.candidate_pool s.candidate_info h c (go_offline m) refl)
    ]
  ]

  entry-idle :
      (m : CandidateMetadata)
      → s.candidate_info c ≡ some m
      → is_active m ≡ false
      → entry bond_key c s.candidate_pool ≡ none
  entry-idle m e idle = ground (arith, h.agrees c, e, idle)

  pub go_online_inner-Agrees : Agrees T (go_online_inner T c s).1
  unfolding go_online_inner
  go_online_inner-Agrees = elim (Option-cases (s.candidate_info c)) [
    | inl e ↦ kept (go_online_inner T c s).1 (ground (arith, e)) (ground (arith, e))
    | inr (m, e) ↦ elim (Bool-cases (is_active m)) [
      | inl act ↦ kept (go_online_inner T c s).1 (ground (arith, e, act)) (ground (arith, e, act))
      | inr idle ↦ elim (Bool-cases (is_leaving m)) [
        | inl leaves ↦
            kept (go_online_inner T c s).1 (ground (arith, e, idle, leaves))
              (ground (arith, e, idle, leaves))
        | inr stays ↦
            elim (enter_pool-Entered T already_active
              (record { owner = c; amount = m.total_counted }) s.candidate_pool s) [
                | refused x r ↦
                    kept (go_online_inner T c s).1 (ground (arith, e, idle, stays, r))
                      (ground (arith, e, idle, stays, r))
                | entered r fresh room ↦
                    to-Agrees T (go_online_inner T c s).1
                      (insert bond_key (record { owner = c; amount = m.total_counted })
                        s.candidate_pool).1
                      (update s.candidate_info c (some (go_online m)))
                      (ground (arith, e, idle, stays, r)) (ground (arith, e, idle, stays, r))
                      (enter-IsPooled T s.candidate_pool s.candidate_info h c (go_online m) refl
                        (entry-idle m e idle) room)
              ]
      ]
    ]
  ]

  entry-unknown : s.candidate_info c ≡ none → entry bond_key c s.candidate_pool ≡ none
  entry-unknown e = ground (arith, h.agrees c, e)

  pub join_candidates_inner-Agrees : (count : ℕ) → Agrees T (join_candidates_inner T c count s).1
  unfolding join_candidates_inner new_candidate
  join_candidates_inner-Agrees count =
      let fails : ((join_candidates_inner T c count s).1.candidate_pool ≡ s.candidate_pool)
          → ((join_candidates_inner T c count s).1.candidate_info ≡ s.candidate_info)
          → Agrees T (join_candidates_inner T c count s).1 =
        kept (join_candidates_inner T c count s).1 in
      elim (Option-cases (s.candidate_info c)) [
        | inr (m, e) ↦ fails (ground (arith, e)) (ground (arith, e))
        | inl e ↦ elim (Option-cases (s.delegator_state c)) [
          | inr (d, f) ↦ fails (ground (arith, e, f)) (ground (arith, e, f))
          | inl f ↦ elim (Bool-cases (leb (length s.candidate_pool) count)) [
            | inr few ↦ fails (ground (arith, e, f, few)) (ground (arith, e, f, few))
            | inl many ↦
                elim (enter_pool-Entered T candidate_exists (from_owner c) s.candidate_pool s) [
                  | refused x r ↦
                      fails (ground (arith, e, f, many, r)) (ground (arith, e, f, many, r))
                  | entered r fresh room ↦
                      elim (Bool-cases (leb T.min_candidate_stk (T.free_balance s.ledger c))) [
                        | inr poor ↦
                            fails (ground (arith, e, f, many, r, poor))
                              (ground (arith, e, f, many, r, poor))
                        | inl rich ↦
                            to-Agrees T (join_candidates_inner T c count s).1
                              (insert bond_key (from_owner c) s.candidate_pool).1
                              (update s.candidate_info c (some (new_candidate 0)))
                              (ground (arith, e, f, many, r, rich))
                              (ground (arith, e, f, many, r, rich))
                              (enter-IsPooled T s.candidate_pool s.candidate_info h c
                                (new_candidate 0) refl (entry-unknown e) room)
                      ]
                ]
          ]
        ]
      ]

  pub schedule_leave_candidates-Agrees :
      (count : ℕ) → Agrees T (schedule_leave_candidates T (signed c) count s).1
  unfolding schedule_leave_candidates schedule_leave
  schedule_leave_candidates-Agrees count =
      let fails : ((schedule_leave_candidates T (signed c) count s).1.candidate_pool
            ≡ s.candidate_pool)
          → ((schedule_leave_candidates T (signed c) count s).1.candidate_info ≡ s.candidate_info)
          → Agrees T (schedule_leave_candidates T (signed c) count s).1 =
        kept (schedule_leave_candidates T (signed c) count s).1 in
      elim (Option-cases (s.candidate_info c)) [
        | inl e ↦ fails (ground (arith, e)) (ground (arith, e))
        | inr (m, e) ↦ elim (Bool-cases (is_leaving m)) [
          | inl leaves ↦ fails (ground (arith, e, leaves)) (ground (arith, e, leaves))
          | inr stays ↦ elim (Bool-cases (leb (length s.candidate_pool) count)) [
            | inr few ↦ fails (ground (arith, e, stays, few)) (ground (arith, e, stays, few))
            | inl many ↦
                let when = add_u32 s.round.current T.leave_candidates_delay in
                let m' : CandidateMetadata = record m { status = SequencerStatus.leaving when } in
                to-Agrees T (schedule_leave_candidates T (signed c) count s).1
                  (remove bond_key (from_owner c) s.candidate_pool).1
                  (update s.candidate_info c (some m'))
                  (ground (arith, e, stays, many, leave_pool_lem T c s))
                  (ground (arith, e, stays, many, leave_pool_lem T c s))
                  (leave-IsPooled T s.candidate_pool s.candidate_info h c m' refl)
          ]
        ]
      ]

  leaving-idle : (m : CandidateMetadata) → is_leaving m ≡ true → is_active m ≡ false
  leaving-idle m e = ground arith

  pub cancel_leave_candidates-Agrees :
      (count : ℕ) → Agrees T (cancel_leave_candidates T (signed c) count s).1
  unfolding cancel_leave_candidates
  cancel_leave_candidates-Agrees count =
      let fails : ((cancel_leave_candidates T (signed c) count s).1.candidate_pool
            ≡ s.candidate_pool)
          → ((cancel_leave_candidates T (signed c) count s).1.candidate_info ≡ s.candidate_info)
          → Agrees T (cancel_leave_candidates T (signed c) count s).1 =
        kept (cancel_leave_candidates T (signed c) count s).1 in
      elim (Option-cases (s.candidate_info c)) [
        | inl e ↦ fails (ground (arith, e)) (ground (arith, e))
        | inr (m, e) ↦ elim (Bool-cases (is_leaving m)) [
          | inr stays ↦ fails (ground (arith, e, stays)) (ground (arith, e, stays))
          | inl leaves ↦ elim (Bool-cases (leb (length s.candidate_pool) count)) [
            | inr few ↦ fails (ground (arith, e, leaves, few)) (ground (arith, e, leaves, few))
            | inl many ↦
                elim (enter_pool-Entered T already_active
                  (record { owner = c; amount = m.total_counted }) s.candidate_pool s) [
                    | refused x r ↦
                        fails (ground (arith, e, leaves, many, r))
                          (ground (arith, e, leaves, many, r))
                    | entered r fresh room ↦
                        to-Agrees T (cancel_leave_candidates T (signed c) count s).1
                          (insert bond_key (record { owner = c; amount = m.total_counted })
                            s.candidate_pool).1
                          (update s.candidate_info c (some (go_online m)))
                          (ground (arith, e, leaves, many, r)) (ground (arith, e, leaves, many, r))
                          (enter-IsPooled T s.candidate_pool s.candidate_info h c (go_online m) refl
                            (entry-idle m e (leaving-idle m leaves)) room)
                  ]
          ]
        ]
      ]
