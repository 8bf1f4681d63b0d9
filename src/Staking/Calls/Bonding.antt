-- ===== src/Staking/Calls/Bonding.antt =====
-- The self bond calls of pallets/sequencer-staking/src/lib.rs, and the agreement of the pool with the
-- metadata.
use popsicle.Prelude.{
  ℕ, ◌≡◌, refl, inl, inr, true, none, some, ◌∷◌, update, saturating_add, saturating_sub, add_u32,
  leb, ltb, arith, Bool-cases, Option-cases,
}
use popsicle.Prelude.Effects.{ok}
use popsicle.Prelude.Origin.{signed}
use popsicle.Staking.Types.{CandidateMetadata, CandidateBondLessRequest, is_active}
use popsicle.Staking.Storage.{Config, Storage, candidate_bonded_more}
use popsicle.Staking.Pool.{update_active}
use popsicle.Staking.Pool.Laws.{updated, update_active_lem}
use popsicle.Staking.Calls.{
  candidate_bond_more_inner, schedule_candidate_bond_less, execute_candidate_bond_less_inner,
  cancel_candidate_bond_less,
}
use popsicle.Staking.Candidate.Bond.{
  bond_more, bond_less, schedule_bond_less, execute_bond_less, cancel_bond_less,
}
use popsicle.Staking.Calls.Pooled.{IsPooled-IsListed, updated-IsPooled, same-IsPooled}
use popsicle.Staking.Calls.Enrolment.{Agrees, to-Agrees}

module _ (T : Config) (c : ℕ) (s : Storage T) (h : Agrees T s) where
  kept :
      (t : Storage T)
      → t.candidate_pool ≡ s.candidate_pool
      → t.candidate_info ≡ s.candidate_info
      → Agrees T t
  kept t p q = to-Agrees T t s.candidate_pool s.candidate_info p q h

  -- The effect of `update_active` on a storage with the pool of `s`.
  update_effect :
      (m : CandidateMetadata) (total : ℕ) (t : Storage T)
      → s.candidate_info c ≡ some m
      → is_active m ≡ true
      → t.candidate_pool ≡ s.candidate_pool
      → update_active T c total t
        ≡ (ok tt, record t { candidate_pool = updated c total t.candidate_pool })
  update_effect m total t e act p =
      (update_active_lem T c total t
        (rw p (IsPooled-IsListed T s.candidate_pool s.candidate_info h c m e act))).0

  pub candidate_bond_more_inner-Agrees :
      (more : ℕ) → Agrees T (candidate_bond_more_inner T c more s).1
  unfolding candidate_bond_more_inner bond_more
  candidate_bond_more_inner-Agrees more =
      let fails : ((candidate_bond_more_inner T c more s).1.candidate_pool ≡ s.candidate_pool)
          → ((candidate_bond_more_inner T c more s).1.candidate_info ≡ s.candidate_info)
          → Agrees T (candidate_bond_more_inner T c more s).1 =
        kept (candidate_bond_more_inner T c more s).1 in
      elim (Option-cases (s.candidate_info c)) [
        | inl e ↦ fails (ground (arith, e)) (ground (arith, e))
        | inr (m, e) ↦ elim (Bool-cases (leb more (T.reducible_balance s.ledger c))) [
          | inr poor ↦ fails (ground (arith, e, poor)) (ground (arith, e, poor))
          | inl rich ↦ elim (Option-cases (T.transfer c T.account_id more s.ledger)) [
            | inl f ↦ fails (ground (arith, e, rich, f)) (ground (arith, e, rich, f))
            | inr (l, f) ↦
                let m' : CandidateMetadata = record m {
                  bond = saturating_add m.bond more;
                  total_counted = saturating_add m.total_counted more;
                } in
                let t : Storage T = record s {
                  total = saturating_add s.total more;
                  ledger = l;
                  events = candidate_bonded_more c more m'.bond ∷ s.events;
                  candidate_info = update s.candidate_info c (some m');
                } in
                elim (Bool-cases (is_active m)) [
                  | inl act ↦
                      to-Agrees T (candidate_bond_more_inner T c more s).1
                        (updated c m'.total_counted s.candidate_pool)
                        (update s.candidate_info c (some m'))
                        (ground
                          (arith, e, rich, f, act, update_effect m m'.total_counted t e act refl))
                        (ground
                          (arith, e, rich, f, act, update_effect m m'.total_counted t e act refl))
                        (updated-IsPooled T s.candidate_pool s.candidate_info h c m m' e act act)
                  | inr idle ↦
                      to-Agrees T (candidate_bond_more_inner T c more s).1 s.candidate_pool
                        (update s.candidate_info c (some m')) (ground (arith, e, rich, f, idle))
                        (ground (arith, e, rich, f, idle))
                        (same-IsPooled T s.candidate_pool s.candidate_info h c m'
                          (ground (arith, e, idle)))
                ]
          ]
        ]
      ]

  pub schedule_candidate_bond_less-Agrees :
      (less : ℕ) → Agrees T (schedule_candidate_bond_less T (signed c) less s).1
  unfolding schedule_candidate_bond_less schedule_bond_less
  schedule_candidate_bond_less-Agrees less =
      let fails : ((schedule_candidate_bond_less T (signed c) less s).1.candidate_pool
            ≡ s.candidate_pool)
          → ((schedule_candidate_bond_less T (signed c) less s).1.candidate_info ≡ s.candidate_info)
          → Agrees T (schedule_candidate_bond_less T (signed c) less s).1 =
        kept (schedule_candidate_bond_less T (signed c) less s).1 in
      elim (Option-cases (s.candidate_info c)) [
        | inl e ↦ fails (ground (arith, e)) (ground (arith, e))
        | inr (m, e) ↦ elim (Option-cases m.request) [
          | inr (r, f) ↦ fails (ground (arith, e, f)) (ground (arith, e, f))
          | inl f ↦ elim (Bool-cases (ltb less m.bond)) [
            | inr much ↦ fails (ground (arith, e, f, much)) (ground (arith, e, f, much))
            | inl some_left ↦
                let m' : CandidateMetadata = record m {
                  request = some (record {
                    amount = less;
                    when_executable = add_u32 s.round.current T.candidate_bond_less_delay;
                  });
                } in
                to-Agrees T (schedule_candidate_bond_less T (signed c) less s).1 s.candidate_pool
                  (update s.candidate_info c (some m')) (ground (arith, e, f, some_left))
                  (ground (arith, e, f, some_left))
                  (same-IsPooled T s.candidate_pool s.candidate_info h c m' (ground (arith, e)))
          ]
        ]
      ]

  pub cancel_candidate_bond_less-Agrees : Agrees T (cancel_candidate_bond_less T (signed c) s).1
  unfolding cancel_candidate_bond_less cancel_bond_less
  cancel_candidate_bond_less-Agrees = elim (Option-cases (s.candidate_info c)) [
    | inl e ↦
        kept (cancel_candidate_bond_less T (signed c) s).1 (ground (arith, e)) (ground (arith, e))
    | inr (m, e) ↦ elim (Option-cases m.request) [
      | inl f ↦
          kept (cancel_candidate_bond_less T (signed c) s).1 (ground (arith, e, f))
            (ground (arith, e, f))
      | inr (r, f) ↦
          to-Agrees T (cancel_candidate_bond_less T (signed c) s).1 s.candidate_pool
            (update s.candidate_info c (some (record m { request = none }))) (ground (arith, e, f))
            (ground (arith, e, f))
            (same-IsPooled T s.candidate_pool s.candidate_info h c (record m { request = none })
              (ground (arith, e)))
    ]
  ]

  -- What `bond_less` leaves when the request `r` is executed and paid.
  module _ (m : CandidateMetadata) (r : CandidateBondLessRequest) (l : T.Ledger)
      (e : s.candidate_info c ≡ some m) (f : m.request ≡ some r)
      (due : leb r.when_executable s.round.current ≡ true)
      (paid : T.transfer T.account_id c r.amount s.ledger ≡ some l) where
    less : CandidateMetadata
    less = record m {
      bond = saturating_sub m.bond r.amount;
      total_counted = saturating_sub m.total_counted r.amount;
      request = none;
    }

    executed-Agrees : Agrees T (execute_candidate_bond_less_inner T c s).1
    unfolding execute_candidate_bond_less_inner execute_bond_less bond_less less
    executed-Agrees =
        let t : Storage T = record s { total = saturating_sub s.total r.amount; ledger = l } in
        elim (Bool-cases (is_active m)) [
          | inl act ↦
              to-Agrees T (execute_candidate_bond_less_inner T c s).1
                (updated c less.total_counted s.candidate_pool)
                (update s.candidate_info c (some less))
                (ground
                  (arith, e, f, due, paid, act, update_effect m less.total_counted t e act refl))
                (ground
                  (arith, e, f, due, paid, act, update_effect m less.total_counted t e act refl))
                (updated-IsPooled T s.candidate_pool s.candidate_info h c m less e act act)
          | inr idle ↦
              to-Agrees T (execute_candidate_bond_less_inner T c s).1 s.candidate_pool
                (update s.candidate_info c (some less)) (ground (arith, e, f, due, paid, idle))
                (ground (arith, e, f, due, paid, idle))
                (same-IsPooled T s.candidate_pool s.candidate_info h c less
                  (ground (arith, e, idle)))
        ]

  pub execute_candidate_bond_less_inner-Agrees :
      Agrees T (execute_candidate_bond_less_inner T c s).1
  unfolding execute_candidate_bond_less_inner execute_bond_less bond_less
  execute_candidate_bond_less_inner-Agrees =
      let fails : ((execute_candidate_bond_less_inner T c s).1.candidate_pool ≡ s.candidate_pool)
          → ((execute_candidate_bond_less_inner T c s).1.candidate_info ≡ s.candidate_info)
          → Agrees T (execute_candidate_bond_less_inner T c s).1 =
        kept (execute_candidate_bond_less_inner T c s).1 in
      elim (Option-cases (s.candidate_info c)) [
        | inl e ↦ fails (ground (arith, e)) (ground (arith, e))
        | inr (m, e) ↦ elim (Option-cases m.request) [
          | inl f ↦ fails (ground (arith, e, f)) (ground (arith, e, f))
          | inr (r, f) ↦ elim (Bool-cases (leb r.when_executable s.round.current)) [
            | inr early ↦ fails (ground (arith, e, f, early)) (ground (arith, e, f, early))
            | inl due ↦ elim (Option-cases (T.transfer T.account_id c r.amount s.ledger)) [
              | inl stuck ↦
                  fails (ground (arith, e, f, due, stuck)) (ground (arith, e, f, due, stuck))
              | inr (l, paid) ↦ executed-Agrees m r l e f due paid
            ]
          ]
        ]
      ]
