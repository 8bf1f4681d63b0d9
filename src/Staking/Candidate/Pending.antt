-- ===== src/Staking/Candidate/Pending.antt =====
-- The requests of a delegator to a candidate, and `delegation_remove_request_with_state` of
-- pallets/sequencer-staking/src/delegation_requests.rs.
use popsicle.Prelude.{
  ℕ, ◌-◌, ◌≡◌, ◌≢◌, ◌⊎◌, refl, inl, inr, not, none, some, List, [], ◌∷◌, filter, position,
  get_elem?, remove_at, update, suc, ◌==◌, Bool-cases, arith,
}
use popsicle.Prelude.Effects.{ok}
use popsicle.Staking.Types.{Delegator, ScheduledRequest, action_amount}
use popsicle.Staking.Storage.{Config, Storage}
use popsicle.Staking.Delegator.{cancel_request_with_state, delegation_remove_request_with_state}

-- The requests of a delegator, and those of all others.
abbrev pub requests_of : ℕ → List ScheduledRequest → List ScheduledRequest
requests_of who = filter λ (r : ScheduledRequest). r.delegator == who

abbrev pub requests_but : ℕ → List ScheduledRequest → List ScheduledRequest
requests_but who = filter λ (r : ScheduledRequest). not (r.delegator == who)

abbrev pub first_amount : List ScheduledRequest → ℕ
first_amount [] = 0
first_amount (r ∷ rs) = action_amount r.action

abbrev pub after_first : List ScheduledRequest → List ScheduledRequest
after_first [] = []
after_first (r ∷ rs) = rs

position-cases :
    (who : ℕ) (rs : List ScheduledRequest)
    → ((position (λ (r : ScheduledRequest). r.delegator == who) rs ≡ none)
        × (requests_of who rs ≡ []))
      ⊎ ((i : ℕ) × (r : ScheduledRequest) × (position
              (λ (q : ScheduledRequest). q.delegator == who)
              rs
            ≡ some i)
          × (get_elem? rs i ≡ some r)
          × (requests_of who rs ≡ r ∷ requests_of who (remove_at i rs))
          × (requests_but who (remove_at i rs) ≡ requests_but who rs))
position-cases who [] = inl (refl, refl)
position-cases who (x ∷ xs) = elim (Bool-cases (x.delegator == who)) [
  | inl here ↦ inr (0, x, ground (arith, here), refl, ground (arith, here), ground (arith, here))
  | inr away ↦ elim (position-cases who xs) [
    | inl (p, e) ↦ inl (ground (arith, away, p), ground (arith, away, e))
    | inr (i, r, p, g, e, f) ↦
        inr (suc i, r, ground (arith, away, p), g, ground (arith, away, e), ground (arith, away, f))
  ]
]

-- The first request of the delegator to the candidate is gone, with its amount; no other is.
pub record Dropped (T : Config) (c who : ℕ) (s t : Storage T) : Type 0 where
  pub own :
      requests_of who (t.delegation_scheduled_requests c)
      ≡ after_first (requests_of who (s.delegation_scheduled_requests c))
  pub others :
      requests_but who (t.delegation_scheduled_requests c)
      ≡ requests_but who (s.delegation_scheduled_requests c)
  pub elsewhere :
      (j : ℕ) → j ≢ c → t.delegation_scheduled_requests j ≡ s.delegation_scheduled_requests j

pub remove_request-Dropped :
    (T : Config) (c who : ℕ) (d : Delegator) (s : Storage T)
    → (rs : ℕ → List ScheduledRequest) × (delegation_remove_request_with_state T c who d s ≡ (
      ok (record d {
        less_total =
            d.less_total - first_amount (requests_of who (s.delegation_scheduled_requests c));
      }),
      record s { delegation_scheduled_requests = rs },
    ))
      × Dropped T c who s (record s { delegation_scheduled_requests = rs })
unfolding delegation_remove_request_with_state cancel_request_with_state
remove_request-Dropped T c who d s = elim (position-cases who (s.delegation_scheduled_requests c)) [
  | inl (p, e) ↦ (
    s.delegation_scheduled_requests,
    ground (arith, p, e),
    record { own = ground (arith, e); others = refl; elsewhere = λ j ne. refl },
  )
  | inr (i, r, p, g, e, f) ↦ (
    update s.delegation_scheduled_requests c (remove_at i (s.delegation_scheduled_requests c)),
    ground (arith, p, g, e),
    record {
      own = ground (arith, e);
      others = ground (arith, f);
      elsewhere = λ j ne. ground (arith, ne);
    },
  )
]
