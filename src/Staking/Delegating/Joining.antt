-- ===== src/Staking/Delegating/Joining.antt =====
-- What `delegate` of pallets/sequencer-staking/src/lib.rs does where it succeeds.
use popsicle.Prelude.{
  ℕ, ap, ◌∙◌, ◌-◌, ◌+◌, ◌≤◌, ◌<◌, ◌≡◌, ◌⊎◌, inl, inr, true, false, Option, none, some, length,
  saturating_add, max_balance, ==_self, arith, Option-cases,
}
use popsicle.Prelude.Effects.{ok}
use popsicle.Staking.Set.{insert, contains}
use popsicle.Staking.Types.{Bond, bond_key, Delegations, Delegator, CandidateMetadata, is_active}
use popsicle.Staking.Storage.{Config, Storage}
use popsicle.Staking.Delegations.{lowest_delegation_amount}
use popsicle.Staking.Delegations.Sums.{weigh, sum}
use popsicle.Staking.Delegator.{new_delegator, add_delegation}
use popsicle.Staking.Candidate.Book
use popsicle.Staking.Candidate.Invariant.{HasBounds, IsBook}
use popsicle.Staking.Candidate.Untouched.{total-add}
use popsicle.Staking.Candidate.Splitting.{kicked}
use popsicle.Staking.Candidate.Adding.{CanMakeRoom}
use popsicle.Staking.Candidate.Admission.{Admission, add_delegation-Admission}
use popsicle.Staking.Delegating.{net_increase, joined_state, delegate_inner}

abbrev total_of : Option Delegator → ℕ
total_of none = 0
total_of (some d) = d.total

-- An account that may delegate `amount` to an active candidate: its funds and the hints suffice, and
-- it is no candidate and delegates for the first time, or it has room for another delegation and none
-- to this candidate.
pub record IsOpen (T : Config) (candidate delegator amount count_hint hint : ℕ)
    (m : CandidateMetadata) (s : Storage T) : Type 0 where
  pub known : s.candidate_info candidate ≡ some m
  pub active : is_active m ≡ true
  pub funds : amount ≤ T.reducible_balance s.ledger delegator
  pub minimum : T.min_delegation ≤ amount
  pub counted : m.delegation_count ≤ count_hint
  pub place :
      ((s.delegator_state delegator ≡ none) × (s.candidate_info delegator ≡ none))
      ⊎ ((d : Delegator) × (s.delegator_state delegator ≡ some d)
          × (length d.delegations ≤ hint)
          × (length d.delegations < T.max_delegations_per_delegator)
          × (contains bond_key (record { owner = candidate; amount = amount }) d.delegations
              ≡ false))

joined_state-IsOpen :
    (T : Config) (candidate delegator amount count_hint hint : ℕ) (m : CandidateMetadata)
    (s : Storage T)
    → IsOpen T candidate delegator amount count_hint hint m s
    → amount ≤ max_balance
    → (d : Delegator) × (joined_state T candidate delegator amount hint
          (s.delegator_state delegator)
          s
        ≡ (ok d, s))
      × (d.total ≡ saturating_add (total_of (s.delegator_state delegator)) amount)
unfolding joined_state add_delegation new_delegator insert contains
joined_state-IsOpen T candidate delegator amount count_hint hint m s may fits = elim may.place [
  | inl (fresh, outsider) ↦ (
    new_delegator delegator candidate amount,
    ground (arith, fresh, outsider),
    ground (arith, fresh),
  )
  | inr (d, state, within, room, absent) ↦ (
    record d {
      delegations =
          (insert bond_key (record { owner = candidate; amount = amount }) d.delegations).1;
      total = saturating_add d.total amount;
    },
    ground (arith, state, within, room, absent),
    ground (arith, state),
  )
]

-- The storage `t` after `delegate`: the lists and metadata of the candidate are as they should be and
-- hold the new delegation, less the one that was kicked, and the totals have grown.
pub record Delegated (T : Config) (candidate delegator amount : ℕ) (top bottom : Delegations)
    (s t : Storage T) : Type 0 where
  pub m' : CandidateMetadata
  pub top' : Delegations
  pub bottom' : Delegations
  pub info : t.candidate_info candidate ≡ some m'
  pub book : IsBook T candidate m' t top' bottom'
  pub kept :
      (f : Bond → ℕ)
      → weigh f top'.delegations + weigh f bottom'.delegations + weigh f (kicked T bottom)
        ≡ weigh f top.delegations
          + weigh f bottom.delegations
          + f (record { owner = delegator; amount = amount })
  pub total : t.total ≡ saturating_add s.total (amount - sum (kicked T bottom))
  pub state : Delegator
  pub has_state : t.delegator_state delegator ≡ some state
  pub grown : state.total ≡ saturating_add (total_of (s.delegator_state delegator)) amount

module _ (T : Config) (candidate delegator amount count_hint hint : ℕ) (m : CandidateMetadata)
    (s : Storage T) (top bottom : Delegations)
    (may : IsOpen T candidate delegator amount count_hint hint m s)
    (a : Admission T candidate (record { owner = delegator; amount = amount }) m s top bottom) where
  -- the storage once the candidate has the delegation
  admitted : Storage T
  admitted = (Book.add_delegation T candidate (record { owner = delegator; amount = amount }) m s).1

  -- What the total of the pallet grows by.
  less : net_increase amount a.less ≡ amount - sum (kicked T bottom)
  less = elim (Option-cases a.less) [
    | inl e ↦ ground (arith, e, a.less_kicked)
    | inr (l, e) ↦ ground (arith, e, a.less_kicked)
  ]

  effect :
      (d : Delegator) (l : T.Ledger)
      → joined_state T candidate delegator amount hint (s.delegator_state delegator) s ≡ (ok d, s)
      → T.transfer delegator T.account_id amount admitted.ledger ≡ some l
      → let (r, t) = delegate_inner T candidate delegator amount count_hint hint s in
        (r ≡ ok tt)
        × (t.candidate_info candidate ≡ some a.m')
        × (t.top_delegations ≡ admitted.top_delegations)
        × (t.bottom_delegations ≡ admitted.bottom_delegations)
        × (t.candidate_pool ≡ admitted.candidate_pool)
        × (t.delegator_state delegator ≡ some d)
        × (t.total ≡ saturating_add admitted.total (net_increase amount a.less))
  unfolding admitted delegate_inner
  effect d l joins pays = ground (
    arith,
    may.known,
    may.active,
    may.funds,
    may.minimum,
    may.counted,
    joins,
    a.runs,
    pays,
    ==_self candidate,
    ==_self delegator,
  )

  moved-IsBook :
      (t : Storage T)
      → t.top_delegations ≡ admitted.top_delegations
      → t.bottom_delegations ≡ admitted.bottom_delegations
      → t.candidate_pool ≡ admitted.candidate_pool
      → IsBook T candidate a.m' t a.top' a.bottom'
  unfolding admitted
  moved-IsBook t p q r = record {
    has_top = rw p a.book.has_top;
    has_bottom = rw q a.book.has_bottom;
    split = a.book.split;
    caches = a.book.caches;
    listed = rw r a.book.listed;
  }

-- An account that may delegate does so with success to an active candidate with positive bounds, and
-- lists and metadata as they should be, if the delegation has a place there, the lowest of a full
-- bottom can be kicked, the sum of the top and the amount is a balance, and the amount can be
-- transferred after that: lists and metadata are as they should be again and hold the delegation, less
-- the kicked one, the total of the delegator has grown by the amount, and that of the pallet by the
-- amount less that of the kicked one, both within the range of balances.
pub delegate_inner-Delegated :
    (T : Config) (candidate delegator amount count_hint hint : ℕ) (m : CandidateMetadata)
    (s : Storage T) (top bottom : Delegations) (l : T.Ledger)
    → HasBounds T
    → IsOpen T candidate delegator amount count_hint hint m s
    → IsBook T candidate m s top bottom
    → CanMakeRoom T candidate s bottom
    → sum top.delegations + amount ≤ max_balance
    → (length top.delegations < T.max_top_delegations_per_candidate)
      ⊎ (lowest_delegation_amount top < amount)
      ⊎ (length bottom.delegations < T.max_bottom_delegations_per_candidate)
      ⊎ (lowest_delegation_amount bottom < amount)
    → T.transfer delegator T.account_id amount
        (Book.add_delegation T candidate
          (record { owner = delegator; amount = amount })
          m
          s).1.ledger
      ≡ some l
    → let (r, t) = delegate_inner T candidate delegator amount count_hint hint s in
      (r ≡ ok tt) × Delegated T candidate delegator amount top bottom s t
unfolding admitted
delegate_inner-Delegated T candidate delegator amount count_hint hint m s top bottom l h may b ready
      fits place pays =
    let a =
      add_delegation-Admission T candidate (record { owner = delegator; amount = amount }) m s top
        bottom h b ready fits place in
    let (d, joins, grows) =
      joined_state-IsOpen T candidate delegator amount count_hint hint m s may
        (omega (arith, fits)) in
    let done =
      effect T candidate delegator amount count_hint hint m s top bottom may a d l joins pays in
    (
      done.0,
      record {
        m' = a.m';
        top' = a.top';
        bottom' = a.bottom';
        info = done.1;
        book =
            moved-IsBook T candidate delegator amount count_hint hint m s top bottom may a
              (delegate_inner T candidate delegator amount count_hint hint s).1 done.2 done.3
              done.4;
        kept = a.kept;
        total =
            done.6
            ∙ ap (λ n. saturating_add n (net_increase amount a.less))
                (total-add T candidate (record { owner = delegator; amount = amount }) m s)
            ∙ ap (λ n. saturating_add s.total n)
                (less T candidate delegator amount count_hint hint m s top bottom may a);
        state = d;
        has_state = done.5;
        grown = grows;
      },
    )
