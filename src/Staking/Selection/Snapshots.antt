-- ===== src/Staking/Selection/Snapshots.antt =====
-- The snapshots that `select_top_candidates` of pallets/sequencer-staking/src/lib.rs takes.
use popsicle.Prelude.{
  ℕ, ◌+◌, ◌≤◌, ◌≡◌, ◌≢◌, refl, ◌∙◌, inl, inr, Bool, true, false, not, Bool-cases, none, some, List,
  [], ◌∷◌, All, filter, update, any, ◌==◌, ==_self, sort_insert, arith, min, length, max_u32,
}
use popsicle.Prelude.Effects.{ok}
use popsicle.Staking.Types.{SequencerSnapshot, CandidateMetadata, Delegations}
use popsicle.Staking.Storage.{Config, Storage, sequencer_chosen}
use popsicle.Staking.Selection.{
  stake_of, insert_stake, Selected, add_selected, snapshot_of, count_delegations,
  get_rewardable_delegators, snapshot_candidate, snapshot_candidates,
}

abbrev Stakes : Type 0
Stakes = List (ℕ × SequencerSnapshot)

-- The entries of a map: no key occurs twice.
abbrev pub AreDistinct : List (ℕ × SequencerSnapshot) → Type 0
AreDistinct [] = Unit
AreDistinct (x ∷ xs) = (stake_of x.0 xs ≡ none) × AreDistinct xs

stake_of-filter_self :
    (a : ℕ) (es : Stakes)
    → stake_of a (filter (λ (x : ℕ × SequencerSnapshot). not (x.0 == a)) es) ≡ none
stake_of-filter_self a [] = refl
stake_of-filter_self a (e ∷ es) = ground (arith, stake_of-filter_self a es)

stake_of-filter_ne :
    (a c : ℕ) (es : Stakes)
    → c ≢ a
    → stake_of c (filter (λ (x : ℕ × SequencerSnapshot). not (x.0 == a)) es) ≡ stake_of c es
stake_of-filter_ne a c [] ne = refl
stake_of-filter_ne a c (e ∷ es) ne = ground (arith, stake_of-filter_ne a c es ne)

stake_of-filter-none :
    (a c : ℕ) (es : Stakes)
    → stake_of c es ≡ none
    → stake_of c (filter (λ (x : ℕ × SequencerSnapshot). not (x.0 == a)) es) ≡ none
stake_of-filter-none a c [] h = refl
stake_of-filter-none a c (e ∷ es) h = ground (arith, stake_of-filter-none a c es, h)

filter-AreDistinct :
    (a : ℕ) (es : Stakes)
    → AreDistinct es
    → AreDistinct (filter (λ (x : ℕ × SequencerSnapshot). not (x.0 == a)) es)
filter-AreDistinct a [] h = tt
filter-AreDistinct a (e ∷ es) h = elim (Bool-cases (e.0 == a)) [
  | inl here ↦ rw here (filter-AreDistinct a es h.1)
  | inr away ↦ rw away (stake_of-filter-none a e.0 es h.0, filter-AreDistinct a es h.1)
]

module _ (before : ℕ → ℕ → Bool) (a : ℕ) (x : SequencerSnapshot) where
  abbrev placed : Stakes → Stakes
  placed = sort_insert (λ (x y : ℕ × SequencerSnapshot). before x.0 y.0) (a, x)

  stake_of-placed_self : (es : Stakes) → stake_of a es ≡ none → stake_of a (placed es) ≡ some x
  stake_of-placed_self [] h = ground (arith, ==_self a)
  stake_of-placed_self (e ∷ es) h =
      ground (arith, ==_self a, stake_of-placed_self es, Bool-cases (before a e.0))

  stake_of-placed_ne : (c : ℕ) (es : Stakes) → c ≢ a → stake_of c (placed es) ≡ stake_of c es
  stake_of-placed_ne c [] ne = ground arith
  stake_of-placed_ne c (e ∷ es) ne =
      ground (arith, stake_of-placed_ne c es ne, Bool-cases (before a e.0))

  placed-AreDistinct :
      (es : Stakes) → stake_of a es ≡ none → AreDistinct es → AreDistinct (placed es)
  placed-AreDistinct [] e h = (refl, tt)
  placed-AreDistinct (y ∷ es) e h = elim (Bool-cases (before a y.0)) [
    | inl first ↦ rw first (e, h)
    | inr later ↦
        let fresh : stake_of a es ≡ none = ground (arith, e) in
        rw later (
          stake_of-placed_ne y.0 es (λ q. ground (arith, e, q)) ∙ h.0,
          placed-AreDistinct es fresh h.1,
        )
  ]

  pub insert_stake-AreDistinct :
      (es : Stakes) → AreDistinct es → AreDistinct (insert_stake before a x es)
  unfolding insert_stake
  insert_stake-AreDistinct es h =
      placed-AreDistinct (filter (λ (x : ℕ × SequencerSnapshot). not (x.0 == a)) es)
        (stake_of-filter_self a es) (filter-AreDistinct a es h)

  pub stake_of-insert_stake_self : (es : Stakes) → stake_of a (insert_stake before a x es) ≡ some x
  unfolding insert_stake
  stake_of-insert_stake_self es =
      stake_of-placed_self (filter (λ (x : ℕ × SequencerSnapshot). not (x.0 == a)) es)
        (stake_of-filter_self a es)

  pub stake_of-insert_stake_ne :
      (c : ℕ) (es : Stakes) → c ≢ a → stake_of c (insert_stake before a x es) ≡ stake_of c es
  unfolding insert_stake
  stake_of-insert_stake_ne c es ne = ground (
    arith,
    stake_of-placed_ne c (filter (λ (x : ℕ × SequencerSnapshot). not (x.0 == a)) es) ne,
    stake_of-filter_ne a c es ne,
  )

-- A candidate whose metadata and top delegations are stored.
pub record IsKnown (T : Config) (s : Storage T) (c : ℕ) : Type 0 where
  pub state : CandidateMetadata
  pub top : Delegations
  pub has_state : s.candidate_info c ≡ some state
  pub has_top : s.top_delegations c ≡ some top

-- The snapshot that a storage gives of a known candidate.
abbrev pub snapshot_at :
    (T : Config) (s : Storage T) → CandidateMetadata → Delegations → ℕ → SequencerSnapshot
snapshot_at T s m top c =
    snapshot_of m (count_delegations (s.delegation_scheduled_requests c) 0 top.delegations)

-- Nothing but the snapshots and the events differs.
abbrev pub SameButStakes : (T : Config) → Storage T → Storage T → Type 0
SameButStakes T s t = t ≡ record s { at_stake = t.at_stake; events = t.events }

-- `t` is `s` with a snapshot for each of `cs` in the round `next`.
pub record IsSnapshotted (T : Config) (next : ℕ) (cs : List ℕ) (s t : Storage T) : Type 0 where
  pub same : SameButStakes T s t
  pub rounds : (r : ℕ) → r ≢ next → t.at_stake r ≡ s.at_stake r
  pub distinct : AreDistinct (s.at_stake next) → AreDistinct (t.at_stake next)
  pub taken :
      (c : ℕ)
      → any (λ (d : ℕ). d == c) cs ≡ true
      → (m : CandidateMetadata) × (top : Delegations) × (s.candidate_info c ≡ some m)
        × (s.top_delegations c ≡ some top)
        × (stake_of c (t.at_stake next) ≡ some (snapshot_at T s m top c))
  pub others :
      (c : ℕ)
      → any (λ (d : ℕ). d == c) cs ≡ false
      → stake_of c (t.at_stake next) ≡ stake_of c (s.at_stake next)

module _ (T : Config) (next : ℕ) where
  -- the storage after one round of the loop
  abbrev after_one : ℕ → CandidateMetadata → Delegations → Storage T → Storage T
  after_one c m top s = record s {
    at_stake =
        update s.at_stake next
          (insert_stake T.key_before c (snapshot_at T s m top c) (s.at_stake next));
    events = sequencer_chosen next c m.total_counted ∷ s.events;
  }

  snapshot_candidate_lem :
      (c : ℕ) (x : Selected) (s : Storage T) (k : IsKnown T s c)
      → snapshot_candidate T next c x s ≡ (
        ok (add_selected x k.state.delegation_count k.state.total_counted),
        after_one c k.state k.top s,
      )
  unfolding snapshot_candidate get_rewardable_delegators
  snapshot_candidate_lem c x s k = ground (arith, k.has_state, k.has_top)

  IsKnown-after :
      (c : ℕ) (m : CandidateMetadata) (top : Delegations) (s : Storage T) (cs : List ℕ)
      → All (IsKnown T s) cs
      → All (IsKnown T (after_one c m top s)) cs
  IsKnown-after c m top s [] h = tt
  IsKnown-after c m top s (d ∷ cs) h = (
    record { state = h.0.state; top = h.0.top; has_state = h.0.has_state; has_top = h.0.has_top },
    IsKnown-after c m top s cs h.1,
  )

  one_then :
      (c : ℕ) (s t : Storage T) (cs : List ℕ) (k : IsKnown T s c)
      → IsSnapshotted T next cs (after_one c k.state k.top s) t
      → IsSnapshotted T next (c ∷ cs) s t
  one_then c s t cs k i = record {
    same = i.same;
    rounds = λ r ne. ground (arith, i.rounds r ne, ne);
    distinct = λ h. i.distinct (
        rw (==_self next) (
          insert_stake-AreDistinct T.key_before c (snapshot_at T s k.state k.top c)
            (s.at_stake next) h));
    taken = λ d e. elim (Bool-cases (any (λ (x : ℕ). x == d) cs)) [
      | inl later ↦ i.taken d later
      | inr not_later ↦
          let here : d ≡ c = ground (arith, e, not_later) in
          rw here (
            k.state,
            k.top,
            k.has_state,
            k.has_top,
            ground (
              arith,
              i.others c (ground (arith, here, not_later)),
              ==_self next,
              stake_of-insert_stake_self T.key_before c (snapshot_at T s k.state k.top c)
                  (s.at_stake next),
            ),
          )
    ];
    others = λ d e. ground (
      arith,
      i.others d (ground (arith, e)),
      ==_self next,
      stake_of-insert_stake_ne T.key_before c (snapshot_at T s k.state k.top c) d (s.at_stake next)
          (λ q. ground (arith, e, q)),
    );
  }

  -- The loop ends with a value, whatever the counts are at its start.
  pub snapshot_candidates-IsSnapshotted :
      (cs : List ℕ) (x : Selected) (s : Storage T)
      → x.sequencer_count ≤ max_u32
      → All (IsKnown T s) cs
      → (y : Selected) × (t : Storage T) × (snapshot_candidates T next cs x s ≡ (ok y, t))
        × IsSnapshotted T next cs s t
        × (y.sequencer_count ≡ min (x.sequencer_count + length cs) max_u32)
  unfolding snapshot_candidates
  snapshot_candidates-IsSnapshotted [] x s le h = (
    x,
    s,
    refl,
    record {
      same = refl;
      rounds = λ r ne. refl;
      distinct = λ h. h;
      taken = λ c e. cc;
      others = λ c e. refl;
    },
    omega arith,
  )
  snapshot_candidates-IsSnapshotted (c ∷ cs) x s le h =
      let (y, t, e, i, n) =
        snapshot_candidates-IsSnapshotted cs
          (add_selected x h.0.state.delegation_count h.0.state.total_counted)
          (after_one c h.0.state h.0.top s) (omega arith)
          (IsKnown-after c h.0.state h.0.top s cs h.1) in
      (
        y,
        t,
        ground (arith, snapshot_candidate_lem c x s h.0, e),
        one_then c s t cs h.0 i,
        omega (arith, n),
      )
