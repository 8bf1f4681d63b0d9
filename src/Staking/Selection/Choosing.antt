-- ===== src/Staking/Selection/Choosing.antt =====
-- `select_top_candidates` of pallets/sequencer-staking/src/lib.rs as a whole, with and without
-- candidates to select.
use popsicle.Prelude.{
  ℕ, zero, suc, ◌≤◌, ◌<◌, ◌≡◌, sym, ap, ◌∙◌, inl, inr, true, Bool-cases, Option-cases, none, some,
  List, [], ◌∷◌, All, any, length, min, ◌==◌, ==_self, max_u32, arith,
}
use popsicle.Prelude.Effects.{ok}
use popsicle.Staking.Types.{Bond, bond_key, CandidateMetadata, Delegations}
use popsicle.Staking.Storage.{Config, Storage}
use popsicle.Staking.Set.Laws.{entry}
use popsicle.Staking.Calls.Pooled.{listing}
use popsicle.Staking.Calls.Enrolment.{Agrees}
use popsicle.Staking.Selection.{
  Selected, compute_top_candidates, select_sequencers, select_top_candidates,
}
use popsicle.Staking.Selection.Top.{IsTop, compute_top_candidates-IsTop, compute_top_candidates-All}
use popsicle.Staking.Selection.Snapshots.{IsKnown, IsSnapshotted, snapshot_candidates-IsSnapshotted}

-- Every candidate has a list of top delegations.
abbrev pub HasLists : (T : Config) → Storage T → Type 0
HasLists T s =
    (c : ℕ) (m : CandidateMetadata)
    → s.candidate_info c ≡ some m
    → (top : Delegations) × (s.top_delegations c ≡ some top)

-- Each bond of a set is the entry of its owner.
entries :
    (whole : List Bond) (P : ℕ → Type 0)
    → ((c : ℕ) (b : Bond) → entry bond_key c whole ≡ some b → P c)
    → (xs : List Bond)
    → ((b : Bond)
        → any (λ (x : Bond). x.owner == b.owner) xs ≡ true
        → (y : Bond) × (entry bond_key b.owner whole ≡ some y))
    → All (λ b. P b.owner) xs
entries whole P f [] h = tt
entries whole P f (x ∷ xs) h =
    let (y, e) = h x (ground (arith, ==_self x.owner)) in
    (f x.owner y e, entries whole P f xs (λ b e. h b (ground (arith, e))))

has_entry :
    (c : ℕ) (xs : List Bond)
    → any (λ (x : Bond). x.owner == c) xs ≡ true
    → (y : Bond) × (entry bond_key c xs ≡ some y)
has_entry c [] h = cc
has_entry c (x ∷ xs) h = elim (Bool-cases (x.owner == c)) [
  | inl e ↦ (x, ground (arith, e))
  | inr e ↦ let (y, f) = has_entry c xs (ground (arith, h, e)) in (y, ground (arith, e, f))
]

module _ (T : Config) (s : Storage T) (h : Agrees T s) (lists : HasLists T s) where
  listed-IsKnown : (c : ℕ) (b : Bond) → entry bond_key c s.candidate_pool ≡ some b → IsKnown T s c
  listed-IsKnown c b e = elim (Option-cases (s.candidate_info c)) [
    | inl f ↦ let absurd : some b ≡ none = sym e ∙ h.agrees c ∙ ap (listing c) f in cc
    | inr (m, f) ↦
        let (top, g) = lists c m f in record { state = m; top = top; has_state = f; has_top = g }
  ]

  all-IsKnown : (n : ℕ) → All (IsKnown T s) (compute_top_candidates n s.candidate_pool)
  all-IsKnown n = compute_top_candidates-All (IsKnown T s) n s.candidate_pool (
      entries s.candidate_pool (IsKnown T s) listed-IsKnown s.candidate_pool
        (λ b e. has_entry b.owner s.candidate_pool e))

-- The outcome of a selection from a pool with candidates.
pub record IsSelected (T : Config) (n next : ℕ) (s t : Storage T) (counts : Selected) : Type 0 where
  pub top : IsTop n s.candidate_pool t.selected_candidates
  pub snapshots :
      IsSnapshotted T next t.selected_candidates
        (record s { selected_candidates = t.selected_candidates })
        t
  pub count : counts.sequencer_count ≡ min (length t.selected_candidates) max_u32

module _ (T : Config) (s : Storage T) (next : ℕ) where
  -- the put after the loop
  select_sequencers_lem :
      (sel : List ℕ)
      → 0 < length sel
      → length sel ≤ T.max_candidates
      → All (IsKnown T s) sel
      → (y : Selected) × (u : Storage T) × (select_sequencers T next sel s
          ≡ (ok y, record u { selected_candidates = sel }))
        × IsSnapshotted T next sel s u
        × (y.sequencer_count ≡ min (length sel) max_u32)
  unfolding select_sequencers
  select_sequencers_lem [] pos le h = let bad : zero ≡ suc zero = omega arith in cc
  select_sequencers_lem (a ∷ rest) pos le h =
      let (y, u, e, i, n) =
        snapshot_candidates-IsSnapshotted T next (a ∷ rest)
          (record { sequencer_count = 0; delegation_count = 0; total = 0 }) s (omega arith) h in
      (y, u, ground (arith, e, le), i, omega (arith, n))

  move_selection :
      (sel : List ℕ) (u : Storage T)
      → IsSnapshotted T next sel s u
      → IsSnapshotted T next sel
          (record s { selected_candidates = sel })
          (record u { selected_candidates = sel })
  move_selection sel u i = record {
    same = ap (λ (v : Storage T). record v { selected_candidates = sel }) i.same;
    rounds = i.rounds;
    distinct = i.distinct;
    taken = i.taken;
    others = i.others;
  }

-- With a positive number `n` to select and a pool that is not empty and agrees with the metadata, where
-- every candidate has its list: the selection for the round `next` ends with a value. It selects the
-- owners of the `n` best bonds of the pool, or of all if there are fewer, by account, and each is
-- followed by its snapshot in `next`; other snapshots and the rest of the storage but the events are
-- as before, and the number of sequencers is returned.
pub select_top_candidates-IsSelected :
    (T : Config) (n next : ℕ) (s : Storage T)
    → Agrees T s
    → HasLists T s
    → 0 < n
    → 0 < length s.candidate_pool
    → (counts : Selected) × (t : Storage T) × (select_top_candidates T n next s ≡ (ok counts, t))
      × IsSelected T n next s t counts
unfolding select_top_candidates
select_top_candidates-IsSelected T n next s h lists pos some_listed =
    let sel : List ℕ = compute_top_candidates n s.candidate_pool in
    let top = compute_top_candidates-IsTop n s.candidate_pool h.ordered in
    let (y, u, e, i, c) =
      select_sequencers_lem T s next sel (omega (arith, top.count))
        (omega (arith, top.count, h.bounded)) (all-IsKnown T s h lists n) in
    (
      y,
      record u { selected_candidates = sel },
      e,
      record { top = top; snapshots = move_selection T s next sel u i; count = c },
    )
