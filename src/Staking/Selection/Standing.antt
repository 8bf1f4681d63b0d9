-- ===== src/Staking/Selection/Standing.antt =====
-- `select_top_candidates` of pallets/sequencer-staking/src/lib.rs where no candidate can be selected:
-- the sequencers of the round before stand.
use popsicle.Prelude.{
  ℕ, ◌-◌, ◌≡◌, ◌≢◌, refl, ap, inl, inr, true, Bool-cases, Option-cases, none, some, List, [], ◌∷◌,
  ◌⊎◌, All, any, update, ◌==◌, ==_self, ==_iff, arith,
}
use popsicle.Prelude.Effects.{ok, panic}
use popsicle.Staking.Types.{SequencerSnapshot}
use popsicle.Staking.Storage.{Config, Storage, sequencer_chosen}
use popsicle.Staking.Selection.{
  Selected, stake_of, insert_stake, compute_top_candidates, copy_snapshots, announce_again,
  select_sequencers, select_top_candidates,
}
use popsicle.Staking.Selection.Snapshots.{
  AreDistinct, insert_stake-AreDistinct, SameButStakes, stake_of-insert_stake_self,
  stake_of-insert_stake_ne,
}

-- `t` is `s` with the given snapshots in the round `next`.
pub record IsCopied (T : Config) (next : ℕ) (entries : List (ℕ × SequencerSnapshot))
    (s t : Storage T) : Type 0 where
  pub same : SameButStakes T s t
  pub rounds : (r : ℕ) → r ≢ next → t.at_stake r ≡ s.at_stake r
  pub carried :
      (c : ℕ) (x : SequencerSnapshot)
      → stake_of c entries ≡ some x
      → stake_of c (t.at_stake next) ≡ some x
  pub distinct : AreDistinct (s.at_stake next) → AreDistinct (t.at_stake next)
  pub others :
      (c : ℕ)
      → stake_of c entries ≡ none
      → stake_of c (t.at_stake next) ≡ stake_of c (s.at_stake next)

module _ (T : Config) (next : ℕ) where
  abbrev with_copy : ℕ → SequencerSnapshot → Storage T → Storage T
  with_copy c x s = record s {
    at_stake = update s.at_stake next (insert_stake T.key_before c x (s.at_stake next));
  }

  copy_then :
      (c : ℕ) (x : SequencerSnapshot) (xs : List (ℕ × SequencerSnapshot)) (s t : Storage T)
      → stake_of c xs ≡ none
      → IsCopied T next xs (with_copy c x s) t
      → IsCopied T next ((c, x) ∷ xs) s t
  copy_then c x xs s t fresh i = record {
    same = i.same;
    rounds = λ r ne. ground (arith, i.rounds r ne, ne);
    carried = λ d y e. elim (Bool-cases (c == d)) [
      | inl here ↦ ground (
        arith,
        here,
        e,
        ==_iff c d,
        i.others c fresh,
        ==_self next,
        stake_of-insert_stake_self T.key_before c x (s.at_stake next),
      )
      | inr away ↦ i.carried d y (ground (arith, e, away))
    ];
    distinct = λ h.
        i.distinct
          (rw (==_self next) (insert_stake-AreDistinct T.key_before c x (s.at_stake next) h));
    others = λ d e. ground (
      arith,
      i.others d (ground (arith, e)),
      ==_self next,
      stake_of-insert_stake_ne T.key_before c x d (s.at_stake next)
          (λ q. ground (arith, e, q, ==_iff c d)),
    );
  }

  copy_snapshots-IsCopied :
      (xs : List (ℕ × SequencerSnapshot)) (n : Selected) (s : Storage T)
      → AreDistinct xs
      → (counts : Selected) × (t : Storage T) × (copy_snapshots T next xs n s ≡ (ok counts, t))
        × IsCopied T next xs s t
  unfolding copy_snapshots
  copy_snapshots-IsCopied [] n s h = (
    n,
    s,
    refl,
    record {
      same = refl;
      rounds = λ r ne. refl;
      carried = λ c x e. cc;
      distinct = λ h. h;
      others = λ c e. refl;
    },
  )
  copy_snapshots-IsCopied ((c, x) ∷ xs) n s h =
      let (counts, t, e, i) = copy_snapshots-IsCopied xs _ (with_copy c x s) h.1 in
      (counts, t, e, copy_then c x xs s t h.0 i)

  -- The announcement ends with a value exactly where every sequencer has a snapshot.
  announce_again_ok :
      (entries : List (ℕ × SequencerSnapshot)) (cs : List ℕ) (s : Storage T)
      → All (λ c. stake_of c entries ≢ none) cs
      → (t : Storage T) × (announce_again T next entries cs s ≡ (ok tt, t))
        × (t ≡ record s { events = t.events })
  unfolding announce_again
  announce_again_ok entries [] s h = (s, refl, refl)
  announce_again_ok entries (c ∷ cs) s h = elim (Option-cases (stake_of c entries)) [
    | inl e ↦ absurd (h.0 e)
    | inr (x, e) ↦
        let (t, r, same) =
          announce_again_ok entries cs
            (record s { events = sequencer_chosen next c x.total ∷ s.events }) h.1 in
        (t, ground (arith, e, r), same)
  ]

  -- It panics at a sequencer without a snapshot.
  announce_again_panics :
      (entries : List (ℕ × SequencerSnapshot)) (cs : List ℕ) (c : ℕ) (s : Storage T)
      → any (λ (d : ℕ). d == c) cs ≡ true
      → stake_of c entries ≡ none
      → (announce_again T next entries cs s).0 ≡ panic
  unfolding announce_again
  announce_again_panics entries [] c s h e = cc
  announce_again_panics entries (d ∷ cs) c s h e = elim (Option-cases (stake_of d entries)) [
    | inl f ↦ ground (arith, f)
    | inr (x, f) ↦
        let later : any (λ (d : ℕ). d == c) cs ≡ true = elim (Bool-cases (d == c)) [
          | inl here ↦ ground (arith, h, e, f, here, ==_iff d c)
          | inr away ↦ ground (arith, h, away)
        ] in
        ground (
          arith,
          f,
          announce_again_panics entries cs c
              (record s { events = sequencer_chosen next d x.total ∷ s.events }) later e,
        )
  ]

-- No candidate can be selected.
abbrev pub NoneToSelect : (T : Config) → ℕ → Storage T → Type 0
NoneToSelect T n s = (n ≡ 0) ⊎ (s.candidate_pool ≡ [])

none_selected :
    (T : Config) (n : ℕ) (s : Storage T)
    → NoneToSelect T n s
    → compute_top_candidates n s.candidate_pool ≡ []
unfolding compute_top_candidates
none_selected T n s (inl e) = ground (arith, e)
none_selected T n s (inr e) = rw e (ground arith)

module _ (T : Config) (n next : ℕ) (s : Storage T) (empty : NoneToSelect T n s)
    (distinct : AreDistinct (s.at_stake (next - 1))) where
  -- Where the number to select is 0 or the pool is empty, and each selected sequencer has a snapshot
  -- in the round before `next`, the selection ends with a value: it copies the snapshots of that
  -- round, so that each selected sequencer has the same snapshot in `next`, and changes nothing else
  -- but the events.
  pub select_top_candidates-IsCopied :
      All (λ c. stake_of c (s.at_stake (next - 1)) ≢ none) s.selected_candidates
      → (counts : Selected) × (t : Storage T) × (select_top_candidates T n next s ≡ (ok counts, t))
        × IsCopied T next (s.at_stake (next - 1)) s t
  unfolding select_top_candidates select_sequencers
  select_top_candidates-IsCopied have =
      let (counts, u, e, i) =
        copy_snapshots-IsCopied T next (s.at_stake (next - 1))
          (record { sequencer_count = 0; delegation_count = 0; total = 0 }) s distinct in
      let (t, r, same) =
        announce_again_ok T next (s.at_stake (next - 1)) s.selected_candidates u have in
      (
        counts,
        t,
        ground (arith, none_selected T n s empty, e, r),
        rw same (record {
          same = ap (λ (v : Storage T). record v { events = t.events }) i.same;
          rounds = i.rounds;
          carried = i.carried;
          distinct = i.distinct;
          others = i.others;
        }),
      )

  -- Where the number to select is 0 or the pool is empty, and some selected sequencer has no snapshot
  -- in the round before `next`, the selection panics.
  pub select_top_candidates-panics :
      (c : ℕ)
      → any (λ (d : ℕ). d == c) s.selected_candidates ≡ true
      → stake_of c (s.at_stake (next - 1)) ≡ none
      → (select_top_candidates T n next s).0 ≡ panic
  unfolding select_top_candidates select_sequencers
  select_top_candidates-panics c listed missing =
      let (counts, u, e, i) =
        copy_snapshots-IsCopied T next (s.at_stake (next - 1))
          (record { sequencer_count = 0; delegation_count = 0; total = 0 }) s distinct in
      ground (
        arith,
        none_selected T n s empty,
        e,
        announce_again_panics T next (s.at_stake (next - 1)) s.selected_candidates c u listed
            missing,
      )
