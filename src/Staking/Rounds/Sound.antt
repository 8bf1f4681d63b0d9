-- ===== src/Staking/Rounds/Sound.antt =====
-- What the selection of pallets/sequencer-staking/src/lib.rs needs to end with a value, and what of it
-- the hook of a block keeps.
use popsicle.Prelude.{
  ℕ, ◌-◌, ◌≡◌, ◌≢◌, sym, ap, subst, ◌∙◌, inl, inr, true, Bool-cases, List-cases, Option-cases, none,
  List, [], ◌∷◌, All, any, ◌==◌, ==_self, arith,
}
use popsicle.Prelude.Sorted.{All-mono}
use popsicle.Prelude.Effects.{ok}
use popsicle.Staking.Storage.{Config, Storage}
use popsicle.Staking.Calls.Enrolment.{Agrees}
use popsicle.Staking.Selection.{Selected, stake_of, select_top_candidates}
use popsicle.Staking.Selection.Snapshots.{AreDistinct}
use popsicle.Staking.Selection.Choosing.{HasLists, IsSelected, select_top_candidates-IsSelected}
use popsicle.Staking.Selection.Standing.{NoneToSelect, IsCopied, select_top_candidates-IsCopied}
use popsicle.Staking.Payouts.Frame.{IsPayoutStep}
use popsicle.Staking.Rounds.Clock.{HasBegun}

-- Each selected sequencer has a snapshot in the round `q`.
abbrev pub AllStaked : (T : Config) → ℕ → Storage T → Type 0
AllStaked T q s = All (λ c. stake_of c (s.at_stake q) ≢ none) s.selected_candidates

-- What the selection relies on: pool and metadata agree, every candidate has its list, no account is
-- twice in the snapshots of a round.
pub record IsSound (T : Config) (s : Storage T) : Type 0 where
  pub agrees : Agrees T s
  pub lists : HasLists T s
  pub distinct : (q : ℕ) → AreDistinct (s.at_stake q)

All-any :
    (P : ℕ → Type 0) (cs : List ℕ) → ((c : ℕ) → any (λ (d : ℕ). d == c) cs ≡ true → P c) → All P cs
All-any P [] h = tt
All-any P (c ∷ cs) h =
    (h c (ground (arith, ==_self c)), All-any P cs (λ d e. h d (ground (arith, e))))

-- After a selection for the round `q`.
pub record IsChosen (T : Config) (q : ℕ) (s t : Storage T) : Type 0 where
  pub same : t ≡ record s {
    selected_candidates = t.selected_candidates;
    at_stake = t.at_stake;
    events = t.events;
  }
  pub distinct : ((r : ℕ) → AreDistinct (s.at_stake r)) → (r : ℕ) → AreDistinct (t.at_stake r)
  pub staked : AllStaked T q t

pub chosen-round : (T : Config) (q : ℕ) (s t : Storage T) → IsChosen T q s t → t.round ≡ s.round
chosen-round T q s t i = ap (λ (x : Storage T). x.round) i.same

pub paid-round : (T : Config) (r : ℕ) (s t : Storage T) → IsPayoutStep T r s t → t.round ≡ s.round
paid-round T r s t i = ap (λ (x : Storage T). x.round) i.same

module _ (T : Config) (q : ℕ) (s : Storage T) where
  distinct_else :
      (t : Storage T)
      → ((r : ℕ) → r ≢ q → t.at_stake r ≡ s.at_stake r)
      → (AreDistinct (s.at_stake q) → AreDistinct (t.at_stake q))
      → ((r : ℕ) → AreDistinct (s.at_stake r))
      → (r : ℕ) → AreDistinct (t.at_stake r)
  distinct_else t rounds here h r = elim (Bool-cases (r == q)) [
    | inl e ↦ let p : r ≡ q = ground (arith, e) in rw p (here (h q))
    | inr e ↦ subst AreDistinct (sym (rounds r (λ p. ground (arith, e, p)))) (h r)
  ]

  selected-IsChosen :
      (n : ℕ) (t : Storage T) (counts : Selected) → IsSelected T n q s t counts → IsChosen T q s t
  selected-IsChosen n t counts i = record {
    same = i.snapshots.same;
    distinct = distinct_else t i.snapshots.rounds i.snapshots.distinct;
    staked =
        All-any (λ c. stake_of c (t.at_stake q) ≢ none) t.selected_candidates
          (λ c e f. let (m, top, g, k, stake) = i.snapshots.taken c e in cc);
  }

  copied-IsChosen :
      (t : Storage T)
      → IsCopied T q (s.at_stake (q - 1)) s t
      → AllStaked T (q - 1) s
      → IsChosen T q s t
  copied-IsChosen t i staked = record {
    same =
        i.same
        ∙ ap
            (λ (cs : List ℕ). record s {
              selected_candidates = cs;
              at_stake = t.at_stake;
              events = t.events;
            })
            (sym same_selection);
    distinct = distinct_else t i.rounds i.distinct;
    staked =
        subst (All (λ c. stake_of c (t.at_stake q) ≢ none)) (sym same_selection)
          (All-mono (λ c have. carried c have) s.selected_candidates staked);
  }
    where
      same_selection : t.selected_candidates ≡ s.selected_candidates
      same_selection = ap (λ (v : Storage T). v.selected_candidates) i.same

      carried : (c : ℕ) → stake_of c (s.at_stake (q - 1)) ≢ none → stake_of c (t.at_stake q) ≢ none
      carried c have e = elim (Option-cases (stake_of c (s.at_stake (q - 1)))) [
        | inl f ↦ absurd (have f)
        | inr (x, f) ↦ let g = i.carried c x f in ground (arith, g, e)
      ]

-- A selection for the next round ends with a value, where its candidates or the sequencers of this
-- round have what it needs.
pub select_top_candidates-IsChosen :
    (T : Config) (n q : ℕ) (s : Storage T)
    → IsSound T s
    → AllStaked T (q - 1) s
    → (counts : Selected) × (t : Storage T) × (select_top_candidates T n q s ≡ (ok counts, t))
      × IsChosen T q s t
select_top_candidates-IsChosen T n q s h staked =
    let copies : NoneToSelect T n s
        → (counts : Selected) × (t : Storage T) × (select_top_candidates T n q s ≡ (ok counts, t))
          × IsChosen T q s t =
      λ empty.
        let (counts, t, e, i) =
          select_top_candidates-IsCopied T n q s empty (h.distinct (q - 1)) staked in
        (counts, t, e, copied-IsChosen T q s t i staked) in
    elim (Bool-cases (n == 0)) [
      | inl e ↦ copies (inl (ground (arith, e)))
      | inr e ↦ elim (List-cases s.candidate_pool) [
        | inl f ↦ copies (inr f)
        | inr (b, bs, f) ↦
            let (counts, t, r, i) =
              select_top_candidates-IsSelected T n q s h.agrees h.lists (ground (arith, e))
                (ground (arith, f)) in
            (counts, t, r, selected-IsChosen T q s n t counts i)
      ]
    ]

module _ (T : Config) (s t : Storage T) (h : IsSound T s) where
  pub begun-IsSound : (n : ℕ) → HasBegun T n s t → IsSound T t
  begun-IsSound n same = record {
    agrees = subst (Agrees T) (sym same) h.agrees;
    lists = subst (HasLists T) (sym same) h.lists;
    distinct =
        subst (λ (v : Storage T). (q : ℕ) → AreDistinct (v.at_stake q)) (sym same) h.distinct;
  }

  pub paid-IsSound : (r : ℕ) → IsPayoutStep T r s t → IsSound T t
  paid-IsSound r i = record {
    agrees = subst (Agrees T) (sym i.same) h.agrees;
    lists = subst (HasLists T) (sym i.same) h.lists;
    distinct = i.distinct h.distinct;
  }

  pub chosen-IsSound : (q : ℕ) → IsChosen T q s t → IsSound T t
  chosen-IsSound q i = record {
    agrees = subst (Agrees T) (sym i.same) h.agrees;
    lists = subst (HasLists T) (sym i.same) h.lists;
    distinct = i.distinct h.distinct;
  }

pub paid-AllStaked :
    (T : Config) (r q : ℕ) (s t : Storage T)
    → IsPayoutStep T r s t
    → q ≢ r
    → AllStaked T q s
    → AllStaked T q t
paid-AllStaked T r q s t i ne h =
    subst (All (λ c. stake_of c (t.at_stake q) ≢ none))
      (sym (ap (λ (v : Storage T). v.selected_candidates) i.same))
      (subst (λ es. All (λ c. stake_of c es ≢ none) s.selected_candidates) (sym (i.stakes q ne)) h)
