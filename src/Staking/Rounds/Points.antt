-- ===== src/Staking/Rounds/Points.antt =====
-- The points of a round in pallets/sequencer-staking/src/lib.rs: the total against those of the
-- sequencers.
use popsicle.Prelude.{
  ℕ, ◌+◌, ◌≤◌, ◌≡◌, refl, inl, inr, Bool-cases, none, List, [], ◌∷◌, update, ◌==◌, subst,
  saturating_add_u32, max_u32, arith,
}
use popsicle.Prelude.Effects.{ok}
use popsicle.Staking.Types.{SequencerSnapshot}
use popsicle.Staking.Storage.{Config, Storage}
use popsicle.Staking.Selection.{stake_of}
use popsicle.Staking.Selection.Snapshots.{AreDistinct}
use popsicle.Staking.Payouts.Bounds.{points_of}
use popsicle.Staking.Rounds.{award_points_to_sequencer}

-- The points of any different accounts in the round `q` are within its total.
abbrev pub AreCounted : (T : Config) → ℕ → Storage T → Type 0
AreCounted T q s =
    (es : List (ℕ × SequencerSnapshot))
    → AreDistinct es
    → points_of (s.awarded_pts q) es ≤ s.points q

points_of-update_ne :
    (pts : ℕ → ℕ) (c v : ℕ) (es : List (ℕ × SequencerSnapshot))
    → stake_of c es ≡ none
    → points_of (update pts c v) es ≡ points_of pts es
points_of-update_ne pts c v [] h = refl
points_of-update_ne pts c v (e ∷ es) h =
    ground (arith, points_of-update_ne pts c v es, h, Bool-cases (e.0 == c))

-- A sequencer's points enter at most once.
points_of-update_le :
    (pts : ℕ → ℕ) (c v p : ℕ) (es : List (ℕ × SequencerSnapshot))
    → v ≤ pts c + p
    → AreDistinct es
    → points_of (update pts c v) es ≤ points_of pts es + p
points_of-update_le pts c v p [] le h = omega arith
points_of-update_le pts c v p (e ∷ es) le h = elim (Bool-cases (e.0 == c)) [
  | inl here ↦
      let same : e.0 ≡ c = ground (arith, here) in
      ground (
        arith,
        same,
        here,
        le,
        points_of-update_ne pts c v es (subst (λ k. stake_of k es ≡ none) same h.0),
      )
  | inr away ↦ ground (arith, away, points_of-update_le pts c v p es le h.1)
]

-- Where the points of any different accounts are within the total of each round, awarding points that
-- the total of the current round has room for succeeds and keeps that so, in every round.
pub award_points_to_sequencer-AreCounted :
    (T : Config) (c p : ℕ) (s : Storage T)
    → ((q : ℕ) → AreCounted T q s)
    → s.points s.round.current + p ≤ max_u32
    → let (r, t) = award_points_to_sequencer T c p s in (r ≡ ok tt) × ((q : ℕ) → AreCounted T q t)
unfolding award_points_to_sequencer
award_points_to_sequencer-AreCounted T c p s h room = (
  refl,
  λ q es d. elim (Bool-cases (q == s.round.current)) [
    | inl here ↦
        let same : q ≡ s.round.current = ground (arith, here) in
        ground (
          arith,
          here,
          same,
          room,
          h s.round.current es d,
          points_of-update_le (s.awarded_pts s.round.current) c
              (saturating_add_u32 (s.awarded_pts s.round.current c) p) p es (omega arith) d,
        )
    | inr away ↦ ground (arith, away, h q es d)
  ],
)
