-- ===== src/Grouping/Dealing.antt =====
-- How the loop of `assign_processors_to_groups` in pallets/sequencer-grouping/src/lib.rs deals the
-- groups out in turns: the list of each processor, what it contains, and how long it is.
use popsicle.Prelude.{
  ℕ, zero, suc, ◌+◌, ◌-◌, ◌*◌, ◌%◌, ◌≤◌, ◌<◌, ◌≡◌, ◌≢◌, ◌↔◌, ◌∙◌, ap, ◌⊎◌, inl, inr, true, List, [],
  ◌∷◌, length, leb, ◌==◌, ==_iff, if◌then◌else◌, arith, Bool-cases,
}
use native.Mathlib.Nat.{suc-mod, mod-lt, mod_self, mod-eq_of_lt}
use popsicle.Grouping.{contains_id}

-- The groups among `k`, …, `k + n - 1` that fall to the processor `i`.
abbrev pub dealt : ℕ → ℕ → ℕ → ℕ → List ℕ
dealt count i k zero = []
dealt count i k (suc n) =
    if k % count == i then k ∷ dealt count i (suc k) n else dealt count i (suc k) n

-- the number of turns until the processor `i` is served, when it is the turn of `r`
abbrev distance : ℕ → ℕ → ℕ → ℕ
distance count i r = if leb r i then i - r else i + count - r

mod_next : (k c : ℕ) → suc (k % c) < c → suc k % c ≡ suc (k % c)
mod_next k c h = suc-mod k c ∙ mod-eq_of_lt h

mod_wrap : (k c : ℕ) → suc (k % c) ≡ c → suc k % c ≡ 0
mod_wrap k c h = suc-mod k c ∙ ap (λ x. x % c) h ∙ mod_self c

distance_waiting :
    (count i k : ℕ)
    → i < count
    → k % count ≢ i
    → suc (distance count i (suc k % count)) ≡ distance count i (k % count)
distance_waiting count i k lt ne =
    ground (arith, mod-lt k {m = count} (omega arith), mod_next k count, mod_wrap k count)

distance_served :
    (count i k : ℕ) → i < count → k % count ≡ i → suc (distance count i (suc k % count)) ≡ count
distance_served count i k lt eq =
    ground (arith, mod-lt k {m = count} (omega arith), mod_next k count, mod_wrap k count)

pub eq-cases : (a b : ℕ) → (a ≡ b) ⊎ (a ≢ b)
eq-cases a b = elim (Bool-cases (a == b)) [
  | inl e ↦ inl ((==_iff a b).0 e)
  | inr e ↦ inr (λ h. ground (arith, e, h))
]

times_suc : (c a : ℕ) → c * suc a ≡ c + c * a
times_suc c a = grind arith

length-dealt-distance :
    (count i k n : ℕ)
    → i < count
    → count * length (dealt count i k n) + distance count i (k % count) < n + count
length-dealt-distance count i k zero lt = ground (arith, mod-lt k {m = count} (omega arith))
length-dealt-distance count i k (suc n) lt =
    let rest = length-dealt-distance count i (suc k) n lt in
    elim (eq-cases (k % count) i) [
      | inl here ↦
          let now : distance count i (k % count) ≡ 0 = ground (arith, here) in
          let longer : length (dealt count i k (suc n)) ≡ suc (length (dealt count i (suc k) n)) =
            ground (arith, here) in
          rw (longer, now)
            (omega (
              arith,
              rest,
              distance_served count i k lt here,
              times_suc count (length (dealt count i (suc k) n)),
            ))
      | inr away ↦ grind (arith, rest, distance_waiting count i k lt away, away)
    ]

cancel : (c a b : ℕ) → c * a < c * suc b → a ≤ b
cancel c a b h = grind arith

-- The share of a processor is bounded where the groups do not exceed the places of all of them.
pub length-dealt :
    (count i n most : ℕ) → i < count → n ≤ count * most → length (dealt count i 0 n) ≤ most
length-dealt count i n most lt few =
    cancel count (length (dealt count i 0 n)) most
      (grind (arith, length-dealt-distance count i 0 n lt))

-- what the list of a processor contains
pub contains_id-dealt :
    (count i k n g : ℕ)
    → (contains_id g (dealt count i k n) ≡ true) ↔ ((k ≤ g) × (g < k + n) × (g % count ≡ i))
contains_id-dealt count i k zero g = (λ e. cc, λ h. absurd (omega (arith, h.0, h.1)))
contains_id-dealt count i k (suc n) g =
    let rest = contains_id-dealt count i (suc k) n g in
    let first = ==_iff (k % count) i in
    elim (eq-cases k g) [
      | inl same ↦ (λ e. ground arith, λ h. ground arith)
      | inr other ↦ (λ e. ground arith, λ h. ground arith)
    ]
