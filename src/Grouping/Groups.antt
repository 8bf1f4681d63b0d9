-- ===== src/Grouping/Groups.antt =====
-- The groups that `trigger_group` of pallets/sequencer-grouping/src/lib.rs forms.
use popsicle.Prelude.{
  ℕ, zero, suc, ◌+◌, ◌*◌, ◌≤◌, ◌<◌, ◌≡◌, refl, some, List, [], ◌∷◌, All, length, length-push,
  length-init, last?, init, push, arith,
}
use popsicle.Grouping.{Config, fill_group, fill_groups}
use popsicle.Grouping.Shuffle.{weigh}

weigh-push : (f : ℕ → ℕ) (xs : List ℕ) (x : ℕ) → weigh f (push xs x) ≡ weigh f xs + f x
weigh-push f [] x = omega arith
weigh-push f (y ∷ ys) x = omega (arith, weigh-push f ys x)

weigh-init :
    (f : ℕ → ℕ) (xs : List ℕ) (x : ℕ) → last? xs ≡ some x → weigh f (init xs) + f x ≡ weigh f xs
weigh-init f [] x e = cc
weigh-init f (y ∷ []) x e = ground arith
weigh-init f (y ∷ z ∷ xs) x e = ground (arith, weigh-init f (z ∷ xs) x e)

last-some : (xs : List ℕ) → 0 < length xs → (x : ℕ) × (last? xs ≡ some x)
last-some [] h = absurd (omega arith)
last-some (x ∷ []) h = (x, refl)
last-some (x ∷ y ∷ xs) h = last-some (y ∷ xs) (omega arith)

-- The inner loop: `n` more candidates join the group, and nobody is lost.
record Filled (bound n : ℕ) (group candidates : List ℕ) : Type 0 where
  full : List ℕ
  rest : List ℕ
  runs : fill_group bound n group candidates ≡ some (full, rest)
  size : length full ≡ length group + n
  left : length rest + n ≡ length candidates
  kept : (f : ℕ → ℕ) → weigh f full + weigh f rest ≡ weigh f group + weigh f candidates

fill_group-Filled :
    (bound n : ℕ) (group candidates : List ℕ)
    → length group + n ≤ bound
    → n ≤ length candidates
    → Filled bound n group candidates
unfolding fill_group
fill_group-Filled bound zero group candidates fits enough = record {
  full = group;
  rest = candidates;
  runs = refl;
  size = omega arith;
  left = omega arith;
  kept = λ f. refl;
}
fill_group-Filled bound (suc n) group candidates fits enough =
    let (x, last) = last-some candidates (omega arith) in
    let more =
      fill_group-Filled bound n (push group x) (init candidates)
        (omega (arith, length-push group x)) (omega (arith, length-init candidates)) in
    record {
      full = more.full;
      rest = more.rest;
      runs = ground (arith, last, more.runs);
      size = omega (arith, more.size, length-push group x);
      left = omega (arith, more.left, length-init candidates);
      kept = λ f. omega (arith, more.kept f, weigh-push f group x, weigh-init f candidates x last);
    }

-- The weight of all members of the groups.
abbrev pub weigh_groups : (ℕ → ℕ) → List (List ℕ) → ℕ
weigh_groups f = weigh (weigh f)

abbrev pub HaveSize : ℕ → List (List ℕ) → Type 0
HaveSize n = All (λ g. length g ≡ n)

weigh_groups-push :
    (f : ℕ → ℕ) (gs : List (List ℕ)) (g : List ℕ)
    → weigh_groups f (push gs g) ≡ weigh_groups f gs + weigh f g
weigh_groups-push f [] g = omega arith
weigh_groups-push f (h ∷ gs) g = omega (arith, weigh_groups-push f gs g)

HaveSize-push :
    (n : ℕ) (gs : List (List ℕ)) (g : List ℕ)
    → HaveSize n gs
    → length g ≡ n
    → HaveSize n (push gs g)
HaveSize-push n [] g h e = (e, tt)
HaveSize-push n (k ∷ gs) g h e = (h.0, HaveSize-push n gs g h.1 e)

-- The groups formed, with the candidates who are left over.
pub record Formed (T : Config) (size n : ℕ) (before : List (List ℕ)) (candidates : List ℕ)
    : Type 0 where
  pub groups : List (List ℕ)
  pub over : List ℕ
  pub runs : fill_groups T size n before candidates ≡ some groups
  pub number : length groups ≡ length before + n
  pub sizes : HaveSize size groups
  pub left : length over + size * n ≡ length candidates
  pub kept :
      (f : ℕ → ℕ)
      → weigh_groups f groups + weigh f over ≡ weigh_groups f before + weigh f candidates

pub fill_groups-Formed :
    (T : Config) (size n : ℕ) (before : List (List ℕ)) (candidates : List ℕ)
    → size ≤ T.max_group_size
    → length before + n ≤ T.max_group_number
    → size * n ≤ length candidates
    → HaveSize size before
    → Formed T size n before candidates
unfolding fill_groups
fill_groups-Formed T size zero before candidates s b enough h = record {
  groups = before;
  over = candidates;
  runs = refl;
  number = omega arith;
  sizes = h;
  left = omega arith;
  kept = λ f. refl;
}
fill_groups-Formed T size (suc n) before candidates s b enough h =
    let one = fill_group-Filled T.max_group_size size [] candidates (omega arith) (grind arith) in
    let more =
      fill_groups-Formed T size n (push before one.full) one.rest s
        (omega (arith, length-push before one.full)) (grind (arith, one.left))
        (HaveSize-push size before one.full h (omega (arith, one.size))) in
    record {
      groups = more.groups;
      over = more.over;
      runs = ground (arith, one.runs, more.runs);
      number = omega (arith, more.number, length-push before one.full);
      sizes = more.sizes;
      left = grind (arith, more.left, one.left);
      kept = λ f. omega (arith, more.kept f, one.kept f, weigh_groups-push f before one.full);
    }
