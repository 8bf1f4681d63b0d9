-- ===== src/Grouping/Assignment.antt =====
-- `assign_processors_to_groups` of pallets/sequencer-grouping/src/lib.rs: the groups are dealt out in
-- turns, and group `g` goes to the processor `g % count`.
use popsicle.Prelude.{
  ℕ, zero, suc, ◌+◌, ◌%◌, ◌≤◌, ◌<◌, ◌≡◌, ◌≢◌, refl, ap, ◌∙◌, inl, inr, true, false, some, List, [],
  ◌∷◌, ◌++◌, All, length, get_elem?, set, push, ◌==◌, ==_iff, arith, Bool-cases, ◌⊎◌, ◌*◌, ◌↔◌,
  length-push, sym, subst,
}
use mathlib.Core.Option
use popsicle.Grouping.Dealing.{dealt, length-dealt, contains_id-dealt}
use popsicle.Grouping.{Config, Processor, contains_id, assign_group, assign_groups, clear_groups}

module _ {A : Type 0} where
  get_elem?-set :
      (xs : List A) (i : ℕ) (x y : A) → get_elem? xs i ≡ some x → get_elem? (set xs i y) i ≡ some y
  get_elem?-set [] i x y e = cc
  get_elem?-set (z ∷ xs) zero x y e = refl
  get_elem?-set (z ∷ xs) (suc i) x y e = get_elem?-set xs i x y e

  get_elem?-set_ne :
      (xs : List A) (i j : ℕ) (y : A) → i ≢ j → get_elem? (set xs i y) j ≡ get_elem? xs j
  get_elem?-set_ne [] i j y ne = refl
  get_elem?-set_ne (z ∷ xs) zero zero y ne = absurd (ne refl)
  get_elem?-set_ne (z ∷ xs) zero (suc j) y ne = refl
  get_elem?-set_ne (z ∷ xs) (suc i) zero y ne = refl
  get_elem?-set_ne (z ∷ xs) (suc i) (suc j) y ne = get_elem?-set_ne xs i j y (λ e. ne (ap suc e))

  length-set : (xs : List A) (i : ℕ) (y : A) → length (set xs i y) ≡ length xs
  length-set [] i y = refl
  length-set (z ∷ xs) zero y = refl
  length-set (z ∷ xs) (suc i) y = ap suc (length-set xs i y)

  get_elem?-some : (xs : List A) (i : ℕ) → i < length xs → (x : A) × (get_elem? xs i ≡ some x)
  get_elem?-some [] i h = absurd (omega arith)
  get_elem?-some (x ∷ xs) zero h = (x, refl)
  get_elem?-some (x ∷ xs) (suc i) h = get_elem?-some xs i (omega arith)

  get_elem?-lt : (xs : List A) (i : ℕ) (x : A) → get_elem? xs i ≡ some x → i < length xs
  get_elem?-lt [] i x e = cc
  get_elem?-lt (z ∷ xs) zero x e = omega arith
  get_elem?-lt (z ∷ xs) (suc i) x e = omega (arith, get_elem?-lt xs i x e)

  append_nil : (xs : List A) → xs ++ [] ≡ xs
  append_nil [] = refl
  append_nil (x ∷ xs) = ap (λ zs. x ∷ zs) (append_nil xs)

  push-append : (xs : List A) (y : A) (ys : List A) → push xs y ++ ys ≡ xs ++ (y ∷ ys)
  push-append [] y ys = refl
  push-append (x ∷ xs) y ys = ap (λ zs. x ∷ zs) (push-append xs y ys)

abbrev Below : ℕ → List ℕ → Type 0
Below k = All (λ g. g < k)

Below-contains_id : (k : ℕ) (gs : List ℕ) → Below k gs → contains_id k gs ≡ false
Below-contains_id k [] b = refl
Below-contains_id k (g ∷ gs) b = ground (arith, Below-contains_id k gs b.1)

Below-suc : (k : ℕ) (gs : List ℕ) → Below k gs → Below (suc k) gs
Below-suc k [] b = tt
Below-suc k (g ∷ gs) b = (omega (arith, b.0), Below-suc k gs b.1)

Below-push : (k : ℕ) (gs : List ℕ) → Below k gs → Below (suc k) (push gs k)
Below-push k [] b = (omega arith, tt)
Below-push k (g ∷ gs) b = (omega (arith, b.0), Below-push k gs b.1)

-- The processor `i` with the groups it is dealt from the `n` groups from `k` on.
abbrev pub deal : ℕ → ℕ → ℕ → ℕ → Processor → Processor
deal count i k n p = record p { groups = p.groups ++ dealt count i k n }

-- Every processor has room for what it is dealt, and none of it yet.
record HasRoom (T : Config) (count k n : ℕ) (infos : List Processor) : Type 0 where
  counted : length infos ≡ count
  positive : 0 < count
  room :
      (i : ℕ) (p : Processor)
      → get_elem? infos i ≡ some p
      → length p.groups + length (dealt count i k n) ≤ T.max_running_app
  below : (i : ℕ) (p : Processor) → get_elem? infos i ≡ some p → Below k p.groups

pub record Assigned (T : Config) (count k n : ℕ) (infos : List Processor) : Type 0 where
  pub result : List Processor
  pub runs : assign_groups T count n k infos ≡ some result
  pub same_length : length result ≡ length infos
  pub entry :
      (i : ℕ) (p : Processor)
      → get_elem? infos i ≡ some p
      → get_elem? result i ≡ some (deal count i k n p)

assign_group-some :
    (T : Config) (count k : ℕ) (infos : List Processor) (p : Processor)
    → get_elem? infos (k % count) ≡ some p
    → contains_id k p.groups ≡ false
    → length p.groups < T.max_running_app
    → assign_group T count k infos
      ≡ some (set infos (k % count) (record p { groups = push p.groups k }))
unfolding assign_group
assign_group-some T count k infos p e fresh room = ground (arith, e, fresh)

-- The processors after the turn `k`.
abbrev turned : ℕ → ℕ → Processor → List Processor → List Processor
turned count k p infos = set infos (k % count) (record p { groups = push p.groups k })

-- A processor after the turn `k` is one that was served or one that waited.
turned-cases :
    (count k : ℕ) (infos : List Processor) (p : Processor) (i : ℕ) (q : Processor)
    → get_elem? infos (k % count) ≡ some p
    → get_elem? (turned count k p infos) i ≡ some q
    → ((k % count ≡ i) × (q ≡ record p { groups = push p.groups k }))
      ⊎ ((k % count ≢ i) × (get_elem? infos i ≡ some q))
turned-cases count k infos p i q e g =
    let p' : Processor = record p { groups = push p.groups k } in
    elim (Bool-cases (k % count == i)) [
      | inl same ↦
          let here = (==_iff (k % count) i).0 same in
          inl (here, ground (arith, g, here, get_elem?-set infos (k % count) p p' e))
      | inr other ↦
          let away : k % count ≢ i = λ h. ground (arith, other, h) in
          inr (away, sym (get_elem?-set_ne infos (k % count) i p' away) ∙ g)
    ]

HasRoom-turned :
    (T : Config) (count k n : ℕ) (infos : List Processor) (p : Processor)
    → get_elem? infos (k % count) ≡ some p
    → HasRoom T count k (suc n) infos
    → HasRoom T count (suc k) n (turned count k p infos)
HasRoom-turned T count k n infos p e h = record {
  counted = length-set infos (k % count) (record p { groups = push p.groups k }) ∙ h.counted;
  positive = h.positive;
  room = λ i q g. elim (turned-cases count k infos p i q e g) [
    | inl (here, eq) ↦ ground (arith, h.room i p, length-push p.groups k, e, here, eq)
    | inr (away, old) ↦ ground (arith, h.room i q old, away)
  ];
  below = λ i q g. elim (turned-cases count k infos p i q e g) [
    | inl (here, eq) ↦
        subst (λ (z : Processor). Below (suc k) z.groups) (sym eq)
          (Below-push k p.groups (h.below (k % count) p e))
    | inr (away, old) ↦ Below-suc k q.groups (h.below i q old)
  ];
}

deal_zero : (count i k : ℕ) (p : Processor) → deal count i k 0 p ≡ p
deal_zero count i k p = ap (λ (gs : List ℕ). record p { groups = gs }) (append_nil p.groups)

deal_served :
    (count i k n : ℕ) (p : Processor)
    → (k % count == i) ≡ true
    → deal count i (suc k) n (record p { groups = push p.groups k }) ≡ deal count i k (suc n) p
deal_served count i k n p e = ground (arith, e, push-append p.groups k (dealt count i (suc k) n))

deal_waiting :
    (count i k n : ℕ) (p : Processor)
    → (k % count == i) ≡ false
    → deal count i (suc k) n p ≡ deal count i k (suc n) p
deal_waiting count i k n p e = ground (arith, e)

assign_groups-Assigned :
    (T : Config) (count k n : ℕ) (infos : List Processor)
    → HasRoom T count k n infos
    → Assigned T count k n infos
unfolding assign_groups
assign_groups-Assigned T count k zero infos h = record {
  result = infos;
  runs = refl;
  same_length = refl;
  entry = λ i p e. e ∙ ap some (sym (deal_zero count i k p));
}
assign_groups-Assigned T count k (suc n) infos h =
    let (p, e) = get_elem?-some infos (k % count) (grind (arith, h.counted, h.positive)) in
    let p' : Processor = record p { groups = push p.groups k } in
    let rest =
      assign_groups-Assigned T count (suc k) n (turned count k p infos)
        (HasRoom-turned T count k n infos p e h) in
    let one =
      assign_group-some T count k infos p e (Below-contains_id k p.groups (h.below (k % count) p e))
        (ground (arith, h.room (k % count) p e)) in
    record {
      result = rest.result;
      runs = ground (arith, one, rest.runs);
      same_length = rest.same_length ∙ length-set infos (k % count) p';
      entry = λ i q g. elim (Bool-cases (k % count == i)) [
        | inl same ↦
            let here = (==_iff (k % count) i).0 same in
            let old : some p ≡ some q = ground (arith, e, g, here) in
            rest.entry i p' (ground (arith, get_elem?-set infos (k % count) p p' e, here))
            ∙ ap some (deal_served count i k n p same)
            ∙ ap (Option.map (deal count i k (suc n))) old
        | inr other ↦
            rest.entry i q
              (get_elem?-set_ne infos (k % count) i p' (λ x. ground (arith, other, x)) ∙ g)
            ∙ ap some (deal_waiting count i k n q other)
      ];
    }

-- `clear_groups` leaves every processor in its place, with no groups.
get_elem?-clear_groups :
    (infos : List Processor) (i : ℕ) (p : Processor)
    → get_elem? (clear_groups infos) i ≡ some p
    → p.groups ≡ []
get_elem?-clear_groups [] i p e = cc
get_elem?-clear_groups (q ∷ infos) zero p e = ground (arith, e)
get_elem?-clear_groups (q ∷ infos) (suc i) p e = get_elem?-clear_groups infos i p e

length-clear_groups : (infos : List Processor) → length (clear_groups infos) ≡ length infos
length-clear_groups [] = refl
length-clear_groups (q ∷ infos) = ap suc (length-clear_groups infos)

get_elem?-cleared :
    (infos : List Processor) (i : ℕ) (p : Processor)
    → get_elem? infos i ≡ some p
    → get_elem? (clear_groups infos) i ≡ some (record p { groups = [] })
get_elem?-cleared [] i p e = cc
get_elem?-cleared (q ∷ infos) zero p e =
    ap (Option.map (λ (z : Processor). record z { groups = [] })) e
get_elem?-cleared (q ∷ infos) (suc i) p e = get_elem?-cleared infos i p e

-- After a fresh assignment of `n` groups the processors are those of before, with their accounts and
-- addresses, and the processor `i` has exactly the groups `g < n` with `g % length infos ≡ i`.
pub record Served (n : ℕ) (infos result : List Processor) : Type 0 where
  pub same_length : length result ≡ length infos
  pub entry :
      (i : ℕ) (p : Processor)
      → get_elem? infos i ≡ some p
      → (ids : List ℕ) × (get_elem? result i ≡ some (record p { groups = ids }))
        × ((g : ℕ) → (contains_id g ids ≡ true) ↔ ((g < n) × (g % length infos ≡ i)))

-- the list of a processor, of all groups from 0 on
contains_id-share :
    (count i n g : ℕ) → (contains_id g (dealt count i 0 n) ≡ true) ↔ ((g < n) × (g % count ≡ i))
contains_id-share count i n g =
    let (has, whole) = contains_id-dealt count i 0 n g in
    (
      λ e. (omega (arith, (has e).1), (has e).2),
      λ (lt, at). whole (omega arith, omega (arith, lt), at),
    )

-- With at least one processor and places for all `n` groups, the loop on cleared processors
-- succeeds; the processors keep their accounts and addresses, and the processor `i` gets exactly
-- the groups `g` below `n` with `g % length infos ≡ i`.
pub assign_groups-Served :
    (T : Config) (n : ℕ) (infos : List Processor)
    → 0 < length infos
    → n ≤ length infos * T.max_running_app
    → (result : List Processor) × (assign_groups T (length infos) n 0 (clear_groups infos)
        ≡ some result)
      × Served n infos result
assign_groups-Served T n infos positive fits =
    let all = assign_groups-Assigned T (length infos) 0 n (clear_groups infos) (record {
      counted = length-clear_groups infos;
      positive = positive;
      room = λ i p e.
          let at : i < length infos =
            grind (arith, get_elem?-lt (clear_groups infos) i p e, length-clear_groups infos) in
          rw (get_elem?-clear_groups infos i p e)
            (omega (arith, length-dealt (length infos) i n T.max_running_app at fits));
      below = λ i p e. rw (get_elem?-clear_groups infos i p e) tt;
    }) in
    (
      all.result,
      all.runs,
      record {
        same_length = all.same_length ∙ length-clear_groups infos;
        entry = λ i p e. (
          dealt (length infos) i 0 n,
          all.entry i (record p { groups = [] }) (get_elem?-cleared infos i p e),
          contains_id-share (length infos) i n,
        );
      },
    )
