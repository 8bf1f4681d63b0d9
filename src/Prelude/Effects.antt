-- ===== src/Prelude/Effects.antt =====
-- A call on the chain: it reads and writes the state, and ends with a value, an error or a panic.
-- What was written before an error stays written: that a failed extrinsic is rolled back is the
-- affair of the dispatcher, and an error that the code drops is not rolled back at all.
use mathlib.Core.Bool.{Bool, true, false}
use mathlib.Core.Option.{Option, none, some}
use mathlib.Core.Path.{◌≡◌, refl}
use mathlib.Core.Logic.{◌⊎◌, inl, inr}

pub data Outcome (E A : Type 0) : Type 0 where
  ok : A → Outcome E A
  err : E → Outcome E A
  panic : Outcome E A

abbrev pub Action : Type 0 → Type 0 → Type 0 → Type 0
Action S E A = S → Outcome E A × S

module _ {S E A : Type 0} where
  abbrev pub pure : A → Action S E A
  pure a s = (ok a, s)

  abbrev pub fail : E → Action S E A
  fail e s = (err e, s)

  abbrev pub gets : (S → A) → Action S E A
  gets f s = (ok (f s), s)

  -- `ok_or(e)?`
  abbrev pub ok_or : E → Option A → Action S E A
  ok_or e none s = (err e, s)
  ok_or e (some a) s = (ok a, s)

  -- `expect`
  abbrev pub expect : Option A → Action S E A
  expect none s = (panic, s)
  expect (some a) s = (ok a, s)

module _ {S E : Type 0} where
  abbrev pub modify : (S → S) → Action S E (Unit {0})
  modify f s = (ok tt, f s)

  -- `ensure!`
  abbrev pub ensure : Bool → E → Action S E (Unit {0})
  ensure true e s = (ok tt, s)
  ensure false e s = (err e, s)

infixl 5 ◌>>=◌ ◌>>◌
abbrev pub ◌>>=◌ : {S E A B : Type 0} → Action S E A → (A → Action S E B) → Action S E B
◌>>=◌ m f s =
    let (r, s') = m s in elim r [ ok a ↦ f a s' | err e ↦ (err e, s') | panic ↦ (panic, s') ]

abbrev pub ◌>>◌ : {S E A B : Type 0} → Action S E A → Action S E B → Action S E B
m >> k = m >>= λ _. k

-- `.expect(…)` on a result
abbrev pub expect_ok : {S E A : Type 0} → Action S E A → Action S E A
expect_ok m s =
    let (r, s') = m s in elim r [ ok a ↦ (ok a, s') | err e ↦ (panic, s') | panic ↦ (panic, s') ]

-- `if result == Err(e) { k } else { result }`, where `test` decides the equality with `e`
abbrev pub on_error : {S E A : Type 0} → (E → Bool) → Action S E A → Action S E A → Action S E A
on_error test m k s =
    let (r, s') = m s in
    elim r [
      | ok a ↦ (ok a, s')
      | err e ↦ elim (test e) [ true ↦ k s' | false ↦ (err e, s') ]
      | panic ↦ (panic, s')
    ]

-- `let _ = …`: the value or the error is dropped, what was written stays.
abbrev pub discard : {S E F A : Type 0} → Action S F A → Action S E (Unit {0})
discard m s =
    let (r, s') = m s in elim r [ ok a ↦ (ok tt, s') | err e ↦ (ok tt, s') | panic ↦ (panic, s') ]

pub Outcome-cases :
    {E A : Type 0} (r : Outcome E A)
    → ((a : A) × (r ≡ ok a)) ⊎ ((e : E) × (r ≡ err e)) ⊎ (r ≡ panic)
Outcome-cases (ok a) = inl (a, refl)
Outcome-cases (err e) = inr (inl (e, refl))
Outcome-cases panic = inr (inr refl)
