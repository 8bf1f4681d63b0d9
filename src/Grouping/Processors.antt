-- ===== src/Grouping/Processors.antt =====
-- The registry of processors and the queries of pallets/sequencer-grouping/src/lib.rs:
-- `register_processor`, `get_group_ids`, `account_in_group`.
use popsicle.Prelude.{
  ℕ, zero, suc, ◌+◌, ◌<◌, ◌≡◌, ◌≢◌, refl, inl, inr, true, false, Option, none, some, List, [], ◌∷◌,
  All, get_elem?, find?, ◌==◌, arith, Bool-cases,
}
use popsicle.Prelude.Effects.{ok, err}
use popsicle.Grouping.{
  Storage, Processor, account_not_in_group, contains_id, get_group_ids, group_index,
  account_in_group,
}

abbrev pub entry_of : ℕ → List Processor → Option Processor
entry_of k = find? λ (p : Processor). p.account == k

-- The entry of `who` has the address `ip`, and the groups it had; the other entries are unchanged, and
-- so is all of the storage but the list of processors.
pub record Registered (who : ℕ) (ip : List ℕ) (s s' : Storage) : Type 0 where
  pub own :
      entry_of who s'.processor_info
      ≡ some (record { account = who; ip_address = ip; groups = get_group_ids who s })
  pub others : (j : ℕ) → j ≢ who → entry_of j s'.processor_info ≡ entry_of j s.processor_info
  pub rest : s' ≡ record s { processor_info = s'.processor_info }

-- What `account_in_group` answers: the first group that has the account, or that there is none.
pub data Located (account : ℕ) (s : Storage) : Type 0 where
  located :
      (i : ℕ) (g : List ℕ)
      → account_in_group account s ≡ (ok i, s)
      → get_elem? s.group_members i ≡ some g
      → contains_id account g ≡ true
      → ((j : ℕ) (h : List ℕ)
          → j < i
          → get_elem? s.group_members j ≡ some h
          → contains_id account h ≡ false)
      → Located account s
  absent :
      account_in_group account s ≡ (err account_not_in_group, s)
      → All (λ g. contains_id account g ≡ false) s.group_members
      → Located account s

-- What the loop answers from the group `n` on.
data Loop (account n : ℕ) (gs : List (List ℕ)) : Type 0 where
  hit :
      (i : ℕ) (g : List ℕ)
      → group_index account n gs ≡ some (n + i)
      → get_elem? gs i ≡ some g
      → contains_id account g ≡ true
      → ((j : ℕ) (h : List ℕ) → j < i → get_elem? gs j ≡ some h → contains_id account h ≡ false)
      → Loop account n gs
  missed :
      group_index account n gs ≡ none
      → All (λ g. contains_id account g ≡ false) gs
      → Loop account n gs

-- a group in front of the first one that has the account
before_hit :
    (account : ℕ) (g : List ℕ) (gs : List (List ℕ)) (i : ℕ)
    → contains_id account g ≡ false
    → ((j : ℕ) (h : List ℕ) → j < i → get_elem? gs j ≡ some h → contains_id account h ≡ false)
    → (j : ℕ) (h : List ℕ) → j < suc i
    → get_elem? (g ∷ gs) j ≡ some h
    → contains_id account h ≡ false
before_hit account g gs i away old zero h lt e = ground (arith, away, e)
before_hit account g gs i away old (suc j) h lt e = old j h (omega arith) e

group_index-Loop : (account n : ℕ) (gs : List (List ℕ)) → Loop account n gs
unfolding group_index
group_index-Loop account n [] = missed refl tt
group_index-Loop account n (g ∷ gs) = elim (Bool-cases (contains_id account g)) [
  | inl here ↦ hit 0 g (ground (arith, here)) refl here (λ j h lt e. absurd (omega arith))
  | inr away ↦ elim (group_index-Loop account (suc n) gs) [
    | hit i h runs at has before ↦
        hit (suc i) h (ground (arith, away, runs)) at has (before_hit account g gs i away before)
    | missed runs none_has ↦ missed (ground (arith, away, runs)) (away, none_has)
  ]
]

-- `account_in_group` returns the index of the first group that contains the account, and fails
-- exactly where none does; it changes nothing.
account_in_group-Located : (account : ℕ) (s : Storage) → Located account s
unfolding account_in_group
account_in_group-Located account s = elim (group_index-Loop account 0 s.group_members) [
  | hit i g runs at has before ↦ located i g (ground (arith, runs)) at has before
  | missed runs none_has ↦ absent (ground (arith, runs)) none_has
]
