-- ===== src/Grouping.antt =====
-- pallets/sequencer-grouping/src/lib.rs: the selected sequencers are shuffled and split into groups,
-- and the groups are dealt out to the registered processors.
pub mod Shuffle
pub mod Groups
pub mod Dealing
pub mod Assignment
pub mod Trigger
pub mod Processors
mod Examples
use popsicle.Prelude.{
  ℕ, zero, suc, ◌+◌, ◌*◌, ◌%◌, ◌^◌, Bool, true, false, not, Option, none, some, List, [], ◌∷◌, map,
  length, get_elem?, set, push, last?, init, any, find?, leb, ltb, ◌==◌, if◌then◌else◌, sub_u32,
}
use popsicle.Prelude.Effects.{
  Action, Outcome, ok, err, panic, pure, fail, gets, expect, ensure, modify, ◌>>=◌, ◌>>◌,
}
use popsicle.Prelude.Origin.{Origin, ensure_root, ensure_signed}

pub record Config : Type 0 where
  pub max_group_size : ℕ
  pub max_group_number : ℕ
  pub max_running_app : ℕ

pub record NextRound : Type 0 where
  pub starting_block : ℕ
  pub round_index : ℕ

-- An entry of `ProcessorInfo`; an address is the list of its bytes.
pub record Processor : Type 0 where
  pub account : ℕ
  pub ip_address : List ℕ
  pub groups : List ℕ

-- `bad_origin` is frame_system's.
pub data Error : Type 0 where
  candidates_not_enough : Error
  group_size_too_large : Error
  group_number_too_large : Error
  account_not_in_group : Error
  too_many_processors : Error
  no_processors : Error
  bad_origin : Error

pub data Event : Type 0 where
  sequencer_group_updated : ℕ → ℕ → Event

pub record Storage : Type 0 where
  pub group_members : List (List ℕ)
  pub next_round : NextRound
  pub group_size : ℕ
  pub group_number : ℕ
  pub processor_info : List Processor
  -- the events deposited so far, the latest first
  pub events : List Event
  -- the first byte of the parent hash, which frame_system keeps
  pub parent_hash_byte : ℕ

abbrev pub Call : Type 0 → Type 0
Call A = Action Storage Error A

-- `GenesisConfig::build`
unfoldable pub genesis_build : ℕ → ℕ → Storage → Storage
genesis_build size number s = record s { group_size = size; group_number = number }

-- `set_group_metric`
unfoldable pub set_group_metric : Config → Origin → ℕ → ℕ → Call (Unit {0})
set_group_metric T origin size number = do
  ensure_root bad_origin origin
  ensure (leb size T.max_group_size) group_size_too_large
  ensure (leb number T.max_group_number) group_number_too_large
  modify λ s. record s { group_size = size; group_number = number }

-- `slice::swap`; an index out of range, on which it panics, does not occur here
abbrev pub swap {ℓ} : {A : Type ℓ} → ℕ → ℕ → List A → List A
swap i j xs = elim (get_elem? xs i) [
  | none ↦ xs
  | some x ↦ elim (get_elem? xs j) [ none ↦ xs | some y ↦ set (set xs i y) j x ]
]

-- the loop of `shuffle_accounts`, for the indices from `i` down to 1
unfoldable pub shuffle_from {ℓ} : {A : Type ℓ} → ℕ → ℕ → List A → List A
shuffle_from random_value zero xs = xs
shuffle_from random_value (suc i) xs =
    shuffle_from random_value i (swap (suc i) (random_value % (suc i + 1)) xs)

abbrev pub last_index {ℓ} : {A : Type ℓ} → List A → ℕ
last_index [] = 0
last_index (x ∷ xs) = length xs

-- `shuffle_accounts`
unfoldable pub shuffle_accounts : ℕ → List ℕ → List ℕ
unfolding shuffle_from
shuffle_accounts random_value accounts = shuffle_from random_value (last_index accounts) accounts

-- the inner loop of `trigger_group`, `n` rounds: `none` is a panic
unfoldable pub fill_group : ℕ → ℕ → List ℕ → List ℕ → Option (List ℕ × List ℕ)
fill_group bound zero group candidates = some (group, candidates)
fill_group bound (suc n) group candidates =
    let rest = λ (x : ℕ). fill_group bound n (push group x) (init candidates) in
    elim (last? candidates) [
      | none ↦ none
      | some x ↦ if ltb (length group) bound then rest x else none
    ]

-- the outer loop, `n` rounds
unfoldable pub fill_groups : Config → ℕ → ℕ → List (List ℕ) → List ℕ → Option (List (List ℕ))
unfolding fill_group
fill_groups T size zero groups candidates = some groups
fill_groups T size (suc n) groups candidates =
    let rest = λ (g : List ℕ) (c : List ℕ). fill_groups T size n (push groups g) c in
    elim (fill_group T.max_group_size size [] candidates) [
      | none ↦ none
      | some (group, others) ↦
          if ltb (length groups) T.max_group_number then rest group others else none
    ]

abbrev pub contains_id : ℕ → List ℕ → Bool
contains_id k = any λ x. x == k

-- one round of the loop of `assign_processors_to_groups`; `none` is a full vector of groups
unfoldable pub assign_group : Config → ℕ → ℕ → List Processor → Option (List Processor)
assign_group T count group_id infos = elim (get_elem? infos (group_id % count)) [
  | none ↦ none
  | some p ↦
      if contains_id group_id p.groups
      then some infos
      else if ltb (length p.groups) T.max_running_app
      then some (set infos (group_id % count) (record p { groups = push p.groups group_id }))
      else none
]

-- the loop, for `rounds` groups from `group_id` on
unfoldable pub assign_groups : Config → ℕ → ℕ → ℕ → List Processor → Option (List Processor)
unfolding assign_group
assign_groups T count zero group_id infos = some infos
assign_groups T count (suc rounds) group_id infos =
    let rest = λ (i : List Processor). assign_groups T count rounds (suc group_id) i in
    elim (assign_group T count group_id infos) [ none ↦ none | some i ↦ rest i ]

abbrev pub clear_groups : List Processor → List Processor
clear_groups = map λ (p : Processor). record p { groups = [] }

-- `assign_processors_to_groups`; the range ends at `group_number - 1`, computed on u32
unfoldable pub assign_processors_to_groups : Config → ℕ → Call (Unit {0})
assign_processors_to_groups T group_number = do
  infos ← gets (λ (s : Storage). s.processor_info)
  ensure (not (length infos == 0)) no_processors
  elim (assign_groups T (length infos) (sub_u32 group_number 1 + 1) 0 (clear_groups infos)) [
    | none ↦ fail too_many_processors
    | some infos' ↦ modify λ s. record s { processor_info = infos' }
  ]

-- `total_selected`
unfoldable pub total_selected : Storage → ℕ
total_selected s = (s.group_size * s.group_number) % 2 ^ 32

-- `trigger_group`
unfoldable pub trigger_group : Config → List ℕ → ℕ → ℕ → Call (Unit {0})
trigger_group T candidates starting_block round_index = do
  s ← gets (λ (s : Storage). s)
  ensure (leb ((s.group_size * s.group_number) % 2 ^ 32) (length candidates)) candidates_not_enough
  groups ← expect (
      fill_groups T s.group_size s.group_number [] (shuffle_accounts s.parent_hash_byte candidates))
  modify (λ s. record s { group_members = groups })
  assign_processors_to_groups T s.group_number
  modify λ s. record s {
    next_round = record { starting_block = starting_block; round_index = round_index };
    events = sequencer_group_updated starting_block round_index ∷ s.events;
  }

-- `benchmark_trigger_group`: the result of `trigger_group` is dropped.
unfoldable pub benchmark_trigger_group : Config → Origin → List ℕ → ℕ → ℕ → Call (Unit {0})
benchmark_trigger_group T origin candidates starting_block round_index = do
  ensure_root bad_origin origin
  λ s.
      let (r, s') = trigger_group T candidates starting_block round_index s in
      elim r [ ok _ ↦ (ok tt, s') | err _ ↦ (ok tt, s') | panic ↦ (panic, s') ]

abbrev pub same_bytes : List ℕ → List ℕ → Bool
same_bytes [] [] = true
same_bytes [] (y ∷ ys) = false
same_bytes (x ∷ xs) [] = false
same_bytes (x ∷ xs) (y ∷ ys) = if x == y then same_bytes xs ys else false

-- The entry of an account after its address has been set; `none` if there is none.
abbrev pub set_address : ℕ → List ℕ → List Processor → Option (List Processor)
set_address who ip [] = none
set_address who ip (p ∷ ps) =
    let rest = set_address who ip ps in
    if p.account == who
    then some (record p { ip_address = ip } ∷ ps)
    else elim rest [ none ↦ none | some qs ↦ some (p ∷ qs) ]

-- `register_processor`. Where the address is the one that is stored, the source returns early,
-- without the write, which would change nothing.
unfoldable pub register_processor : Config → Origin → List ℕ → Call (Unit {0})
register_processor T origin ip = do
  who ← ensure_signed bad_origin origin
  infos ← gets (λ (s : Storage). s.processor_info)
  elim (find? (λ (p : Processor). p.account == who) infos) [
    | some existing ↦
        if same_bytes existing.ip_address ip then pure tt else elim (set_address who ip infos) [
          | none ↦ pure tt
          | some infos' ↦ modify λ s. record s { processor_info = infos' }
        ]
    | none ↦ do
      ensure (ltb (length infos) T.max_running_app) too_many_processors
      modify λ s. record s {
        processor_info = push infos (record { account = who; ip_address = ip; groups = [] });
      }
  ]

-- `get_group_ids`
unfoldable pub get_group_ids : ℕ → Storage → List ℕ
get_group_ids account s = elim (find? (λ (p : Processor). p.account == account) s.processor_info) [
  | none ↦ []
  | some p ↦ p.groups
]

-- the loop of `account_in_group`, from the group `index` on
unfoldable pub group_index : ℕ → ℕ → List (List ℕ) → Option ℕ
group_index account index [] = none
group_index account index (g ∷ gs) =
    let rest = group_index account (suc index) gs in
    if contains_id account g then some index else rest

-- `account_in_group`
unfoldable pub account_in_group : ℕ → Call ℕ
unfolding group_index
account_in_group account s = elim (group_index account 0 s.group_members) [
  | none ↦ (err account_not_in_group, s)
  | some index ↦ (ok index, s)
]

-- `0..n` collected
abbrev pub range_from : ℕ → ℕ → List ℕ
range_from k zero = []
range_from k (suc n) = k ∷ range_from (suc k) n

-- `all_group_ids`
abbrev pub all_group_ids : Storage → List ℕ
all_group_ids s = range_from 0 (length s.group_members)
