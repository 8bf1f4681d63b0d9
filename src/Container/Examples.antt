-- ===== src/Container/Examples.antt =====
-- Concrete runs of pallets/container/src/lib.rs.
use popsicle.Prelude.{ℕ, ◌≡◌, refl, true, false, [], ◌∷◌, none, some, update, get_elem?, arith}
use popsicle.Prelude.Effects.{ok}
use popsicle.Prelude.Origin.{signed}
use popsicle.Grouping
use popsicle.Container.{Storage, Registration, app_info, register, on_finalize}
use popsicle.Container.Allocation.{
  IsAllocated, IsServed, on_finalize-IsAllocated, on_finalize-IsServed,
}
use popsicle.Container.Registry.{IsRegistered, register_lem}
use popsicle.Container.History.{Reach, here, next, registers, finalizes, genesis, Reach-genesis}

abbrev grouped : Grouping.Storage
grouped = record {
  group_members = (1 ∷ []) ∷ (2 ∷ []) ∷ [];
  next_round = record { starting_block = 5; round_index = 1 };
  group_size = 1;
  group_number = 2;
  processor_info = [];
  events = [];
  parent_hash_byte = 7;
}

abbrev program : Registration
program = record {
  app_hash = 1 ∷ [];
  project_name = 2 ∷ [];
  file_name = 3 ∷ [];
  size = 4;
  args = none;
  log = none;
  is_docker_image = some true;
  docker_image = none;
}

-- Two applications, of which group 0 runs the second.
abbrev running : Storage
running = record {
  next_application_id = 3;
  default_url = none;
  appinfo_map =
      update (update (λ _. none) 1 (some (app_info 9 program))) 2 (some (app_info 8 program));
  inuse_map = false ∷ true ∷ [];
  group_app_map = update (λ _. none) 0 (some 2);
  events = [];
  grouping = grouped;
  block_number = 4;
}

at_second : (i : ℕ) → i ≡ 1 → get_elem? running.inuse_map i ≡ some true
at_second i e = rw e refl

running-IsAllocated : IsAllocated running
running-IsAllocated = record {
  marked = λ g i e. at_second i (ground arith);
  positive = λ g e. ground arith;
  apart = λ g h a e f. ground arith;
}

running-IsRegistered : IsRegistered running
running-IsRegistered = record {
  next = refl;
  known = λ i h e. ground arith;
  unknown = λ a h. ground arith;
}

on_finalize-IsAllocated_example : IsAllocated (on_finalize running)
on_finalize-IsAllocated_example = on_finalize-IsAllocated running running-IsAllocated

on_finalize-IsServed_example :
    IsServed 1 (on_finalize running)
    × ((a : ℕ) → running.group_app_map 1 ≡ some a → (on_finalize running).group_app_map 1 ≡ some a)
on_finalize-IsServed_example = on_finalize-IsServed running 1 (omega arith)

given_first : (on_finalize running).group_app_map 1 ≡ some 1
unfolding on_finalize
given_first = refl

register_lem_example :
    let (result, s') = register 5 (signed 7) program running in
    (result ≡ ok tt)
    × IsRegistered s'
    × (s'.appinfo_map 3 ≡ some (app_info 7 program))
    × (s'.inuse_map ≡ false ∷ true ∷ false ∷ [])
register_lem_example =
    register_lem 5 7 program running (omega arith) (omega arith) running-IsRegistered

-- A registration, a round with groups, and the end of a block.
abbrev registered : Storage
registered = (register 5 (signed 7) program (genesis grouped)).1

history : Reach 5 (genesis grouped) (on_finalize registered)
history =
    next (next here (registers (genesis grouped) 7 program (omega arith))) (finalizes registered)

Reach-genesis_example : IsRegistered (on_finalize registered) × IsAllocated (on_finalize registered)
Reach-genesis_example = Reach-genesis 5 grouped (omega arith) history
