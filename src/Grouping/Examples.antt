-- ===== src/Grouping/Examples.antt =====
-- Concrete runs of the grouping pallet of pallets/sequencer-grouping/src/lib.rs.
use popsicle.Prelude.{ℕ, ◌*◌, ◌≡◌, refl, List, [], ◌∷◌, some, arith}
use popsicle.Prelude.Effects.{ok, err}
use popsicle.Grouping.{
  Config, Storage, Processor, no_processors, sequencer_group_updated, shuffle_accounts,
  assign_groups, clear_groups, trigger_group, account_in_group,
}
use popsicle.Grouping.Shuffle.{weigh, weigh-shuffle_accounts}
use popsicle.Grouping.Assignment.{Served, assign_groups-Served}
use popsicle.Grouping.Trigger.{
  IsReady, AreFormed, trigger_group-AreFormed, trigger_group-no_processors,
}

abbrev small_config : Config
small_config = record { max_group_size = 4; max_group_number = 4; max_running_app = 3 }

abbrev two_processors : List Processor
two_processors =
    record { account = 70; ip_address = 10 ∷ []; groups = [] }
    ∷ record { account = 71; ip_address = 11 ∷ []; groups = 9 ∷ [] }
    ∷ []

abbrev idle_pallet : List Processor → Storage
idle_pallet processors = record {
  group_members = (1 ∷ 2 ∷ []) ∷ (2 ∷ 3 ∷ []) ∷ [];
  next_round = record { starting_block = 5; round_index = 1 };
  group_size = 2;
  group_number = 3;
  processor_info = processors;
  events = [];
  parent_hash_byte = 7;
}

abbrev seven : List ℕ
seven = 1 ∷ 2 ∷ 3 ∷ 4 ∷ 5 ∷ 6 ∷ 7 ∷ []

ready : (processors : List Processor) → IsReady small_config (idle_pallet processors) seven
ready processors = record {
  size = omega arith;
  number = omega arith;
  number_word = omega arith;
  word = omega arith;
  enough = omega arith;
}

shuffled : shuffle_accounts 7 seven ≡ 7 ∷ 5 ∷ 6 ∷ 4 ∷ 3 ∷ 2 ∷ 1 ∷ []
unfolding shuffle_accounts
shuffled = refl

weigh-shuffle_accounts_example :
    weigh (λ x. x * x) (shuffle_accounts 7 seven) ≡ weigh (λ x. x * x) seven
weigh-shuffle_accounts_example = weigh-shuffle_accounts (λ x. x * x) 7 seven

trigger_group-AreFormed_example :
    (groups : List (List ℕ)) × (infos : List Processor) × (trigger_group small_config seven 40 2
        (idle_pallet two_processors)
      ≡ (
        ok tt,
        record (idle_pallet two_processors) {
          group_members = groups;
          processor_info = infos;
          next_round = record { starting_block = 40; round_index = 2 };
          events = sequencer_group_updated 40 2 ∷ [];
        },
      ))
    × AreFormed (idle_pallet two_processors) seven groups
    × Served 3 two_processors infos
trigger_group-AreFormed_example =
    trigger_group-AreFormed small_config (idle_pallet two_processors) seven 40 2
      (ready two_processors) (omega arith) (omega arith) (omega arith)

trigger_group-no_processors_example :
    (groups : List (List ℕ)) × (trigger_group small_config seven 40 2 (idle_pallet [])
      ≡ (err no_processors, record (idle_pallet []) { group_members = groups }))
    × AreFormed (idle_pallet []) seven groups
trigger_group-no_processors_example =
    trigger_group-no_processors small_config (idle_pallet []) seven 40 2 (ready []) refl

assign_groups-Served_example :
    (result : List Processor) × (assign_groups small_config 2 5 0 (clear_groups two_processors)
      ≡ some result)
    × Served 5 two_processors result
assign_groups-Served_example =
    assign_groups-Served small_config 5 two_processors (omega arith) (omega arith)

account_found : account_in_group 3 (idle_pallet []) ≡ (ok 1, idle_pallet [])
unfolding account_in_group
account_found = refl
