-- ===== src/Grouping/Trigger.antt =====
-- `trigger_group` of pallets/sequencer-grouping/src/lib.rs as a whole.
use popsicle.Prelude.{
  ℕ, ◌+◌, ◌*◌, ◌≤◌, ◌<◌, ◌≡◌, ◌≢◌, sym, ◌∙◌, inl, inr, Bool-cases, Option-cases, some, List, [],
  ◌∷◌, length, leb, ◌==◌, max_u32, sub_u32, arith,
}
use popsicle.Prelude.Effects.{Outcome, ok, err, panic}
use popsicle.Grouping.{
  Config, Storage, Error, Processor, clear_groups, assign_groups, sequencer_group_updated,
  no_processors, candidates_not_enough, shuffle_accounts, fill_groups, assign_processors_to_groups,
  total_selected, trigger_group,
}
use popsicle.Grouping.Shuffle.{weigh, weigh-shuffle_accounts, weigh_length}
use popsicle.Grouping.Groups.{weigh_groups, HaveSize, fill_groups-Formed}
use popsicle.Grouping.Assignment.{Served, assign_groups-Served}

-- The metric in the state fits the bounds of the pallet, and the candidates suffice for it.
pub record IsReady (T : Config) (s : Storage) (candidates : List ℕ) : Type 0 where
  pub size : s.group_size ≤ T.max_group_size
  pub number : s.group_number ≤ T.max_group_number
  pub number_word : s.group_number ≤ max_u32
  pub word : s.group_size * s.group_number ≤ max_u32
  pub enough : s.group_size * s.group_number ≤ length candidates

-- The groups are as many and as large as the metric says, and every candidate is in one group or is
-- left over, as often as the list has it: for every `f` the weights agree.
pub record AreFormed (s : Storage) (candidates : List ℕ) (groups : List (List ℕ)) : Type 0 where
  pub over : List ℕ
  pub count : length groups ≡ s.group_number
  pub sizes : HaveSize s.group_size groups
  pub left : length over + s.group_size * s.group_number ≡ length candidates
  pub kept : (f : ℕ → ℕ) → weigh_groups f groups + weigh f over ≡ weigh f candidates

module _ (T : Config) (s : Storage) (candidates : List ℕ) (ready : IsReady T s candidates) where
  length-shuffle_accounts :
      length (shuffle_accounts s.parent_hash_byte candidates) ≡ length candidates
  length-shuffle_accounts =
      sym (weigh_length (shuffle_accounts s.parent_hash_byte candidates))
      ∙ weigh-shuffle_accounts (λ _. 1) s.parent_hash_byte candidates
      ∙ weigh_length candidates

  formed :
      (groups : List (List ℕ)) × (fill_groups T s.group_size s.group_number []
          (shuffle_accounts s.parent_hash_byte candidates)
        ≡ some groups)
      × AreFormed s candidates groups
  formed =
      let all =
        fill_groups-Formed T s.group_size s.group_number []
          (shuffle_accounts s.parent_hash_byte candidates) ready.size (omega (arith, ready.number))
          (omega (arith, ready.enough, length-shuffle_accounts)) tt in
      (
        all.groups,
        all.runs,
        record {
          over = all.over;
          count = omega (arith, all.number);
          sizes = all.sizes;
          left = omega (arith, all.left, length-shuffle_accounts);
          kept = λ f.
              omega (arith, all.kept f, weigh-shuffle_accounts f s.parent_hash_byte candidates);
        },
      )

-- With enough candidates, a positive metric within the bounds whose product is a u32, and
-- processors with places for all groups, `trigger_group` succeeds: the new groups are as many and
-- as large as the metric says, formed from the candidates without loss or double use; each group
-- `g` is dealt to the processor `g % count` alone; the next round and its event are recorded, and
-- nothing else changes.
pub trigger_group-AreFormed :
    (T : Config) (s : Storage) (candidates : List ℕ) (block index : ℕ)
    → IsReady T s candidates
    → 0 < s.group_number
    → 0 < length s.processor_info
    → s.group_number ≤ length s.processor_info * T.max_running_app
    → (groups : List (List ℕ)) × (infos : List Processor) × (trigger_group T candidates block index
          s
        ≡ (
          ok tt,
          record s {
            group_members = groups;
            processor_info = infos;
            next_round = record { starting_block = block; round_index = index };
            events = sequencer_group_updated block index ∷ s.events;
          },
        ))
      × AreFormed s candidates groups
      × Served s.group_number s.processor_info infos
unfolding trigger_group assign_processors_to_groups
trigger_group-AreFormed T s candidates block index ready number positive room =
    let (groups, runs, are) = formed T s candidates ready in
    let (infos, deals, served) =
      assign_groups-Served T s.group_number s.processor_info positive room in
    let range : sub_u32 s.group_number 1 + 1 ≡ s.group_number = grind (arith, ready.number_word) in
    (groups, infos, ground (arith, ready.word, ready.enough, runs, deals, range), are, served)

-- With enough candidates and a metric within the bounds but no processor registered,
-- `trigger_group` fails after it has replaced the groups: they are formed from the candidates, and
-- the rest of the storage, the next round included, is as before.
pub trigger_group-no_processors :
    (T : Config) (s : Storage) (candidates : List ℕ) (block index : ℕ)
    → IsReady T s candidates
    → s.processor_info ≡ []
    → (groups : List (List ℕ)) × (trigger_group T candidates block index s
        ≡ (err no_processors, record s { group_members = groups }))
      × AreFormed s candidates groups
unfolding trigger_group assign_processors_to_groups
trigger_group-no_processors T s candidates block index ready empty =
    let (groups, runs, are) = formed T s candidates ready in
    (groups, ground (arith, ready.word, ready.enough, runs, empty), are)

-- With fewer candidates than the product of the metric, `trigger_group` fails and changes nothing.
trigger_group-refused :
    (T : Config) (s : Storage) (candidates : List ℕ) (block index : ℕ)
    → length candidates < total_selected s
    → trigger_group T candidates block index s ≡ (err candidates_not_enough, s)
unfolding trigger_group total_selected
trigger_group-refused T s candidates block index few = ground arith

-- The metric fits the bounds of the pallet, and its product is a u32.
pub record HasMetric (T : Config) (s : Storage) : Type 0 where
  pub size : s.group_size ≤ T.max_group_size
  pub number : s.group_number ≤ T.max_group_number
  pub number_word : s.group_number ≤ max_u32
  pub word : s.group_size * s.group_number ≤ max_u32

-- No panic, and the metric as it was.
abbrev pub IsHarmless : Storage → Outcome Error (Unit {0}) × Storage → Type 0
IsHarmless s r =
    (r.0 ≢ panic) × (r.1.group_size ≡ s.group_size) × (r.1.group_number ≡ s.group_number)

pub trigger_group-IsHarmless :
    (T : Config) (s : Storage) (candidates : List ℕ) (block index : ℕ)
    → HasMetric T s
    → IsHarmless s (trigger_group T candidates block index s)
unfolding trigger_group assign_processors_to_groups
trigger_group-IsHarmless T s candidates block index h =
    elim (Bool-cases (leb (s.group_size * s.group_number) (length candidates))) [
      | inr few ↦ (
        λ e. ground (arith, h.word, few, e),
        ground (arith, h.word, few),
        ground (arith, h.word, few),
      )
      | inl enough ↦
          let ready : IsReady T s candidates = record {
            size = h.size;
            number = h.number;
            number_word = h.number_word;
            word = h.word;
            enough = ground (arith, enough);
          } in
          let (groups, runs, are) = formed T s candidates ready in
          elim (Bool-cases (length s.processor_info == 0)) [
            | inl empty ↦ (
              λ e. ground (arith, h.word, enough, runs, empty, e),
              ground (arith, h.word, enough, runs, empty),
              ground (arith, h.word, enough, runs, empty),
            )
            | inr some_processors ↦
                elim (Option-cases (
                  assign_groups T (length s.processor_info) (sub_u32 s.group_number 1 + 1) 0
                    (clear_groups s.processor_info))) [
                      | inl f ↦ (
                        λ e. ground (arith, h.word, enough, runs, some_processors, f, e),
                        ground (arith, h.word, enough, runs, some_processors, f),
                        ground (arith, h.word, enough, runs, some_processors, f),
                      )
                      | inr (infos, f) ↦ (
                        λ e. ground (arith, h.word, enough, runs, some_processors, f, e),
                        ground (arith, h.word, enough, runs, some_processors, f),
                        ground (arith, h.word, enough, runs, some_processors, f),
                      )
                    ]
          ]
    ]
