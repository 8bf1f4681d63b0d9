-- ===== src/Container.antt =====
-- pallets/container/src/lib.rs and primitives/container/src/lib.rs: applications are registered, and
-- each group of sequencers is given one that no other group runs.
pub mod Allocation
pub mod Registry
pub mod History
mod Examples
use popsicle.Prelude.{
  ℕ, zero, suc, ◌+◌, Bool, true, false, not, Option, none, some, List, [], ◌∷◌, length, get_elem?,
  set, push, ltb, ◌==◌, if◌then◌else◌, add_u32, update,
}
use popsicle.Prelude.Effects.{
  Action, Outcome, ok, err, panic, pure, gets, ensure, modify, ◌>>=◌, ◌>>◌,
}
use popsicle.Prelude.Origin.{Origin, ensure_root, ensure_signed}
use popsicle.Grouping
use popsicle.Grouping.{all_group_ids, group_index}

-- Byte strings are lists of bytes; the hash is one of them.
pub record AppInfo : Type 0 where
  pub app_hash : List ℕ
  pub creator : ℕ
  pub project_name : List ℕ
  pub file_name : List ℕ
  pub uploaded : Bool
  pub size : ℕ
  pub args : Option (List ℕ)
  pub log : Option (List ℕ)
  pub is_docker_image : Option Bool
  pub docker_image : Option (List ℕ)

pub record DownloadInfo : Type 0 where
  pub app_id : ℕ
  pub app_hash : List ℕ
  pub file_name : List ℕ
  pub size : ℕ
  pub group : ℕ
  pub url : List ℕ
  pub args : Option (List ℕ)
  pub log : Option (List ℕ)
  pub is_docker_image : Bool
  pub docker_image : Option (List ℕ)

pub data Error : Type 0 where
  app_not_exist : Error
  bad_origin : Error

pub data Event : Type 0 where
  register_app : ℕ → List ℕ → List ℕ → List ℕ → ℕ → Event
  set_download_url : List ℕ → Event

-- The pallet's own storage, and what it reads: the storage of the grouping pallet and the block
-- number.
pub record Storage : Type 0 where
  pub next_application_id : ℕ
  pub default_url : Option (List ℕ)
  pub appinfo_map : ℕ → Option AppInfo
  pub inuse_map : List Bool
  pub group_app_map : ℕ → Option ℕ
  pub events : List Event
  pub grouping : Grouping.Storage
  pub block_number : ℕ

abbrev pub Call : Type 0 → Type 0
Call A = Action Storage Error A

-- `get_groups`
abbrev pub get_groups : Storage → List ℕ
get_groups s = all_group_ids s.grouping

-- the `while` loop of `on_finalize`: the first application that is not in use
abbrev pub first_free : List Bool → Option ℕ
first_free [] = none
first_free (b ∷ bs) =
    let rest = first_free bs in
    if b then elim rest [ none ↦ none | some i ↦ some (suc i) ] else some 0

-- one round of the `for` loop of `on_finalize`, on the local copy of the flags and the storage
unfoldable pub alloc_group : ℕ → List Bool → Storage → List Bool × Storage
alloc_group group inuse_apps s = elim (s.group_app_map group) [
  | some _ ↦ (inuse_apps, s)
  | none ↦ elim (first_free inuse_apps) [
    | none ↦ (inuse_apps, s)
    | some index ↦ (
      set inuse_apps index true,
      record s {
        inuse_map = set s.inuse_map index true;
        group_app_map = update s.group_app_map group (some (index + 1));
      },
    )
  ]
]

unfoldable pub alloc_groups : List ℕ → List Bool → Storage → Storage
unfolding alloc_group
alloc_groups [] inuse_apps s = s
alloc_groups (g ∷ gs) inuse_apps s =
    let (inuse_apps', s') = alloc_group g inuse_apps s in alloc_groups gs inuse_apps' s'

-- `Hooks::on_finalize`
unfoldable pub on_finalize : Storage → Storage
unfolding alloc_groups
on_finalize s = alloc_groups (get_groups s) s.inuse_map s

-- The arguments of `register_app`.
pub record Registration : Type 0 where
  pub app_hash : List ℕ
  pub project_name : List ℕ
  pub file_name : List ℕ
  pub size : ℕ
  pub args : Option (List ℕ)
  pub log : Option (List ℕ)
  pub is_docker_image : Option Bool
  pub docker_image : Option (List ℕ)

abbrev pub app_info : ℕ → Registration → AppInfo
app_info who r = record {
  app_hash = r.app_hash;
  creator = who;
  project_name = r.project_name;
  file_name = r.file_name;
  uploaded = false;
  size = r.size;
  args = r.args;
  log = r.log;
  is_docker_image = r.is_docker_image;
  docker_image = r.docker_image;
}

-- `register_app`, where `max` is `MaxRuningAPP`
unfoldable pub register : ℕ → Origin → Registration → Call (Unit {0})
register max origin r = do
  who ← ensure_signed bad_origin origin
  id ← gets (λ (s : Storage). s.next_application_id)
  modify (λ s. record s {
    appinfo_map = update s.appinfo_map id (some (app_info who r));
    next_application_id = add_u32 id 1;
  })
  inuse_apps ← gets (λ (s : Storage). s.inuse_map)
  ensure (ltb (length inuse_apps) max) app_not_exist
  modify λ s. record s {
    inuse_map = push inuse_apps false;
    events = register_app id r.project_name r.file_name r.app_hash r.size ∷ s.events;
  }

-- `set_default_url`
unfoldable pub set_default_url : Origin → List ℕ → Call (Unit {0})
set_default_url origin url = do
  ensure_root bad_origin origin
  modify λ s. record s { default_url = some url; events = set_download_url url ∷ s.events }

-- `get_group_id`
unfoldable pub get_group_id : ℕ → Storage → ℕ
get_group_id author s = elim (group_index author 0 s.grouping.group_members) [
  | none ↦ 0xFFFFFFFF
  | some g ↦ g
]

abbrev or_false : Option Bool → Bool
or_false none = false
or_false (some b) = b

-- `shuld_load`
unfoldable pub shuld_load : ℕ → Storage → Option DownloadInfo
unfolding get_group_id
shuld_load author s = elim (s.group_app_map (get_group_id author s)) [
  | none ↦ none
  | some app_id ↦ elim (s.appinfo_map app_id) [
    | none ↦ none
    | some app ↦ elim s.default_url [
      | none ↦ none
      | some url ↦ some (record {
        app_id = app_id;
        app_hash = app.app_hash;
        file_name = app.file_name;
        size = app.size;
        group = get_group_id author s;
        url = url;
        args = app.args;
        log = app.log;
        is_docker_image = or_false app.is_docker_image;
        docker_image = app.docker_image;
      })
    ]
  ]
]

-- `should_run`
unfoldable pub should_run : Storage → Bool
should_run s = s.grouping.next_round.starting_block == s.block_number
