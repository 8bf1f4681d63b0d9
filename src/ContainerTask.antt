-- ===== src/ContainerTask.antt =====
-- The task of a node that runs the container application of its group: node/src/container_task.rs.
-- Processes, docker and the network are not part of this repository: their state is `World`, their
-- calls are fields of `Host`, of which `none` is an error.
pub mod Ranges
pub mod Replacing
pub mod Switching
pub mod Unrecorded
pub mod Keeping
pub mod Steps
pub mod Status
pub mod Stuck
mod Examples
use popsicle.Prelude.{
  add_u64, sub_u64, length, ℕ, zero, suc, ◌+◌, ◌-◌, min, Bool, true, false, not, ◌&&◌, Option, none,
  some, List, [], ◌∷◌, ◌++◌, ltb, ◌==◌, if◌then◌else◌, max_u32,
}
use popsicle.Prelude.Effects.{
  Action, discard, ok, err, panic, pure, fail, gets, ok_or, ensure, modify, ◌>>=◌, ◌>>◌,
}
use popsicle.Container.{DownloadInfo}
use popsicle.Grouping.{same_bytes}

-- `PartialRangeIter`: `start` and `end` are u64, `buffer_size` is u32.
pub record PartialRangeIter : Type 0 where
  pub start : ℕ
  pub end : ℕ
  pub buffer_size : ℕ

-- `PartialRangeIter::new`, of two u64 and a u32
unfoldable pub new : ℕ → ℕ → ℕ → Option PartialRangeIter
new start end buffer_size =
    if buffer_size == 0
    then none
    else some (record { start = start; end = end; buffer_size = buffer_size })

-- `PartialRangeIter::next`: the first and the last byte of the header, and the rest. The sums and
-- differences wrap as u64 do.
unfoldable pub next : PartialRangeIter → Option ((ℕ × ℕ) × PartialRangeIter)
next r =
    if ltb r.end r.start
    then none
    else (let after = add_u64 r.start (min r.buffer_size (add_u64 (sub_u64 r.end r.start) 1)) in
        some ((r.start, sub_u64 after 1), record r { start = after }))

-- `CHUNK_SIZE`
abbrev pub chunk_size : ℕ
chunk_size = 1024000

-- The iterator of `download_sdk` over a file of `length` bytes.
unfoldable pub file_ranges : ℕ → Option PartialRangeIter
file_ranges length = new 0 (sub_u64 length 1) chunk_size

pub data StartType : Type 0 where
  sync run : StartType

pub data InstanceIndex : Type 0 where
  instance_1 instance_2 : InstanceIndex

pub data RunStatus : Type 0 where
  pending downloading downloaded running : RunStatus

-- A child process is its number.
pub record RunningApp : Type 0 where
  pub group_id : ℕ
  pub app_id : ℕ
  pub running : RunStatus
  pub app_info : Option DownloadInfo
  pub instance1 : Option ℕ
  pub instance2 : Option ℕ
  pub instance1_docker : Bool
  pub instance2_docker : Bool
  pub instance1_docker_name : Option (List ℕ)
  pub instance2_docker_name : Option (List ℕ)
  pub cur_ins : InstanceIndex

-- the value in `relay_chain_notification`
abbrev pub initial_app : RunningApp
initial_app = record {
  group_id = max_u32;
  app_id = max_u32;
  running = RunStatus.pending;
  app_info = none;
  instance1 = none;
  instance2 = none;
  instance1_docker = false;
  instance2_docker = false;
  instance1_docker_name = none;
  instance2_docker_name = none;
  cur_ins = instance_1;
}

pub record Host : Type 1 where
  pub World : Type 0
  -- `std::str::from_utf8(…)` succeeds
  pub is_utf8 : List ℕ → Bool
  -- `File::create` of a log file
  pub create_log : List ℕ → World → Option World
  -- `kill` and `wait` of a child process
  pub kill : ℕ → World → Option World
  -- `spawn` of the downloaded file with arguments
  pub spawn : List ℕ → List (List ℕ) → World → Option (ℕ × World)
  -- `spawn` and `wait` of the docker command with arguments: whether both succeed, and the host after
  pub docker : List (List ℕ) → World → Bool × World
  -- the output of the docker command with arguments, passed through `grep` for a pattern
  pub docker_grep : List (List ℕ) → List ℕ → World → Option (List ℕ)
  -- `File::open` of a downloaded file, by name, and then `sha256_digest` of what it holds
  pub open_digest : List ℕ → World → Option (Option (List ℕ))
  -- whether `download_sdk` succeeds, and the host after it
  pub download_sdk : DownloadInfo → World → Bool × World

-- Why a task ends early.
pub data TaskError : Type 0 where
  invalid_utf8 : TaskError
  host_error : TaskError
  docker_image_not_exist : TaskError

-- The application that is shared under a lock, and the host.
pub record Node (H : Host) : Type 0 where
  pub app : RunningApp
  pub world : H.World

abbrev pub Task : Host → Type 0 → Type 0
Task H A = Action (Node H) TaskError A

-- `str::split(' ')`
abbrev pub push_byte : ℕ → List (List ℕ) → List (List ℕ)
push_byte b [] = (b ∷ []) ∷ []
push_byte b (w ∷ ws) = (b ∷ w) ∷ ws

abbrev pub split_spaces : List ℕ → List (List ℕ)
split_spaces [] = [] ∷ []
split_spaces (b ∷ bs) =
    let rest = split_spaces bs in if b == 32 then [] ∷ rest else push_byte b rest

-- "container stop "
abbrev container_stop : List ℕ
container_stop =
    99 ∷ 111 ∷ 110 ∷ 116 ∷ 97 ∷ 105 ∷ 110 ∷ 101 ∷ 114 ∷ 32 ∷ 115 ∷ 116 ∷ 111 ∷ 112 ∷ 32 ∷ []

-- "container remove "
abbrev container_remove : List ℕ
container_remove =
    99 ∷ 111 ∷ 110 ∷ 116 ∷ 97 ∷ 105 ∷ 110 ∷ 101 ∷ 114 ∷ 32 ∷ 114 ∷ 101 ∷ 109 ∷ 111 ∷ 118 ∷ 101 ∷ 32
    ∷ []

-- "pull "
abbrev pub pull : List ℕ
pull = 112 ∷ 117 ∷ 108 ∷ 108 ∷ 32 ∷ []

-- "run -itd --name "
abbrev run_named : List ℕ
run_named =
    114 ∷ 117 ∷ 110 ∷ 32 ∷ 45 ∷ 105 ∷ 116 ∷ 100 ∷ 32 ∷ 45 ∷ 45 ∷ 110 ∷ 97 ∷ 109 ∷ 101 ∷ 32 ∷ []

-- "image ls "
abbrev image_ls : List ℕ
image_ls = 105 ∷ 109 ∷ 97 ∷ 103 ∷ 101 ∷ 32 ∷ 108 ∷ 115 ∷ 32 ∷ []

module _ (H : Host) where
  -- `remove_docker_container`, of which the result is logged only
  unfoldable pub remove_docker_container : List ℕ → H.World → H.World
  remove_docker_container name w =
      let (stopped, v) = H.docker (split_spaces (container_stop ++ name)) w in
      if stopped then (H.docker (split_spaces (container_remove ++ name)) v).1 else v

  -- `start_docker_container`, of which the result is logged only
  unfoldable pub start_docker_container :
      List ℕ → List ℕ → List (List ℕ) → Option (List ℕ) → H.World → H.World
  start_docker_container name image in_args none w =
      (H.docker (split_spaces (run_named ++ (name ++ (32 ∷ image))) ++ in_args) w).1
  start_docker_container name image in_args (some option) w =
      if H.is_utf8 option
      then (H.docker
          (split_spaces (run_named ++ (name ++ (32 ∷ (option ++ (32 ∷ image))))) ++ in_args) w).1
      else w

  -- `need_download`: a file that cannot be opened is to be downloaded.
  unfoldable pub need_download : List ℕ → List ℕ → H.World → Option Bool
  need_download file_name app_hash w = elim (H.open_digest file_name w) [
    | none ↦ some true
    | some none ↦ none
    | some (some digest) ↦ some (not (same_bytes digest app_hash))
  ]

  -- `check_docker_image_exist`
  unfoldable pub check_docker_image_exist : List ℕ → H.World → Option Bool
  check_docker_image_exist image w =
      elim (H.docker_grep (split_spaces (image_ls ++ image)) image w) [
        | none ↦ none
        | some out ↦ if H.is_utf8 out then some (ltb 0 (length out)) else none
      ]

  -- `download_docker_image`
  unfoldable pub download_docker_image : List ℕ → Task H (Unit {0})
  download_docker_image image n =
      let (done, w) = H.docker (split_spaces (pull ++ image)) n.world in
      (if done then ok tt else err host_error, record n { world = w })

  abbrev pub check_utf8 : List ℕ → Task H (Unit {0})
  check_utf8 bytes = ensure (H.is_utf8 bytes) invalid_utf8

  -- an effect on the host that may fail
  abbrev pub on_host : (H.World → Option H.World) → Task H (Unit {0})
  on_host f n = elim (f n.world) [
    | none ↦ (err host_error, n)
    | some w ↦ (ok tt, record n { world = w })
  ]

  abbrev pub on_host_logged : (H.World → H.World) → Task H (Unit {0})
  on_host_logged f = modify λ (n : Node H). record n { world = f n.world }

  abbrev pub set_app : (RunningApp → RunningApp) → Task H (Unit {0})
  set_app f = modify λ (n : Node H). record n { app = f n.app }

  -- the arguments of the application or of a start
  unfoldable pub arguments : Option (List ℕ) → Task H (List (List ℕ))
  arguments none = pure []
  arguments (some args) = check_utf8 args >> pure (split_spaces args)

  -- an instance is stopped, as a container by its name or as a process
  unfoldable pub stop_instance : Bool → Option (List ℕ) → Option ℕ → Task H (Unit {0})
  stop_instance true none child = pure tt
  stop_instance true (some name) child =
      check_utf8 name >> on_host_logged (remove_docker_container name)
  stop_instance false name none = pure tt
  stop_instance false name (some child) = on_host (H.kill child)

  abbrev pub current_instance : RunningApp → Task H (Unit {0})
  current_instance app = elim app.cur_ins [
    | instance_1 ↦ stop_instance app.instance1_docker app.instance1_docker_name app.instance1
    | instance_2 ↦ stop_instance app.instance2_docker app.instance2_docker_name app.instance2
  ]

  abbrev pub other_instance : RunningApp → Task H (Unit {0})
  other_instance app = elim app.cur_ins [
    | instance_1 ↦ stop_instance app.instance2_docker app.instance2_docker_name app.instance2
    | instance_2 ↦ stop_instance app.instance1_docker app.instance1_docker_name app.instance1
  ]

  -- the new instance is started: a container leaves no child process
  unfoldable pub start_instance : DownloadInfo → List (List ℕ) → Option (List ℕ) → Task H (Option ℕ)
  start_instance info args option_args =
      if info.is_docker_image
      then (do
        image ← ok_or docker_image_not_exist info.docker_image
        check_utf8 image
        check_utf8 info.file_name
        on_host_logged (start_docker_container info.file_name image args option_args)
        pure none)
      else (do
        check_utf8 info.file_name
        λ n. elim (H.spawn info.file_name args n.world) [
          | none ↦ (panic, n)
          | some (child, w) ↦ (ok (some child), record n { world = w })
        ])

  -- what a start for running records: the other instance is gone, and the instances change places
  abbrev pub record_run : Option ℕ → RunningApp → RunningApp
  record_run child app = elim app.cur_ins [
    | instance_1 ↦ elim app.instance2_docker [
      | true ↦ record app {
        instance2_docker = false;
        instance2_docker_name = none;
        cur_ins = instance_2;
      }
      | false ↦ record app { instance1 = child; instance2 = none; cur_ins = instance_2 }
    ]
    | instance_2 ↦ elim app.instance1_docker [
      | true ↦ record app {
        instance1_docker = false;
        instance1_docker_name = none;
        cur_ins = instance_1;
      }
      | false ↦ record app { instance2 = child; instance1 = none; cur_ins = instance_1 }
    ]
  ]

  -- what a start for synchronising records: the current instance is the new one
  abbrev pub record_sync : DownloadInfo → Option ℕ → RunningApp → RunningApp
  record_sync info child app =
      let name = if info.is_docker_image then some info.file_name else none in
      elim app.cur_ins [
        | instance_1 ↦ record app {
          instance1 = child;
          instance1_docker = info.is_docker_image;
          instance1_docker_name = name;
        }
        | instance_2 ↦ record app {
          instance2 = child;
          instance2_docker = info.is_docker_image;
          instance2_docker_name = name;
        }
      ]

  abbrev log_file_name : DownloadInfo → List ℕ
  log_file_name info = elim info.log [ none ↦ info.file_name | some log ↦ log ]

  abbrev pub finish_start : StartType → DownloadInfo → Option ℕ → Task H (Unit {0})
  finish_start StartType.run info child = do
    app ← gets (λ (n : Node H). n.app)
    other_instance app
    set_app (record_run child)
  finish_start StartType.sync info child = set_app (record_sync info child)

  -- `process_run_task` up to the start of the new instance
  unfoldable pub replace_current :
      DownloadInfo → Option (List ℕ) → Option (List ℕ) → Task H (Option ℕ)
  unfolding arguments stop_instance start_instance
  replace_current info run_args option_args = do
    extension_args ← arguments run_args
    args ← arguments info.args
    check_utf8 (log_file_name info)
    on_host (H.create_log (log_file_name info))
    app ← gets (λ (n : Node H). n.app)
    current_instance app
    start_instance info (args ++ extension_args) option_args

  -- `process_run_task`
  unfoldable pub process_run_task :
      DownloadInfo → Option (List ℕ) → Option (List ℕ) → StartType → Task H (Unit {0})
  unfolding replace_current
  process_run_task info run_args option_args start_type = do
    child ← replace_current info run_args option_args
    finish_start start_type info child

  -- whether the image is there, after it has been pulled where it was not
  unfoldable pub obtain_image : List ℕ → Task H Bool
  obtain_image image = do
    check_utf8 image
    exists ← ok_or host_error (← gets (λ (n : Node H). check_docker_image_exist image n.world))
    if exists then pure true else (do
      download_docker_image image
      ok_or host_error (← gets (λ (n : Node H). check_docker_image_exist image n.world)))

  -- whether the file is there, after it has been downloaded where it was needed
  unfoldable pub obtain_file : DownloadInfo → Task H Bool
  obtain_file info = do
    check_utf8 info.url
    check_utf8 info.file_name
    needed ← gets (λ (n : Node H). need_download info.file_name info.app_hash n.world)
    elim needed [
      | none ↦ pure false
      | some false ↦ pure true
      | some true ↦
          λ n. let (done, w) = H.download_sdk info n.world in (ok done, record n { world = w })
    ]

  unfoldable pub obtain : DownloadInfo → Task H Bool
  unfolding obtain_image obtain_file
  obtain info =
      if info.is_docker_image
      then elim info.docker_image [ none ↦ pure false | some image ↦ obtain_image image ]
      else obtain_file info

  -- the half of `process_download_task` for an application that is there; what the start answers is
  -- logged only.
  abbrev pub load_and_start :
      DownloadInfo → ℕ → Option (List ℕ) → Option (List ℕ) → Task H (Unit {0})
  load_and_start info new_group sync_args option_args = do
    discard (process_run_task info sync_args option_args StartType.sync)
    set_app
        λ a. record a { app_info = some info; group_id = new_group; running = RunStatus.downloaded }

  -- `process_download_task`
  unfoldable pub process_download_task :
      DownloadInfo → ℕ → Option (List ℕ) → Option (List ℕ) → Task H (Unit {0})
  unfolding obtain process_run_task
  process_download_task info new_group sync_args option_args = do
    start_flag ← obtain info
    if start_flag
        then load_and_start info new_group sync_args option_args
        else set_app (λ a. record a { running = RunStatus.pending })

-- A task that has been spawned.
pub data Spawned : Type 0 where
  download : DownloadInfo → ℕ → Option (List ℕ) → Option (List ℕ) → Spawned
  start : DownloadInfo → Option (List ℕ) → Option (List ℕ) → Spawned

pub data ArgsKey : Type 0 where
  run_args sync_args option_args : ArgsKey

-- What a new best head lets the node read: the answers of the runtime API, of which `none` is an
-- error, and the offchain storage, by key alone and by key and application.
pub record Head : Type 0 where
  pub should_load : Option (Option DownloadInfo)
  pub should_run : Option Bool
  pub args : ArgsKey → Option (List ℕ)
  pub args_of : ArgsKey → ℕ → Option (List ℕ)

abbrev pub or_args : Option (List ℕ) → Option (List ℕ) → Option (List ℕ)
or_args none other = other
or_args (some x) other = some x

abbrev pub is_pending : RunStatus → Bool
is_pending RunStatus.pending = true
is_pending RunStatus.downloading = false
is_pending RunStatus.downloaded = false
is_pending RunStatus.running = false

abbrev pub is_downloaded : RunStatus → Bool
is_downloaded RunStatus.pending = false
is_downloaded RunStatus.downloading = false
is_downloaded RunStatus.downloaded = true
is_downloaded RunStatus.running = false

-- The first half of `handle_new_best_parachain_head`: the application after it, the tasks spawned, and
-- the options that it has read.
unfoldable pub handle_load :
    Head → Option DownloadInfo → RunningApp → RunningApp × List Spawned × Option (List ℕ)
handle_load h none app = (app, [], h.args option_args)
handle_load h (some info) app =
    if not (app.group_id == info.group) && is_pending app.running
    then (let options = or_args (h.args option_args) (h.args_of option_args info.app_id) in
        (
          record app { running = RunStatus.downloading; app_id = info.app_id },
          download info info.group (or_args (h.args sync_args) (h.args_of sync_args info.app_id))
                options
              ∷ [],
          options,
        ))
    else (app, [], h.args option_args)

-- The second half, where the runtime says that the application should run.
unfoldable pub handle_run : Head → Option (List ℕ) → RunningApp → RunningApp × List Spawned
handle_run h options app = elim app.app_info [
  | none ↦ (app, [])
  | some info ↦
      if is_downloaded app.running
      then (
        record app { running = RunStatus.pending },
        start info (or_args (h.args run_args) (h.args_of run_args app.app_id))
              (or_args options (h.args_of option_args app.app_id))
            ∷ [],
      )
      else (app, [])
]

-- `handle_new_best_parachain_head`: an error of the runtime API ends it where it stands.
unfoldable pub handle_new_best_parachain_head : Head → RunningApp → RunningApp × List Spawned
unfolding handle_load handle_run
handle_new_best_parachain_head h app = elim h.should_load [
  | none ↦ (app, [])
  | some load ↦
      let (app', tasks, options) = handle_load h load app in
      elim h.should_run [
        | none ↦ (app', tasks)
        | some false ↦ (app', tasks)
        | some true ↦ let (app'', more) = handle_run h options app' in (app'', tasks ++ more)
      ]
]
