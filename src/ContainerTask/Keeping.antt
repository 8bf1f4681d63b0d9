-- ===== src/ContainerTask/Keeping.antt =====
-- What the tasks of node/src/container_task.rs leave alone: the status and the loaded application.
use popsicle.Prelude.{
  ℕ, ◌≡◌, refl, inl, inr, Bool, true, false, Option, none, some, List, ◌++◌, Option-cases,
  Bool-cases, arith,
}
use popsicle.Prelude.Effects.{pure, ensure, gets, ◌>>=◌, Outcome-cases}
use popsicle.Container.{DownloadInfo}
use popsicle.ContainerTask.Replacing.{cur_ins-cases}
use popsicle.ContainerTask.{
  Host, need_download, remove_docker_container, check_docker_image_exist, download_docker_image,
  pull, Node, Task, RunningApp, StartType, check_utf8, on_host, on_host_logged, split_spaces,
  invalid_utf8, arguments, stop_instance, start_instance, current_instance, other_instance,
  finish_start, log_file_name, record_run, replace_current, process_run_task, obtain_image,
  obtain_file, obtain,
}

module _ (H : Host) where
  abbrev pub SameStatus : Node H → Node H → Type 0
  SameStatus n t = (t.app.running ≡ n.app.running) × (t.app.app_info ≡ n.app.app_info)

  abbrev pub Keeps : {A : Type 0} → Task H A → Type 0
  Keeps m = (n : Node H) → SameStatus n (m n).1

  bind-Keeps :
      {A B : Type 0} (m : Task H A) (k : A → Task H B)
      → Keeps m
      → ((a : A) → Keeps (k a))
      → Keeps (m >>= k)
  bind-Keeps m k h i n = elim (Outcome-cases (m n).0) [
    | inl (a, e) ↦ ground (arith, e, i a (m n).1, h n)
    | inr (inl (x, e)) ↦ ground (arith, e, h n)
    | inr (inr e) ↦ ground (arith, e, h n)
  ]

  on_world-Keeps : (f : H.World → Option H.World) → Keeps (on_host H f)
  on_world-Keeps f n = elim (Option-cases (f n.world)) [
    | inl e ↦ ground (arith, e)
    | inr (w, e) ↦ ground (arith, e)
  ]

  ensure-Keeps : (b : Bool) → Keeps (ensure b invalid_utf8)
  ensure-Keeps true n = (refl, refl)
  ensure-Keeps false n = (refl, refl)

  arguments-Keeps : (args : Option (List ℕ)) → Keeps (arguments H args)
  unfolding arguments
  arguments-Keeps none n = (refl, refl)
  arguments-Keeps (some a) n =
      bind-Keeps (check_utf8 H a) (λ _. pure (split_spaces a)) (ensure-Keeps (H.is_utf8 a))
        (λ _ n. (refl, refl)) n

  stop_instance-Keeps :
      (docker : Bool) (name : Option (List ℕ)) (child : Option ℕ)
      → Keeps (stop_instance H docker name child)
  unfolding stop_instance
  stop_instance-Keeps true none child n = (refl, refl)
  stop_instance-Keeps true (some name) child n =
      bind-Keeps (check_utf8 H name) (λ _. on_host_logged H (remove_docker_container H name))
        (ensure-Keeps (H.is_utf8 name)) (λ _ n. (refl, refl)) n
  stop_instance-Keeps false name none n = (refl, refl)
  stop_instance-Keeps false name (some child) n = on_world-Keeps (H.kill child) n

  start_instance-Keeps :
      (info : DownloadInfo) (args : List (List ℕ)) (option_args : Option (List ℕ))
      → Keeps (start_instance H info args option_args)
  unfolding start_instance
  start_instance-Keeps info args option_args n = elim (Bool-cases info.is_docker_image) [
    | inl docker ↦ elim (Option-cases info.docker_image) [
      | inl e ↦ ground (arith, docker, e)
      | inr (image, e) ↦
          ground
            (arith, docker, e, Bool-cases (H.is_utf8 image), Bool-cases (H.is_utf8 info.file_name))
    ]
    | inr process ↦ elim (Bool-cases (H.is_utf8 info.file_name)) [
      | inr bad ↦ ground (arith, process, bad)
      | inl good ↦ elim (Option-cases (H.spawn info.file_name args n.world)) [
        | inl e ↦ ground (arith, process, good, e)
        | inr ((child, w), e) ↦ ground (arith, process, good, e)
      ]
    ]
  ]

  current_instance-Keeps : (app : RunningApp) → Keeps (current_instance H app)
  current_instance-Keeps app n = ground (
    arith,
    stop_instance-Keeps app.instance1_docker app.instance1_docker_name app.instance1 n,
    stop_instance-Keeps app.instance2_docker app.instance2_docker_name app.instance2 n,
  )

  other_instance-Keeps : (app : RunningApp) → Keeps (other_instance H app)
  other_instance-Keeps app n = ground (
    arith,
    stop_instance-Keeps app.instance1_docker app.instance1_docker_name app.instance1 n,
    stop_instance-Keeps app.instance2_docker app.instance2_docker_name app.instance2 n,
  )

  module _ (info : DownloadInfo) (run_args option_args : Option (List ℕ)) where
    abbrev then_start : List (List ℕ) → RunningApp → Task H (Option ℕ)
    then_start args app = current_instance H app >>= λ _. start_instance H info args option_args

    abbrev then_read : List (List ℕ) → Unit {0} → Task H (Option ℕ)
    then_read args _ = gets (λ (n : Node H). n.app) >>= then_start args

    abbrev then_log : List (List ℕ) → Unit {0} → Task H (Option ℕ)
    then_log args _ = on_host H (H.create_log (log_file_name H info)) >>= then_read args

    abbrev then_check : List (List ℕ) → List (List ℕ) → Task H (Option ℕ)
    then_check xs ys = check_utf8 H (log_file_name H info) >>= then_log (ys ++ xs)

    abbrev then_args : List (List ℕ) → Task H (Option ℕ)
    then_args xs = arguments H info.args >>= then_check xs

    then_start-Keeps : (args : List (List ℕ)) (app : RunningApp) → Keeps (then_start args app)
    then_start-Keeps args app =
        bind-Keeps (current_instance H app) (λ _. start_instance H info args option_args)
          (current_instance-Keeps app) (λ _. start_instance-Keeps info args option_args)

    then_log-Keeps : (args : List (List ℕ)) → Keeps (then_log args tt)
    then_log-Keeps args =
        bind-Keeps (on_host H (H.create_log (log_file_name H info))) (then_read args)
          (on_world-Keeps (H.create_log (log_file_name H info)))
          (λ _.
            bind-Keeps (gets (λ (n : Node H). n.app)) (then_start args) (λ n. (refl, refl))
              (then_start-Keeps args))

    pub replace_current-Keeps : Keeps (replace_current H info run_args option_args)
    unfolding replace_current
    replace_current-Keeps =
        bind-Keeps (arguments H run_args) then_args (arguments-Keeps run_args) (λ xs.
          bind-Keeps (arguments H info.args) (then_check xs) (arguments-Keeps info.args) (λ ys.
            bind-Keeps (check_utf8 H (log_file_name H info)) (then_log (ys ++ xs))
              (ensure-Keeps (H.is_utf8 (log_file_name H info))) (λ _. then_log-Keeps (ys ++ xs))))

    record_run-SameStatus :
        (child : Option ℕ) (app : RunningApp)
        → ((record_run H child app).running ≡ app.running)
          × ((record_run H child app).app_info ≡ app.app_info)
    record_run-SameStatus child app = ground (
      arith,
      cur_ins-cases app.cur_ins,
      Bool-cases app.instance1_docker,
      Bool-cases app.instance2_docker,
    )

    finish_start-Keeps :
        (start_type : StartType) (child : Option ℕ) → Keeps (finish_start H start_type info child)
    finish_start-Keeps StartType.run child n = ground (
      arith,
      other_instance-Keeps n.app n,
      Outcome-cases (other_instance H n.app n).0,
      record_run-SameStatus child (other_instance H n.app n).1.app,
    )
    finish_start-Keeps StartType.sync child n = ground (arith, cur_ins-cases n.app.cur_ins)

    -- A start changes neither the status nor the loaded application, whatever comes of it.
    pub process_run_task-Keeps :
        (start_type : StartType) → Keeps (process_run_task H info run_args option_args start_type)
    unfolding process_run_task
    process_run_task-Keeps start_type =
        bind-Keeps (replace_current H info run_args option_args)
          (λ child. finish_start H start_type info child) replace_current-Keeps
          (finish_start-Keeps start_type)

  -- Nor does the search for the image or the file.
  pub obtain-Keeps : (info : DownloadInfo) → Keeps (obtain H info)
  unfolding obtain obtain_image obtain_file download_docker_image
  obtain-Keeps info n = elim (Bool-cases info.is_docker_image) [
    | inl docker ↦ elim (Option-cases info.docker_image) [
      | inl e ↦ ground (arith, docker, e)
      | inr (image, e) ↦ elim (Bool-cases (H.is_utf8 image)) [
        | inr bad ↦ ground (arith, docker, e, bad)
        | inl good ↦ elim (Option-cases (check_docker_image_exist H image n.world)) [
          | inl f ↦ ground (arith, docker, e, good, f)
          | inr (there, f) ↦ elim (Bool-cases there) [
            | inl g ↦ ground (arith, docker, e, good, f, g)
            | inr g ↦
                let w : H.World = (H.docker (split_spaces (pull ++ image)) n.world).1 in
                elim (Bool-cases (H.docker (split_spaces (pull ++ image)) n.world).0) [
                  | inr k ↦ ground (arith, docker, e, good, f, g, k)
                  | inl k ↦ ground (
                    arith,
                    docker,
                    e,
                    good,
                    f,
                    g,
                    k,
                    Option-cases (check_docker_image_exist H image w),
                  )
                ]
          ]
        ]
      ]
    ]
    | inr file ↦ ground (
      arith,
      file,
      Bool-cases (H.is_utf8 info.url),
      Bool-cases (H.is_utf8 info.file_name),
      Option-cases (need_download H info.file_name info.app_hash n.world),
    )
  ]
