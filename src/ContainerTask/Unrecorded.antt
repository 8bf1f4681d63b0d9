-- ===== src/ContainerTask/Unrecorded.antt =====
-- `process_run_task` of node/src/container_task.rs where the other instance is a container.
use popsicle.Prelude.{
  ℕ, ◌≡◌, refl, inl, inr, Bool, true, false, Bool-cases, Option, none, some, List, ◌++◌, arith,
}
use popsicle.Prelude.Effects.{ok}
use popsicle.Container.{DownloadInfo}
use popsicle.ContainerTask.{
  Host, RunningApp, remove_docker_container, Node, StartType, instance_1, instance_2, stop_instance,
  start_instance, current_instance, log_file_name, replace_current, process_run_task,
}
use popsicle.ContainerTask.Replacing.{names, HostWorks, IsProcess, cur_ins-cases, arguments_ok}

-- A `Child` is a handle of its own: of the numbers that stand for them, `issued` says which have been
-- given out, and a new process is given another.
pub record NeverReused (H : Host) (issued : H.World → ℕ → Bool) : Type 0 where
  pub logs :
      (name : List ℕ) (w v : H.World)
      → H.create_log name w ≡ some v
      → (c : ℕ) → issued w c ≡ true
      → issued v c ≡ true
  pub kills :
      (child : ℕ) (w v : H.World)
      → H.kill child w ≡ some v
      → (c : ℕ) → issued w c ≡ true
      → issued v c ≡ true
  pub spawns :
      (file : List ℕ) (args : List (List ℕ)) (w : H.World) (child : ℕ) (v : H.World)
      → H.spawn file args w ≡ some (child, v)
      → issued w child ≡ false

abbrev current_docker : RunningApp → Bool
current_docker app = elim app.cur_ins [
  | instance_1 ↦ app.instance1_docker
  | instance_2 ↦ app.instance2_docker
]

abbrev other_docker : RunningApp → Bool
other_docker app = elim app.cur_ins [
  | instance_1 ↦ app.instance2_docker
  | instance_2 ↦ app.instance1_docker
]

abbrev other_docker_name : RunningApp → Option (List ℕ)
other_docker_name app = elim app.cur_ins [
  | instance_1 ↦ app.instance2_docker_name
  | instance_2 ↦ app.instance1_docker_name
]

-- The current instance is a process, the other one a container `name`, which is text, and the
-- processes that the instances name have been given out.
pub record IsMixed (H : Host) (issued : H.World → ℕ → Bool) (n : Node H) (name : List ℕ)
    : Type 0 where
  pub process : current_docker n.app ≡ false
  pub container : other_docker n.app ≡ true
  pub has_name : other_docker_name n.app ≡ some name
  pub text : H.is_utf8 name ≡ true
  pub one : (c : ℕ) → names n.app.instance1 c ≡ true → issued n.world c ≡ true
  pub two : (c : ℕ) → names n.app.instance2 c ≡ true → issued n.world c ≡ true

-- The container is gone and the instances have changed places; nothing else is different.
abbrev pub without_container : RunningApp → RunningApp
without_container app = elim app.cur_ins [
  | instance_1 ↦ record app {
    instance2_docker = false;
    instance2_docker_name = none;
    cur_ins = instance_2;
  }
  | instance_2 ↦ record app {
    instance1_docker = false;
    instance1_docker_name = none;
    cur_ins = instance_1;
  }
]

module _ (H : Host) (up issued : H.World → ℕ → Bool) (works : HostWorks H up)
    (apart : NeverReused H issued) where
  -- A process or nothing is stopped.
  stop_process_issued :
      (name : Option (List ℕ)) (child : Option ℕ) (n : Node H)
      → (v : H.World) × (stop_instance H false name child n ≡ (ok tt, record n { world = v }))
        × ((c : ℕ) → issued n.world c ≡ true → issued v c ≡ true)
  unfolding stop_instance
  stop_process_issued name none n = (n.world, refl, λ c h. h)
  stop_process_issued name (some child) n =
      let (v, e, _) = works.kills child n.world in
      (v, ground (arith, e), apart.kills child n.world v e)

  current_instance_issued :
      (app : RunningApp) (n : Node H)
      → current_docker app ≡ false
      → (v : H.World) × (current_instance H app n ≡ (ok tt, record n { world = v }))
        × ((c : ℕ) → issued n.world c ≡ true → issued v c ≡ true)
  current_instance_issued app n process = elim (cur_ins-cases app.cur_ins) [
    | inl i ↦
        let no : app.instance1_docker ≡ false = ground (arith, i, process) in
        rw (i, no) (stop_process_issued app.instance1_docker_name app.instance1 n)
    | inr i ↦
        let no : app.instance2_docker ≡ false = ground (arith, i, process) in
        rw (i, no) (stop_process_issued app.instance2_docker_name app.instance2 n)
  ]

  -- The current instance makes way for a process whose number is new.
  replace_current_apart :
      (info : DownloadInfo) (run_args option_args : Option (List ℕ)) (n : Node H)
      → IsProcess H info run_args
      → current_docker n.app ≡ false
      → (child : ℕ) × (v : H.World) × (replace_current H info run_args option_args n
          ≡ (ok (some child), record n { world = v }))
        × (up v child ≡ true)
        × ¬ (issued n.world child ≡ true)
  unfolding replace_current start_instance
  replace_current_apart info run_args option_args n p process =
      let (xs, a) = arguments_ok H up works run_args n p.more in
      let (ys, b) = arguments_ok H up works info.args n p.args in
      let (u, l, _) = works.logs (log_file_name H info) n.world in
      let (w, k, later) = current_instance_issued n.app (record n { world = u }) process in
      let (child, v, s, _, grown) = works.spawns info.file_name (ys ++ xs) w in
      (
        child,
        v,
        ground (arith, a, b, p.log, l, k, p.process, p.name, s),
        ground (arith, grown child),
        λ old.
            let before = later child (apart.logs (log_file_name H info) n.world u l child old) in
            let new = apart.spawns info.file_name (ys ++ xs) w child v s in
            ground (arith, before, new),
      )

-- On a host that works and gives every process a handle of its own, where the current instance is a
-- process, the other one a container, and removing the container stops no process: a start for running
-- of an application that is a process succeeds. Its new process is up, but neither instance is that
-- process: what the node knows of its instances is as before, but for the container, which is gone,
-- and for the change of places.
pub process_run_task-run_unrecorded :
    (H : Host) (up issued : H.World → ℕ → Bool) (info : DownloadInfo)
    (run_args option_args : Option (List ℕ)) (n : Node H) (name : List ℕ)
    → HostWorks H up
    → NeverReused H issued
    → IsProcess H info run_args
    → IsMixed H issued n name
    → ((w : H.World) (c : ℕ) → up (remove_docker_container H name w) c ≡ up w c)
    → (child : ℕ) × (t : Node H) × (process_run_task H info run_args option_args StartType.run n
        ≡ (ok tt, t))
      × (up t.world child ≡ true)
      × (names t.app.instance1 child ≡ false)
      × (names t.app.instance2 child ≡ false)
      × (t.app ≡ without_container n.app)
unfolding process_run_task stop_instance
process_run_task-run_unrecorded H up issued info run_args option_args n name works apart process
      mixed unharmed =
    let (child, v, e, runs, new) =
      replace_current_apart H up issued works apart info run_args option_args n process
        mixed.process in
    let t : Node H = record {
      app = without_container n.app;
      world = remove_docker_container H name v;
    } in
    let one : names n.app.instance1 child ≡ false =
      elim (Bool-cases (names n.app.instance1 child)) [
        | inl same ↦ absurd (new (mixed.one child same))
        | inr differs ↦ differs
      ] in
    let two : names n.app.instance2 child ≡ false =
      elim (Bool-cases (names n.app.instance2 child)) [
        | inl same ↦ absurd (new (mixed.two child same))
        | inr differs ↦ differs
      ] in
    (
      child,
      t,
      ground (arith, cur_ins-cases n.app.cur_ins, e, mixed.container, mixed.has_name, mixed.text),
      ground (arith, unharmed v child, runs),
      ground (arith, cur_ins-cases n.app.cur_ins, one),
      ground (arith, cur_ins-cases n.app.cur_ins, two),
      refl,
    )
