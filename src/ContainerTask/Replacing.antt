-- ===== src/ContainerTask/Replacing.antt =====
-- The first part of `process_run_task` of node/src/container_task.rs on a host that works: the current
-- instance makes way for a new process.
use popsicle.Prelude.{
  ℕ, ◌≡◌, ◌⊎◌, refl, inl, inr, Bool, true, false, ◌&&◌, ◌||◌, Option, none, some, List, ◌++◌, ◌==◌,
  if◌then◌else◌, arith,
}
use popsicle.Prelude.Effects.{ok}
use popsicle.Container.{DownloadInfo}
use popsicle.ContainerTask.{
  Host, Node, RunningApp, InstanceIndex, instance_1, instance_2, arguments, split_spaces,
  stop_instance, start_instance, current_instance, other_instance, log_file_name, replace_current,
}

-- Whether an instance is the process `c`.
abbrev pub names : Option ℕ → ℕ → Bool
names none c = false
names (some child) c = child == c

-- A host that works: of its processes, `up` says which have been started and not stopped since.
pub record HostWorks (H : Host) (up : H.World → ℕ → Bool) : Type 0 where
  pub logs :
      (name : List ℕ) (w : H.World)
      → (v : H.World) × (H.create_log name w ≡ some v) × ((c : ℕ) → up v c ≡ up w c)
  pub kills :
      (child : ℕ) (w : H.World)
      → (v : H.World) × (H.kill child w ≡ some v)
        × ((c : ℕ) → up v c ≡ (if child == c then false else up w c))
  pub spawns :
      (file : List ℕ) (args : List (List ℕ)) (w : H.World)
      → (child : ℕ) × (v : H.World) × (H.spawn file args w ≡ some (child, v))
        × (up w child ≡ false)
        × ((c : ℕ) → up v c ≡ (if child == c then true else up w c))

abbrev pub Readable : (H : Host) → Option (List ℕ) → Type 0
Readable H none = Unit
Readable H (some bytes) = H.is_utf8 bytes ≡ true

-- An application that runs as a process, and whose names and arguments are text.
pub record IsProcess (H : Host) (info : DownloadInfo) (run_args : Option (List ℕ)) : Type 0 where
  pub process : info.is_docker_image ≡ false
  pub name : H.is_utf8 info.file_name ≡ true
  pub log : H.is_utf8 (log_file_name H info) ≡ true
  pub args : Readable H info.args
  pub more : Readable H run_args

-- No instance is a container, the two instances differ, and they are exactly the processes that are up.
pub record IsTracked (H : Host) (up : H.World → ℕ → Bool) (n : Node H) : Type 0 where
  pub one : n.app.instance1_docker ≡ false
  pub two : n.app.instance2_docker ≡ false
  pub differ : (c : ℕ) → (names n.app.instance1 c && names n.app.instance2 c) ≡ false
  pub known : (c : ℕ) → up n.world c ≡ (names n.app.instance1 c || names n.app.instance2 c)

abbrev pub current : RunningApp → Option ℕ
current app = elim app.cur_ins [ instance_1 ↦ app.instance1 | instance_2 ↦ app.instance2 ]

abbrev pub other : RunningApp → Option ℕ
other app = elim app.cur_ins [ instance_1 ↦ app.instance2 | instance_2 ↦ app.instance1 ]

pub cur_ins-cases : (i : InstanceIndex) → (i ≡ instance_1) ⊎ (i ≡ instance_2)
cur_ins-cases instance_1 = inl refl
cur_ins-cases instance_2 = inr refl

module _ (H : Host) (up : H.World → ℕ → Bool) (works : HostWorks H up) where
  pub arguments_ok :
      (args : Option (List ℕ)) (n : Node H)
      → Readable H args
      → (xs : List (List ℕ)) × (arguments H args n ≡ (ok xs, n))
  unfolding arguments
  arguments_ok none n h = (_, refl)
  arguments_ok (some a) n h = (split_spaces a, ground (arith, h))

  -- The processes that are up once `child` is stopped.
  abbrev pub Without : Option ℕ → H.World → H.World → Type 0
  Without child w v = (c : ℕ) → up v c ≡ (if names child c then false else up w c)

  pub stop_process :
      (name : Option (List ℕ)) (child : Option ℕ) (n : Node H)
      → (v : H.World) × (stop_instance H false name child n ≡ (ok tt, record n { world = v }))
        × Without child n.world v
  unfolding stop_instance
  stop_process name none n = (n.world, refl, λ c. refl)
  stop_process name (some child) n =
      let (v, e, h) = works.kills child n.world in (v, ground (arith, e), h)

  module _ (app : RunningApp) (n : Node H) (one : app.instance1_docker ≡ false)
      (two : app.instance2_docker ≡ false) where
    current_instance_ok :
        (v : H.World) × (current_instance H app n ≡ (ok tt, record n { world = v }))
        × Without (current app) n.world v
    current_instance_ok = elim (cur_ins-cases app.cur_ins) [
      | inl e ↦ rw (e, one) (stop_process app.instance1_docker_name app.instance1 n)
      | inr e ↦ rw (e, two) (stop_process app.instance2_docker_name app.instance2 n)
    ]

    pub other_instance_ok :
        (v : H.World) × (other_instance H app n ≡ (ok tt, record n { world = v }))
        × Without (other app) n.world v
    other_instance_ok = elim (cur_ins-cases app.cur_ins) [
      | inl e ↦ rw (e, two) (stop_process app.instance2_docker_name app.instance2 n)
      | inr e ↦ rw (e, one) (stop_process app.instance1_docker_name app.instance1 n)
    ]

  -- The current instance makes way for the new one.
  pub replace_current_ok :
      (info : DownloadInfo) (run_args option_args : Option (List ℕ)) (n : Node H)
      → IsProcess H info run_args
      → n.app.instance1_docker ≡ false
      → n.app.instance2_docker ≡ false
      → (child : ℕ) × (v : H.World) × (replace_current H info run_args option_args n
          ≡ (ok (some child), record n { world = v }))
        × ((if names (current n.app) child then false else up n.world child) ≡ false)
        × ((c : ℕ)
            → up v c ≡ (
                if child == c
                then true
                else if names (current n.app) c
                then false
                else up n.world c))
  unfolding replace_current start_instance
  replace_current_ok info run_args option_args n p one two =
      let (xs, a) = arguments_ok run_args n p.more in
      let (ys, b) = arguments_ok info.args n p.args in
      let (u, l, same) = works.logs (log_file_name H info) n.world in
      let (w, k, stopped) = current_instance_ok n.app (record n { world = u }) one two in
      let (child, v, s, fresh, grown) = works.spawns info.file_name (ys ++ xs) w in
      (
        child,
        v,
        ground (arith, a, b, p.log, l, k, p.process, p.name, s),
        ground (arith, same child, stopped child, fresh),
        λ c. ground (arith, same c, stopped c, grown c),
      )
