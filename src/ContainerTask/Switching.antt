-- ===== src/ContainerTask/Switching.antt =====
-- `process_run_task` of node/src/container_task.rs for applications that run as processes: which
-- processes are up, and which of them the node knows.
use popsicle.Prelude.{
  ℕ, ◌≡◌, inl, inr, Bool, true, false, Option, none, some, List, Bool-cases, ◌==◌, arith,
}
use popsicle.Prelude.Effects.{ok}
use popsicle.Container.{DownloadInfo}
use popsicle.ContainerTask.{Host, Node, StartType, record_run, record_sync, process_run_task}
use popsicle.ContainerTask.Replacing.{
  HostWorks, IsProcess, IsTracked, current, other, cur_ins-cases, other_instance_ok,
  replace_current_ok,
}

-- The node has started `child`, which is up, and `t` is in order.
pub record HasStarted (H : Host) (up : H.World → ℕ → Bool) (child : ℕ) (t : Node H) : Type 0 where
  pub tracked : IsTracked H up t
  pub started : up t.world child ≡ true

module _ (H : Host) (up : H.World → ℕ → Bool) (info : DownloadInfo)
    (run_args option_args : Option (List ℕ)) (n : Node H) (works : HostWorks H up)
    (process : IsProcess H info run_args) (tracked : IsTracked H up n) where
  -- On a host that works, where the two instances are exactly the processes that are up: a start for
  -- running of an application that is a process succeeds. The new process is then the only one that is
  -- up, it is in the place that was the current one, and the other place is the current one.
  pub process_run_task-run :
      (child : ℕ) × (t : Node H) × (process_run_task H info run_args option_args StartType.run n
        ≡ (ok tt, t))
      × HasStarted H up child t
      × ((c : ℕ) → up t.world c ≡ (child == c))
      × (other t.app ≡ some child)
      × (current t.app ≡ none)
  unfolding process_run_task
  process_run_task-run =
      let (child, v, e, fresh, grown) =
        replace_current_ok H up works info run_args option_args n process tracked.one tracked.two in
      let (w, f, stopped) =
        other_instance_ok H up works n.app (record n { world = v }) tracked.one tracked.two in
      let t : Node H = record { app = record_run H (some child) n.app; world = w } in
      let only : (c : ℕ) → up w c ≡ (child == c) = λ c. elim (cur_ins-cases n.app.cur_ins) [
        | inl i ↦ elim (Bool-cases (child == c)) [
          | inl here ↦
              let same : child ≡ c = ground (arith, here) in
              ground (
                arith,
                i,
                here,
                same,
                stopped c,
                grown c,
                fresh,
                tracked.known child,
                tracked.differ child,
              )
          | inr away ↦
              ground (arith, i, away, stopped c, grown c, tracked.known c, tracked.differ c)
        ]
        | inr i ↦ elim (Bool-cases (child == c)) [
          | inl here ↦
              let same : child ≡ c = ground (arith, here) in
              ground (
                arith,
                i,
                here,
                same,
                stopped c,
                grown c,
                fresh,
                tracked.known child,
                tracked.differ child,
              )
          | inr away ↦
              ground (arith, i, away, stopped c, grown c, tracked.known c, tracked.differ c)
        ]
      ] in
      let places : (other t.app ≡ some child)
          × (current t.app ≡ none)
          × (t.app.instance1_docker ≡ false)
          × (t.app.instance2_docker ≡ false) =
        elim (cur_ins-cases n.app.cur_ins) [
          | inl i ↦ (
            ground (arith, i, tracked.two),
            ground (arith, i, tracked.two),
            ground (arith, i, tracked.one, tracked.two),
            ground (arith, i, tracked.two),
          )
          | inr i ↦ (
            ground (arith, i, tracked.one),
            ground (arith, i, tracked.one),
            ground (arith, i, tracked.one),
            ground (arith, i, tracked.one, tracked.two),
          )
        ] in
      (
        child,
        t,
        ground (arith, e, f),
        record {
          tracked = record {
            one = places.2;
            two = places.3;
            differ = λ c. elim (cur_ins-cases n.app.cur_ins) [
              | inl i ↦ ground (arith, i, tracked.two)
              | inr i ↦ ground (arith, i, tracked.one)
            ];
            known = λ c. elim (cur_ins-cases n.app.cur_ins) [
              | inl i ↦ ground (arith, i, tracked.two, only c)
              | inr i ↦ ground (arith, i, tracked.one, only c)
            ];
          };
          started = ground (arith, only child);
        },
        only,
        places.0,
        places.1,
      )

  -- On such a host and from such a state, a start for synchronising of an application that is a process
  -- succeeds. The new process is the current instance, the other instance stays as it was and up, and
  -- again the two are exactly the processes that are up.
  pub process_run_task-sync :
      (child : ℕ) × (t : Node H) × (process_run_task H info run_args option_args StartType.sync n
        ≡ (ok tt, t))
      × HasStarted H up child t
      × (current t.app ≡ some child)
      × (other t.app ≡ other n.app)
  unfolding process_run_task
  process_run_task-sync =
      let (child, v, e, fresh, grown) =
        replace_current_ok H up works info run_args option_args n process tracked.one tracked.two in
      let t : Node H = record { app = record_sync H info (some child) n.app; world = v } in
      (
        child,
        t,
        ground (arith, e),
        record {
          tracked = record {
            one = ground (arith, cur_ins-cases n.app.cur_ins, tracked.one, process.process);
            two = ground (arith, cur_ins-cases n.app.cur_ins, tracked.two, process.process);
            differ = λ c. elim (Bool-cases (child == c)) [
              | inl here ↦
                  let same : child ≡ c = ground (arith, here) in
                  elim (cur_ins-cases n.app.cur_ins) [
                    | inl i ↦
                        ground (arith, i, same, fresh, tracked.known child, tracked.differ child)
                    | inr i ↦
                        ground (arith, i, same, fresh, tracked.known child, tracked.differ child)
                  ]
              | inr away ↦ elim (cur_ins-cases n.app.cur_ins) [
                | inl i ↦ ground (arith, i, away)
                | inr i ↦ ground (arith, i, away)
              ]
            ];
            known = λ c. elim (cur_ins-cases n.app.cur_ins) [
              | inl i ↦ ground (arith, i, grown c, tracked.known c, tracked.differ c)
              | inr i ↦ ground (arith, i, grown c, tracked.known c, tracked.differ c)
            ];
          };
          started = ground (arith, grown child);
        },
        ground (arith, cur_ins-cases n.app.cur_ins),
        ground (arith, cur_ins-cases n.app.cur_ins),
      )
