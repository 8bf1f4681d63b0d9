-- ===== src/ContainerTask/Stuck.antt =====
-- A download of node/src/container_task.rs that ends early: the status it leaves, for ever.
use popsicle.Prelude.{
  ℕ, zero, suc, ◌≤◌, ◌≡◌, refl, ◌∙◌, inl, inr, Option-cases, Bool-cases, Option, List, [], ◌∷◌,
  ◌++◌, arith,
}
use popsicle.Prelude.Effects.{err}
use popsicle.ContainerTask.Keeping.{process_run_task-Keeps, obtain-Keeps}
use popsicle.Container.{DownloadInfo}
use popsicle.ContainerTask.{
  Host, Node, RunningApp, RunStatus, Spawned, Head, download, start, StartType, TaskError, obtain,
  process_download_task, handle_load, handle_run, handle_new_best_parachain_head,
}
use popsicle.ContainerTask.Status.{allowed, Reach-IsTidy, at_most_one}
use popsicle.ContainerTask.Steps.{
  new_head, task_ends, here, next, Fleet, end_task, after_head, Step, Reach, downloads,
  downloads-append, Moves, handle_load-Moves, handle_run-Moves, downloads-without, fresh,
}

-- The status of a download, without a download.
pub record IsStuck (H : Host) (f : Fleet H) : Type 0 where
  pub status : f.node.app.running ≡ RunStatus.downloading
  pub none_left : downloads f.tasks ≡ 0

Moves-stuck :
    (app app' : RunningApp) (more : List Spawned)
    → app.running ≡ RunStatus.downloading
    → Moves app app' more
    → (app'.running ≡ RunStatus.downloading) × (downloads more ≡ 0)
Moves-stuck app app' more e (_, inl (d, same)) = (same ∙ e, d)
Moves-stuck app app' more e (_, inr (inl (d, a, b))) =
    let bad : RunStatus.downloading ≡ RunStatus.downloaded = ground (arith, e, b) in cc
Moves-stuck app app' more e (_, inr (inr (d, a, b))) =
    let bad : RunStatus.downloading ≡ RunStatus.pending = ground (arith, e, a) in cc

head-IsStuck : (H : Host) (f : Fleet H) (h : Head) → IsStuck H f → IsStuck H (after_head H h f)
unfolding handle_new_best_parachain_head
head-IsStuck H f h i = elim (Option-cases h.should_load) [
  | inl e ↦ rw e (record {
    status = i.status;
    none_left = omega (arith, i.none_left, downloads-append f.tasks []);
  })
  | inr (load, e) ↦
      let app = (handle_load h load f.node.app).0 in
      let tasks = (handle_load h load f.node.app).1 in
      let options = (handle_load h load f.node.app).2 in
      let (status, none_more) =
        Moves-stuck f.node.app app tasks i.status (handle_load-Moves h load f.node.app) in
      let count = downloads-append f.tasks tasks in
      let same : IsStuck H
          (record { node = record f.node { app = app }; tasks = f.tasks ++ tasks }) =
        record { status = status; none_left = omega (arith, i.none_left, none_more, count) } in
      elim (Option-cases h.should_run) [
        | inl g ↦ rw (e, g) same
        | inr (run, g) ↦ elim (Bool-cases run) [
          | inr never ↦ rw (e, g, never) same
          | inl now ↦
              let (status', none_yet) =
                Moves-stuck app (handle_run h options app).0 (handle_run h options app).1 status
                  (handle_run-Moves h options app) in
              let more = (handle_run h options app).1 in
              let both = downloads-append tasks more in
              let all = downloads-append f.tasks (tasks ++ more) in
              let last : IsStuck H (record {
                node = record f.node { app = (handle_run h options app).0 };
                tasks = f.tasks ++ (tasks ++ more);
              }) =
                record {
                  status = status';
                  none_left = omega (arith, i.none_left, none_more, none_yet, both, all);
                } in
              rw (e, g, now) last
        ]
      ]
]

end_task-IsStuck :
    (H : Host) (n : Node H) (before after : List Spawned) (t : Spawned)
    → IsStuck H (record { node = n; tasks = before ++ (t ∷ after) })
    → IsStuck H (record { node = end_task H t n; tasks = before ++ after })
end_task-IsStuck H n before after (start info run_args option_args) i =
    let (r, e) = process_run_task-Keeps H info run_args option_args StartType.run n in
    record {
      status = r ∙ i.status;
      none_left =
          omega
            (arith, i.none_left, downloads-without before after (start info run_args option_args));
    }
end_task-IsStuck H n before after (download info group sync_args option_args) i =
    let bad : zero ≡ suc zero = omega (
      arith,
      i.none_left,
      downloads-without before after (download info group sync_args option_args),
    ) in
    cc

Step-IsStuck : (H : Host) (f g : Fleet H) → Step H f g → IsStuck H f → IsStuck H g
Step-IsStuck H _ _ (new_head f h) i = head-IsStuck H f h i
Step-IsStuck H _ _ (task_ends n before after t) i = end_task-IsStuck H n before after t i

Reach-IsStuck : (H : Host) (f g : Fleet H) → IsStuck H f → Reach H f g → IsStuck H g
Reach-IsStuck H f h i here = i
Reach-IsStuck H f h i (next {g} r s) = Step-IsStuck H g h s (Reach-IsStuck H f g i r)

allowed_one : (r : RunStatus) → 1 ≤ allowed r → r ≡ RunStatus.downloading
allowed_one RunStatus.pending h = let bad : zero ≡ suc zero = omega (arith, h) in cc
allowed_one RunStatus.downloading h = refl
allowed_one RunStatus.downloaded h = let bad : zero ≡ suc zero = omega (arith, h) in cc
allowed_one RunStatus.running h = let bad : zero ≡ suc zero = omega (arith, h) in cc

failed_download :
    (H : Host) (n : Node H) (info : DownloadInfo) (group : ℕ)
    (sync_args option_args : Option (List ℕ)) (x : TaskError)
    → (obtain H info n).0 ≡ err x
    → n.app.running ≡ RunStatus.downloading
    → (obtain H info n).1.app.running ≡ n.app.running
    → (process_download_task H info group sync_args option_args n).1.app.running
      ≡ RunStatus.downloading
unfolding process_download_task
failed_download H n info group sync_args option_args x failed status same =
    ground (arith, failed, status, same)

-- In a state that the node has reached from its start: a download ends early when the search for the
-- image or the file does, with an error. From there on, after every sequence of new best heads and of
-- tasks that end, the status is `Downloading` and no download is under way.
pub process_download_task-stuck :
    (H : Host) (w : H.World) (n : Node H) (before after : List Spawned) (info : DownloadInfo)
    (group : ℕ) (sync_args option_args : Option (List ℕ)) (x : TaskError) (g : Fleet H)
    → Reach H
        (fresh H w)
        (record { node = n; tasks = before ++ (download info group sync_args option_args ∷ after) })
    → (obtain H info n).0 ≡ err x
    → Reach H
        (record {
          node = (process_download_task H info group sync_args option_args n).1;
          tasks = before ++ after;
        })
        g
    → (g.node.app.running ≡ RunStatus.downloading) × (downloads g.tasks ≡ 0)
unfolding process_download_task
process_download_task-stuck H w n before after info group sync_args option_args x g reached failed
      later =
    let t : Spawned = download info group sync_args option_args in
    let tidy = Reach-IsTidy H w _ reached in
    let count = downloads-without before after t in
    let (same, _) = obtain-Keeps H info n in
    let status : n.app.running ≡ RunStatus.downloading =
      allowed_one n.app.running (omega (arith, tidy.single, count)) in
    let stuck =
      Reach-IsStuck H _ g
        (record {
          status = failed_download H n info group sync_args option_args x failed status same;
          none_left = omega (arith, tidy.single, count, at_most_one n.app.running);
        })
        later in
    (stuck.status, stuck.none_left)
