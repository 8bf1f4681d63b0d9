-- ===== src/ContainerTask/Status.antt =====
-- The status of the application in node/src/container_task.rs, through every sequence of steps.
use popsicle.Prelude.{
  ℕ, ◌≤◌, ◌≡◌, ◌≢◌, refl, sym, ◌∙◌, subst, ap, inl, inr, ◌⊎◌, Bool, true, Option-cases, Bool-cases,
  Option, none, some, List, [], ◌∷◌, ◌++◌, if◌then◌else◌, arith,
}
use popsicle.Prelude.Effects.{Outcome, Action, discard, ◌>>=◌, ok, panic, Outcome-cases}
use popsicle.ContainerTask.Keeping.{process_run_task-Keeps, obtain-Keeps}
use popsicle.Container.{DownloadInfo}
use popsicle.ContainerTask.{
  Host, Node, RunningApp, RunStatus, Spawned, Head, download, start, initial_app, is_downloaded,
  StartType, process_run_task, Task, TaskError, set_app, load_and_start, obtain,
  process_download_task, handle_load, handle_run, handle_new_best_parachain_head,
}
use popsicle.ContainerTask.Steps.{
  new_head, task_ends, here, next, Fleet, end_task, after_head, Step, Reach, downloads,
  downloads-append, status-cases, Moves, handle_load-Moves, handle_run-Moves, ++-assoc,
  downloads-without, fresh,
}

abbrev pub allowed : RunStatus → ℕ
allowed RunStatus.pending = 0
allowed RunStatus.downloading = 1
allowed RunStatus.downloaded = 0
allowed RunStatus.running = 0

-- Of an application and the tasks at work on it: at most one download, in the status of one; after
-- a download there is something to run; the status is never `running`.
pub record IsTidyWith (app : RunningApp) (tasks : List Spawned) : Type 0 where
  pub single : downloads tasks ≤ allowed app.running
  pub loaded : is_downloaded app.running ≡ true → app.app_info ≢ none
  pub named : app.running ≢ RunStatus.running

abbrev pub IsTidy : (H : Host) → Fleet H → Type 0
IsTidy H f = IsTidyWith f.node.app f.tasks

tidy_if_pending :
    (app : RunningApp) (tasks : List Spawned)
    → app.running ≡ RunStatus.pending
    → downloads tasks ≡ 0
    → IsTidyWith app tasks
tidy_if_pending app tasks e d = record {
  single = ground (arith, e, d);
  loaded = λ h. ground (arith, e, h);
  named = λ h. let bad : RunStatus.pending ≡ RunStatus.running = ground (arith, e, h) in cc;
}

Moves-IsTidyWith :
    (app app' : RunningApp) (tasks more : List Spawned)
    → IsTidyWith app tasks
    → Moves app app' more
    → IsTidyWith app' (tasks ++ more)
Moves-IsTidyWith app app' tasks more i (info, m) =
    let sum = downloads-append tasks more in
    elim m [
      | inl (d, e) ↦ record {
        single = ground (arith, e, i.single, sum, d);
        loaded = λ h. ground (arith, e, h, info, i.loaded);
        named = λ h. ground (arith, e, h, i.named);
      }
      | inr (inl (d, e, f)) ↦
          tidy_if_pending app' (tasks ++ more) e (ground (arith, f, i.single, sum, d))
      | inr (inr (d, f, e)) ↦ record {
        single = ground (arith, e, f, i.single, sum, d);
        loaded = λ h. ground (arith, e, h);
        named =
            λ h. let bad : RunStatus.downloading ≡ RunStatus.running = ground (arith, e, h) in cc;
      }
    ]

head-IsTidy : (H : Host) (f : Fleet H) (h : Head) → IsTidy H f → IsTidy H (after_head H h f)
unfolding handle_new_best_parachain_head
head-IsTidy H f h i =
    let app = f.node.app in
    elim (Option-cases h.should_load) [
      | inl e ↦ rw e (Moves-IsTidyWith app app f.tasks [] i (refl, inl (refl, refl)))
      | inr (load, e) ↦
          let first =
            Moves-IsTidyWith app (handle_load h load app).0 f.tasks (handle_load h load app).1 i
              (handle_load-Moves h load app) in
          elim (Option-cases h.should_run) [
            | inl g ↦ rw (e, g) first
            | inr (run, g) ↦ elim (Bool-cases run) [
              | inr never ↦ rw (e, g, never) first
              | inl now ↦
                  let (app', tasks, options) = handle_load h load app in
                  let (app'', more) = handle_run h options app' in
                  let last : IsTidyWith app'' (f.tasks ++ (tasks ++ more)) =
                    subst (λ ts. IsTidyWith app'' ts) (++-assoc f.tasks tasks more)
                      (Moves-IsTidyWith app' app'' (f.tasks ++ tasks) more first
                        (handle_run-Moves h options app')) in
                  rw (e, g, now) last
            ]
          ]
    ]

-- An application in the status of another, with no more downloads.
SameStatus-IsTidyWith :
    (app app' : RunningApp) (tasks tasks' : List Spawned)
    → IsTidyWith app tasks
    → app'.running ≡ app.running
    → app'.app_info ≡ app.app_info
    → downloads tasks' ≤ downloads tasks
    → IsTidyWith app' tasks'
SameStatus-IsTidyWith app app' tasks tasks' i r info d = record {
  single = ground (arith, r, i.single, d);
  loaded = λ h. ground (arith, r, h, info, i.loaded);
  named = λ h. ground (arith, r, h, i.named);
}

-- A download has ended with an application loaded.
loaded-IsTidyWith :
    (app : RunningApp) (tasks : List Spawned) (info : DownloadInfo)
    → app.running ≡ RunStatus.downloaded
    → app.app_info ≡ some info
    → downloads tasks ≡ 0
    → IsTidyWith app tasks
loaded-IsTidyWith app tasks info r e d = record {
  single = ground (arith, r, d);
  loaded = λ h none_loaded. let bad : some info ≡ none = ground (arith, e, none_loaded) in cc;
  named = λ h. let bad : RunStatus.downloaded ≡ RunStatus.running = ground (arith, r, h) in cc;
}

pub at_most_one : (r : RunStatus) → allowed r ≤ 1
at_most_one r = ground (arith, status-cases r)

bind_ok :
    {S E A B : Type 0} (m : Action S E A) (k : A → Action S E B) (s : S) (a : A)
    → (m s).0 ≡ ok a
    → (m >>= k) s ≡ k a (m s).1
bind_ok m k s a e = ground (arith, e)

discard-cases :
    {S E F A : Type 0} (m : Action S F (Unit {0})) (k : Unit {0} → Action S E A) (s : S)
    → ((discard m >>= k) s ≡ k tt (m s).1) ⊎ ((discard m >>= k) s ≡ (panic, (m s).1))
discard-cases m k s = elim (Outcome-cases (m s).0) [
  | inl (a, e) ↦ inl (ground (arith, e))
  | inr (inl (x, e)) ↦ inl (ground (arith, e))
  | inr (inr e) ↦ inr (ground (arith, e))
]

by_end :
    (H : Host) (tasks : List Spawned) (r q : Outcome TaskError (Unit {0}) × Node H)
    → r ≡ q
    → IsTidyWith q.1.app tasks
    → IsTidyWith r.1.app tasks
by_end H tasks r q e =
    subst (λ (x : Outcome TaskError (Unit {0}) × Node H). IsTidyWith x.1.app tasks) (sym e)

-- A download has found its application: the start may still panic.
load_and_start-IsTidyWith :
    (H : Host) (m : Node H) (info : DownloadInfo) (group : ℕ)
    (sync_args option_args : Option (List ℕ)) (tasks tasks' : List Spawned)
    → IsTidyWith m.app tasks
    → downloads tasks' ≤ downloads tasks
    → downloads tasks' ≡ 0
    → IsTidyWith (load_and_start H info group sync_args option_args m).1.app tasks'
load_and_start-IsTidyWith H m info group sync_args option_args tasks tasks' i d z =
    let (r, e) = process_run_task-Keeps H info sync_args option_args StartType.sync m in
    let k : RunningApp = (process_run_task H info sync_args option_args StartType.sync m).1.app in
    let a : RunningApp = record k {
      app_info = some info;
      group_id = group;
      running = RunStatus.downloaded;
    } in
    let done = loaded-IsTidyWith a tasks' info refl refl z in
    let store : Unit {0} → Task H (Unit {0}) = λ _.
      set_app H
        λ a. record a { app_info = some info; group_id = group; running = RunStatus.downloaded } in
    elim (discard-cases (process_run_task H info sync_args option_args StartType.sync) store m) [
      | inl o ↦ by_end H tasks' _ _ o done
      | inr o ↦
          let same = SameStatus-IsTidyWith m.app k tasks tasks' i r e d in
          by_end H tasks' _ _ o same
    ]

end_task-IsTidy :
    (H : Host) (n : Node H) (before after : List Spawned) (t : Spawned)
    → IsTidyWith n.app (before ++ (t ∷ after))
    → IsTidyWith (end_task H t n).app (before ++ after)
unfolding process_download_task
end_task-IsTidy H n before after (start info run_args option_args) i =
    let (r, e) = process_run_task-Keeps H info run_args option_args StartType.run n in
    SameStatus-IsTidyWith n.app (end_task H (start info run_args option_args) n).app
      (before ++ (start info run_args option_args ∷ after)) (before ++ after) i r e
      (omega (arith, downloads-without before after (start info run_args option_args)))
end_task-IsTidy H n before after (download info group sync_args option_args) i =
    let t : Spawned = download info group sync_args option_args in
    let m : Node H = (obtain H info n).1 in
    let (r, e) = obtain-Keeps H info n in
    let count = downloads-without before after t in
    let gone : downloads (before ++ after) ≡ 0 =
      omega (arith, count, i.single, at_most_one n.app.running) in
    let fewer : downloads (before ++ after) ≤ downloads (before ++ (t ∷ after)) =
      omega (arith, count) in
    elim (Outcome-cases (obtain H info n).0) [
      | inl (flag, o) ↦ elim (Bool-cases flag) [
        | inl good ↦
            let last =
              load_and_start-IsTidyWith H m info group sync_args option_args (before ++ (t ∷ after))
                (before ++ after)
                (SameStatus-IsTidyWith n.app m.app (before ++ (t ∷ after)) (before ++ (t ∷ after)) i
                  r e (omega arith))
                fewer gone in
            let then_start : Bool → Task H (Unit {0}) = λ b.
              if b
              then load_and_start H info group sync_args option_args
              else set_app H (λ a. record a { running = RunStatus.pending }) in
            by_end H (before ++ after) _ _
              (bind_ok (obtain H info) then_start n true (o ∙ ap (λ b. ok b) good)) last
        | inr bad ↦
            let a : RunningApp = record m.app { running = RunStatus.pending } in
            let last = tidy_if_pending a (before ++ after) refl gone in ground (arith, o, bad, last)
      ]
      | inr (inl (x, o)) ↦
          let last =
            SameStatus-IsTidyWith n.app m.app (before ++ (t ∷ after)) (before ++ after) i r e
              fewer in
          ground (arith, o, r, e, fewer, last)
      | inr (inr o) ↦
          let last =
            SameStatus-IsTidyWith n.app m.app (before ++ (t ∷ after)) (before ++ after) i r e
              fewer in
          ground (arith, o, r, e, fewer, last)
    ]

Step-IsTidy : (H : Host) (f g : Fleet H) → Step H f g → IsTidy H f → IsTidy H g
Step-IsTidy H _ _ (new_head f h) i = head-IsTidy H f h i
Step-IsTidy H _ _ (task_ends n before after t) i = end_task-IsTidy H n before after t i

-- From the start of the node, after every sequence of new best heads, with any answers of the runtime
-- and any arguments, and of tasks that end, in any order and with any outcome, errors and panics
-- included: at most one download is under way, and none unless the status is `Downloading`; in the
-- status `Downloaded` the application to run is known; and the status is never `Running`.
pub Reach-IsTidy : (H : Host) (w : H.World) (f : Fleet H) → Reach H (fresh H w) f → IsTidy H f
Reach-IsTidy H w f here = tidy_if_pending initial_app [] refl refl
Reach-IsTidy H w f (next {g} r s) = Step-IsTidy H g f s (Reach-IsTidy H w g r)
