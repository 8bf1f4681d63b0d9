-- ===== src/ContainerTask/Steps.antt =====
-- The node of node/src/container_task.rs with the tasks that it has spawned: new best heads and tasks
-- that come to their end, each with whatever outcome, are its steps.
use popsicle.Prelude.{
  ℕ, ◌+◌, ◌≡◌, refl, ap, inl, inr, ◌⊎◌, true, not, ◌&&◌, Option-cases, Bool-cases, Option, none,
  some, List, [], ◌∷◌, ◌++◌, ◌==◌, arith,
}
use popsicle.Container.{DownloadInfo}
use popsicle.ContainerTask.{
  Host, Node, RunningApp, RunStatus, Spawned, Head, download, start, initial_app, is_pending,
  is_downloaded, StartType, process_run_task, process_download_task, handle_load, handle_run,
  handle_new_best_parachain_head,
}

-- The node and the tasks that it has spawned and that have not ended. A task is one step, since what
-- it does before it takes the lock reads nothing that the others write.
pub record Fleet (H : Host) : Type 0 where
  pub node : Node H
  pub tasks : List Spawned

abbrev pub end_task : (H : Host) → Spawned → Node H → Node H
end_task H (download info group sync_args option_args) n =
    (process_download_task H info group sync_args option_args n).1
end_task H (start info run_args option_args) n =
    (process_run_task H info run_args option_args StartType.run n).1

abbrev pub after_head : (H : Host) → Head → Fleet H → Fleet H
after_head H h f =
    let (app, tasks) = handle_new_best_parachain_head h f.node.app in
    record { node = record f.node { app = app }; tasks = f.tasks ++ tasks }

pub data Step (H : Host) : Fleet H → Fleet H → Type 0 where
  new_head : (f : Fleet H) (h : Head) → Step H f (after_head H h f)
  task_ends :
      (n : Node H) (before after : List Spawned) (t : Spawned)
      → Step H
          (record { node = n; tasks = before ++ (t ∷ after) })
          (record { node = end_task H t n; tasks = before ++ after })

pub data Reach (H : Host) (f : Fleet H) : Fleet H → Type 0 where
  here : Reach H f f
  next : {g k : Fleet H} → Reach H f g → Step H g k → Reach H f k

abbrev pub downloads_of : Spawned → ℕ
downloads_of (download _ _ _ _) = 1
downloads_of (start _ _ _) = 0

abbrev pub downloads : List Spawned → ℕ
downloads [] = 0
downloads (t ∷ ts) = downloads_of t + downloads ts

pub downloads-append : (xs ys : List Spawned) → downloads (xs ++ ys) ≡ downloads xs + downloads ys
downloads-append [] ys = omega arith
downloads-append (x ∷ xs) ys = omega (arith, downloads-append xs ys)

pub status-cases :
    (r : RunStatus)
    → (r ≡ RunStatus.pending)
      ⊎ (r ≡ RunStatus.downloading)
      ⊎ (r ≡ RunStatus.downloaded)
      ⊎ (r ≡ RunStatus.running)
status-cases RunStatus.pending = inl refl
status-cases RunStatus.downloading = inr (inl refl)
status-cases RunStatus.downloaded = inr (inr (inl refl))
status-cases RunStatus.running = inr (inr (inr refl))

-- What a head may do to the application, with the tasks that it spawns.
abbrev pub Moves : RunningApp → RunningApp → List Spawned → Type 0
Moves app app' more =
    (app'.app_info ≡ app.app_info)
    × (((downloads more ≡ 0) × (app'.running ≡ app.running))
        ⊎ ((downloads more ≡ 0)
            × (app'.running ≡ RunStatus.pending)
            × (app.running ≡ RunStatus.downloaded))
        ⊎ ((downloads more ≡ 1)
            × (app.running ≡ RunStatus.pending)
            × (app'.running ≡ RunStatus.downloading)))

pub is_pending_lem : (r : RunStatus) → is_pending r ≡ true → r ≡ RunStatus.pending
is_pending_lem r h = ground (arith, h, status-cases r)

pub is_downloaded_lem : (r : RunStatus) → is_downloaded r ≡ true → r ≡ RunStatus.downloaded
is_downloaded_lem r h = ground (arith, h, status-cases r)

pub handle_load-Moves :
    (h : Head) (load : Option DownloadInfo) (app : RunningApp)
    → Moves app (handle_load h load app).0 (handle_load h load app).1
unfolding handle_load
handle_load-Moves h none app = (refl, inl (refl, refl))
handle_load-Moves h (some info) app =
    elim (Bool-cases (not (app.group_id == info.group) && is_pending app.running)) [
      | inl e ↦ rw e (refl, inr (inr (refl, is_pending_lem app.running (ground (arith, e)), refl)))
      | inr e ↦ rw e (refl, inl (refl, refl))
    ]

pub handle_run-Moves :
    (h : Head) (options : Option (List ℕ)) (app : RunningApp)
    → Moves app (handle_run h options app).0 (handle_run h options app).1
unfolding handle_run
handle_run-Moves h options app = elim (Option-cases app.app_info) [
  | inl e ↦ ground (arith, e)
  | inr (info, e) ↦ elim (Bool-cases (is_downloaded app.running)) [
    | inl d ↦ ground (arith, e, d, is_downloaded_lem app.running)
    | inr d ↦ ground (arith, e, d)
  ]
]

pub ++-assoc : (xs ys zs : List Spawned) → (xs ++ ys) ++ zs ≡ xs ++ (ys ++ zs)
++-assoc [] ys zs = refl
++-assoc (x ∷ xs) ys zs = ap (λ ts. x ∷ ts) (++-assoc xs ys zs)

pub downloads-without :
    (before after : List Spawned) (t : Spawned)
    → downloads (before ++ (t ∷ after)) ≡ downloads_of t + downloads (before ++ after)
downloads-without before after t =
    omega (arith, downloads-append before (t ∷ after), downloads-append before after)

-- The node as it starts, with no task.
abbrev pub fresh : (H : Host) → H.World → Fleet H
fresh H w = record { node = record { app = initial_app; world = w }; tasks = [] }
