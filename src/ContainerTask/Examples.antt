-- ===== src/ContainerTask/Examples.antt =====
-- Runs of the container task on a host whose processes are a list of numbers.
use popsicle.Prelude.{
  ℕ, suc, ◌+◌, ◌≡◌, ◌<◌, refl, Bool, true, false, ◌||◌, none, some, List, [], ◌∷◌, ◌==◌, leb, ◌⊎◌,
  Bool-cases, if◌then◌else◌, arith,
}
use popsicle.Prelude.Effects.{ok, err}
use popsicle.Container.{DownloadInfo}
use popsicle.ContainerTask.{
  Host, remove_docker_container, check_docker_image_exist, Node, RunStatus, StartType, instance_2,
  host_error, Head, download, initial_app, process_run_task, process_download_task, obtain,
  obtain_image, PartialRangeIter, file_ranges, chunk_size, handle_new_best_parachain_head,
  handle_load, handle_run,
}
use popsicle.ContainerTask.Ranges.{collect, Tile, file_ranges-Tile}
use popsicle.ContainerTask.Replacing.{names, HostWorks, IsProcess, IsTracked, current, other}
use popsicle.ContainerTask.Switching.{HasStarted, process_run_task-run}
use popsicle.ContainerTask.Unrecorded.{
  IsMixed, NeverReused, without_container, process_run_task-run_unrecorded,
}
use popsicle.ContainerTask.Steps.{Reach, here, next, new_head, fresh, downloads}
use popsicle.ContainerTask.Status.{IsTidy, Reach-IsTidy}
use popsicle.ContainerTask.Stuck.{process_download_task-stuck}

abbrev is_up : List ℕ → ℕ → Bool
is_up [] c = false
is_up (p ∷ ps) c = p == c || is_up ps c

abbrev total : List ℕ → ℕ
total [] = 0
total (p ∷ ps) = p + total ps

abbrev kill_all : ℕ → List ℕ → List ℕ
kill_all child [] = []
kill_all child (p ∷ ps) = let rest = kill_all child ps in if p == child then rest else p ∷ rest

-- Above all that have been given out: those that are up add up to `total`, and `w.0` is as large as
-- any that has been stopped.
abbrev next_number : ℕ × List ℕ → ℕ
next_number w = suc (w.0 + total w.1)

abbrev list_host : Host
list_host = record {
  World = ℕ × List ℕ;
  is_utf8 = λ _. true;
  create_log = λ _ w. some w;
  kill = λ child w. some (w.0 + total w.1, kill_all child w.1);
  spawn = λ _ _ w. some (next_number w, (w.0, next_number w ∷ w.1));
  docker = λ _ w. (true, w);
  docker_grep = λ _ _ _. none;
  open_digest = λ _ _. none;
  download_sdk = λ _ w. (true, w);
}

fresh_number : (w : List ℕ) (c : ℕ) → total w < c → is_up w c ≡ false
fresh_number [] c h = refl
fresh_number (p ∷ ps) c h =
    let rest = fresh_number ps c (omega (arith, h)) in
    let away : (p == c) ≡ false = ground (arith, h) in ground (arith, rest, away)

kill_all_lem :
    (child : ℕ) (w : List ℕ) (c : ℕ)
    → is_up (kill_all child w) c ≡ (if child == c then false else is_up w c)
kill_all_lem child [] c = ground arith
kill_all_lem child (p ∷ ps) c = ground (
  arith,
  kill_all_lem child ps c,
  Bool-cases (p == child),
  Bool-cases (p == c),
  Bool-cases (child == c),
)

abbrev up_on_host : ℕ × List ℕ → ℕ → Bool
up_on_host w = is_up w.1

abbrev issued_on_host : ℕ × List ℕ → ℕ → Bool
issued_on_host w c = leb c (w.0 + total w.1)

list_host_works : HostWorks list_host up_on_host
list_host_works = record {
  logs = λ name w. (w, refl, λ c. refl);
  kills = λ child w. ((w.0 + total w.1, kill_all child w.1), refl, kill_all_lem child w.1);
  spawns = λ file args w. (
    next_number w,
    (w.0, next_number w ∷ w.1),
    refl,
    fresh_number w.1 (next_number w) (omega arith),
    λ c. ground (arith, Bool-cases (next_number w == c)),
  );
}

list_host-NeverReused : NeverReused list_host issued_on_host
list_host-NeverReused = record {
  logs = λ name w v e c h. ground (arith, e, h);
  kills = λ child w v e c h. ground (arith, e, h);
  spawns = λ file args w child v e. ground (arith, e);
}

abbrev program : DownloadInfo
program = record {
  app_id = 4;
  app_hash = 1 ∷ [];
  file_name = 97 ∷ [];
  size = 10;
  group = 2;
  url = 98 ∷ [];
  args = some (45 ∷ 32 ∷ 46 ∷ []);
  log = none;
  is_docker_image = false;
  docker_image = none;
}

program-IsProcess : IsProcess list_host program none
program-IsProcess = record { process = refl; name = refl; log = refl; args = refl; more = tt }

-- Two processes run, as the two instances.
abbrev busy : Node list_host
busy = record {
  app = record initial_app { instance1 = some 3; instance2 = some 5; cur_ins = instance_2 };
  world = (0, 3 ∷ 5 ∷ []);
}

busy-IsTracked : IsTracked list_host up_on_host busy
busy-IsTracked = record {
  one = refl;
  two = refl;
  differ = λ c. ground (arith, Bool-cases (3 == c), Bool-cases (5 == c));
  known = λ c. ground (arith, Bool-cases (3 == c), Bool-cases (5 == c));
}

process_run_task-run_example :
    (child : ℕ) × (t : Node list_host) × (process_run_task list_host program none none StartType.run
        busy
      ≡ (ok tt, t))
    × HasStarted list_host up_on_host child t
    × ((c : ℕ) → up_on_host t.world c ≡ (child == c))
    × (other t.app ≡ some child)
    × (current t.app ≡ none)
process_run_task-run_example =
    process_run_task-run list_host up_on_host program none none busy list_host_works
      program-IsProcess busy-IsTracked

-- The second instance is a container.
abbrev mixed : Node list_host
mixed = record {
  app = record initial_app {
    instance1 = some 3;
    instance2_docker = true;
    instance2_docker_name = some (99 ∷ []);
  };
  world = (0, 3 ∷ []);
}

mixed-IsMixed : IsMixed list_host issued_on_host mixed (99 ∷ [])
mixed-IsMixed = record {
  process = refl;
  container = refl;
  has_name = refl;
  text = refl;
  one = λ c h. ground (arith, h);
  two = λ c h. ground (arith, h);
}

unharmed :
    (w : ℕ × List ℕ) (c : ℕ)
    → up_on_host (remove_docker_container list_host (99 ∷ []) w) c ≡ up_on_host w c
unfolding remove_docker_container
unharmed w c = refl

process_run_task-run_unrecorded_example :
    (child : ℕ) × (t : Node list_host) × (process_run_task list_host program none none StartType.run
        mixed
      ≡ (ok tt, t))
    × (up_on_host t.world child ≡ true)
    × (names t.app.instance1 child ≡ false)
    × (names t.app.instance2 child ≡ false)
    × (t.app ≡ without_container mixed.app)
process_run_task-run_unrecorded_example =
    process_run_task-run_unrecorded list_host up_on_host issued_on_host program none none mixed
      (99 ∷ []) list_host_works list_host-NeverReused program-IsProcess mixed-IsMixed unharmed

-- A file of three chunks.
abbrev three_chunks : ℕ
three_chunks = 2500000

file_ranges-Tile_example :
    (r : PartialRangeIter) × (file_ranges three_chunks ≡ some r)
    × (((0 < three_chunks)
          × (ranges : List (ℕ × ℕ)) × (collect (three_chunks + 1) r ≡ some ranges)
          × Tile chunk_size 0 three_chunks ranges)
        ⊎ ((three_chunks ≡ 0) × ((fuel : ℕ) → collect fuel r ≡ none)))
file_ranges-Tile_example = file_ranges-Tile three_chunks (omega arith)

-- A head that asks for an application in a container.
abbrev in_container : DownloadInfo
in_container = record program { is_docker_image = true; docker_image = some (99 ∷ []) }

abbrev asking : Head
asking = record {
  should_load = some (some in_container);
  should_run = some false;
  args = λ _. none;
  args_of = λ _ _. none;
}

abbrev asked : Node list_host
asked = record {
  app = record initial_app { running = RunStatus.downloading; app_id = 4 };
  world = (0, []);
}

after_asking :
    Reach list_host
      (fresh list_host (0, []))
      (record { node = asked; tasks = download in_container 2 none none ∷ [] })
unfolding handle_new_best_parachain_head handle_load handle_run
after_asking = next here (new_head (fresh list_host (0, [])) asking)

Reach-IsTidy_example :
    IsTidy list_host (record { node = asked; tasks = download in_container 2 none none ∷ [] })
Reach-IsTidy_example = Reach-IsTidy list_host (0, []) _ after_asking

no_image : (obtain list_host in_container asked).0 ≡ err host_error
unfolding obtain obtain_image check_docker_image_exist
no_image = refl

process_download_task-stuck_example :
    ((process_download_task list_host in_container 2 none none asked).1.app.running
      ≡ RunStatus.downloading)
    × (downloads [] ≡ 0)
process_download_task-stuck_example =
    process_download_task-stuck list_host (0, []) asked [] [] in_container 2 none none host_error _
      after_asking no_image here
