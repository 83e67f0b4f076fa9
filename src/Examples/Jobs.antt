-- ===== src/Examples/Jobs.antt =====
-- The jobs' repository, their notifier and pruner, and the numbers of a stream, on small states.
use rstudio_launcher_plugin.Base.{
  ℕ, zero, suc, ◌≡◌, ◌↔◌, refl, true, false, ◌&&◌, Option, none, some, [], ◌∷◌, String, string_key,
  nat_key, ◌==◌, arith, contains, find, if◌then◌else◌,
}
use rstudio_launcher_plugin.Api.User.{User}
use rstudio_launcher_plugin.Api.Job.{Job, State, pending, running, finished, is_completed}
use rstudio_launcher_plugin.Jobs.Notifier.{Notifier, Update, listeners}
use rstudio_launcher_plugin.Jobs.Notifier.Updates.{
  run_updates, swap, done, run_updates_order, follow_updates, follow_updates_known,
}
use rstudio_launcher_plugin.Jobs.Repository.{Repository, Heap, JobPtr, get_job, get_jobs, may_see}
use rstudio_launcher_plugin.Jobs.Repository.Access.{add, remove, run, get_jobs-get_job}
use rstudio_launcher_plugin.Jobs.Pruner.{Pruner, prune_job, expiry_of}
use rstudio_launcher_plugin.Jobs.Pruner.Removal.{is_expired, prune_job_lem}

abbrev pub alice : User
alice = record { name = "alice"; user_id = 1001; group_id = 1001 }

abbrev pub bob : User
bob = record { name = "bob"; user_id = 1002; group_id = 1002 }

abbrev pub job_of : String → User → State → Option ℕ → Job
job_of id user status updated = record {
  arguments = [];
  cluster = "";
  command = "sleep 10";
  config = [];
  container_details = none;
  environment = [];
  exe = "";
  exit_code = none;
  exposed_ports = [];
  host = "node";
  id = id;
  last_update_time = updated;
  mounts = [];
  name = "job";
  pid = none;
  placement_constraints = [];
  queues = [];
  resource_limits = [];
  standard_in = "";
  standard_err_file = "";
  standard_out_file = "";
  status = status;
  status_message = "";
  submission_time = 10;
  tags = "batch" ∷ "r" ∷ [];
  user = user;
  working_directory = "";
}

-- Job 0 runs, job 1 has ended.
abbrev pub heap : Heap
heap zero = job_of "a" alice running none
heap (suc p) = job_of "b" bob finished (some 20)

abbrev earlier : Update
earlier = record { new_status = running; message = ""; invocation_time = 11 }

abbrev later : Update
later = record { new_status = finished; message = "done"; invocation_time = 12 }

abbrev pub notifier : Notifier
notifier = record {
  all_jobs_signal = 0 ∷ [];
  job_signal_map = ("a", 1 ∷ []) ∷ [];
  next_connection = 2;
}

run_updates_order_example :
    run_updates notifier (earlier ∷ later ∷ []) (job_of "a" alice pending none)
    ≡ run_updates notifier (later ∷ earlier ∷ []) (job_of "a" alice pending none)
run_updates_order_example =
    run_updates_order notifier (swap earlier later (omega arith) done)
      (job_of "a" alice pending none)

follow_updates_known_example :
    let j = job_of "a" alice pending none in
    let (j', known) = follow_updates notifier 1 (earlier ∷ later ∷ []) j (pending, "") in
    (known ≡ (j'.status, j'.status_message)) × (j' ≡ run_updates notifier (earlier ∷ later ∷ []) j)
unfolding listeners find
follow_updates_known_example =
    follow_updates_known notifier 1 (earlier ∷ later ∷ []) (job_of "a" alice pending none) refl

get_jobs-get_job_example :
    let r = run (add heap 0 ∷ add heap 1 ∷ remove "b" ∷ []) (record { job_map = []; hooks = [] }) in
    ((contains (get_jobs heap r alice) 0 ≡ true)
      ↔ ((id : String) × (get_job heap r id alice ≡ some 0)))
    × (contains (get_jobs heap r alice) 0 ≡ true → may_see heap alice 0 ≡ true)
get_jobs-get_job_example = get_jobs-get_job (add heap 0 ∷ add heap 1 ∷ remove "b" ∷ []) heap alice 0

abbrev pub repository : Repository
repository = record { job_map = ("a", 0) ∷ ("b", 1) ∷ []; hooks = [] }

abbrev pub pruner : Pruner
pruner = record { job_expiry_time = 100; active_prune_tasks = []; job_repo = repository }

prune_job_lem_example :
    let (s', removed) = prune_job heap 150 "b" pruner in
    let was = find "b" repository.job_map in
    (removed ≡ is_expired heap 150 100 was)
    × ((j : String)
        → find j s'.job_repo.job_map
          ≡ (if removed && ◌==◌ {A = String} "b" j then none else find j repository.job_map))
    × (removed ≡ true → find "b" s'.active_prune_tasks ≡ none)
    × ((p : JobPtr)
        → was ≡ some p
        → is_completed (heap p) ≡ true
        → removed ≡ false
        → find "b" s'.active_prune_tasks ≡ some (expiry_of 100 (heap p)))
    × (s'.job_expiry_time ≡ 100)
prune_job_lem_example = prune_job_lem heap 150 "b" pruner
