-- ===== src/Jobs/Pruner.antt =====
-- sdk/src/jobs/JobPruner.cpp: jobs are removed some time after they end. The pruner's deadline
-- events are numbers of microseconds; `now` is the time that a new `DateTime` has.
pub mod Removal
use rstudio_launcher_plugin.Base.{
  ℕ, ◌+◌, Bool, true, false, Option, none, some, List, [], ◌∷◌, String, string_key, Map, insert,
  erase, leb, if◌then◌else◌,
}
use rstudio_launcher_plugin.Api.User.{new_user}
use rstudio_launcher_plugin.Api.Job.{Job, is_completed}
use rstudio_launcher_plugin.Jobs.Repository.{
  Repository, Heap, JobPtr, get_job, remove_job, store_jobs,
}

-- The state of `JobPruner::Impl`, with the repository that it shares.
pub record Pruner : Type 0 where
  pub job_expiry_time : ℕ
  pub active_prune_tasks : Map String ℕ
  pub job_repo : Repository

-- `startPruneTimer`.
unfoldable pub start_prune_timer : String → ℕ → Pruner → Pruner
start_prune_timer job_id expiry s = record s {
  active_prune_tasks = insert job_id expiry s.active_prune_tasks;
}

-- When a job expires: `LastUpdateTime.getValueOr(SubmissionTime) + JobExpiryTime`.
unfoldable pub expiry_of : ℕ → Job → ℕ
expiry_of job_expiry_time j =
    elim j.last_update_time [ none ↦ j.submission_time | some t ↦ t ] + job_expiry_time

-- `pruneJob` on a job that the repository has.
unfoldable pub prune_found : Heap → ℕ → String → JobPtr → Pruner → Pruner × Bool
unfolding start_prune_timer
prune_found h now job_id p s =
    let expiry = expiry_of s.job_expiry_time (h p) in
    if is_completed (h p)
    then (if leb expiry now
        then (
          record s {
            job_repo = remove_job job_id s.job_repo;
            active_prune_tasks = erase job_id s.active_prune_tasks;
          },
          true,
        )
        else (start_prune_timer job_id expiry s, false))
    else (s, false)

-- `pruneJob`.
unfoldable pub prune_job : Heap → ℕ → String → Pruner → Pruner × Bool
unfolding prune_found
prune_job h now job_id s = elim (get_job h s.job_repo job_id (new_user false)) [
  | none ↦ (s, false)
  | some p ↦ prune_found h now job_id p s
]

-- `onJobUpdate`.
unfoldable pub on_job_update : Heap → JobPtr → Pruner → Pruner
unfolding start_prune_timer
on_job_update h p s =
    if is_completed (h p)
    then start_prune_timer (h p).id (expiry_of s.job_expiry_time (h p)) s
    else s

-- The end of `AbstractJobRepository::initialize`: each loaded job is pruned, or its timer started.
unfoldable pub prune_jobs : Heap → ℕ → List JobPtr → Pruner → Pruner
prune_jobs h now [] s = s
prune_jobs h now (p ∷ ps) s = prune_jobs h now ps (prune_job h now (h p).id s).0

-- `initialize`, once `loadJobs` has given the jobs.
unfoldable pub initialize : Heap → ℕ → ℕ → List JobPtr → Repository → Pruner
unfolding prune_jobs
initialize h now job_expiry_time ps r = prune_jobs h now ps (record {
  job_expiry_time = job_expiry_time;
  active_prune_tasks = [];
  job_repo = store_jobs h ps r;
})
