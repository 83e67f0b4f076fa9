-- ===== src/Jobs/Repository.antt =====
-- sdk/src/jobs/AbstractJobRepository.cpp: the jobs that the plugin knows, and who may see them. A
-- `JobPtr` is the number of a job on the heap, which the notifier updates while the repository holds
-- the pointer. The virtual `onJobAdded` and `onJobRemoved` of a concrete repository are logged.
pub mod Access
use rstudio_launcher_plugin.Base.{
  ℕ, Bool, true, false, ◌||◌, Option, none, some, List, [], ◌∷◌, ◌++◌, String, string_key, ◌==◌,
  Map, find, insert, erase, values, if◌then◌else◌, keep_if,
}
use rstudio_launcher_plugin.Api.User.{User, is_all_users, same_user}
use rstudio_launcher_plugin.Api.Job.{Job}

abbrev pub JobPtr : Type 0
JobPtr = ℕ

abbrev pub Heap : Type 0
Heap = JobPtr → Job

pub data Hook : Type 0 where
  on_job_added on_job_removed : JobPtr → Hook

pub record Repository : Type 0 where
  pub job_map : Map String JobPtr
  pub hooks : List Hook

-- `addJob`.
unfoldable pub add_job : Heap → JobPtr → Repository → Repository
add_job h p r = elim (find (h p).id r.job_map) [
  | none ↦ record { job_map = insert (h p).id p r.job_map; hooks = r.hooks ++ on_job_added p ∷ [] }
  | some q ↦ r
]

-- Whether a user may see a job.
unfoldable pub may_see : Heap → User → JobPtr → Bool
may_see h u p = is_all_users u || same_user (h p).user u

-- `getJob`.
unfoldable pub get_job : Heap → Repository → String → User → Option JobPtr
get_job h r job_id u = elim (find job_id r.job_map) [
  | none ↦ none
  | some p ↦ if may_see h u p then some p else none
]

-- `getJobs`.
unfoldable pub get_jobs : Heap → Repository → User → List JobPtr
get_jobs h r u =
    if is_all_users u
    then values r.job_map
    else keep_if (λ p. same_user (h p).user u) (values r.job_map)

-- `removeJob`.
unfoldable pub remove_job : String → Repository → Repository
remove_job job_id r = elim (find job_id r.job_map) [
  | none ↦ r
  | some p ↦ record { job_map = erase job_id r.job_map; hooks = r.hooks ++ on_job_removed p ∷ [] }
]

-- `initialize` stores each job that `loadJobs` gave.
unfoldable pub store_jobs : Heap → List JobPtr → Repository → Repository
store_jobs h [] r = r
store_jobs h (p ∷ ps) r = store_jobs h ps (record r { job_map = insert (h p).id p r.job_map })
