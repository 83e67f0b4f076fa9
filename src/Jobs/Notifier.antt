-- ===== src/Jobs/Notifier.antt =====
-- sdk/src/jobs/JobStatusNotifier.cpp. A connection of a signal is a number; a signal is the list of
-- its connections, which it calls in the order in which they were made, as Boost's signals do.
pub mod Updates
pub mod Subscriptions
use rstudio_launcher_plugin.Base.{
  ℕ, suc, ◌≡◌, Bool, true, false, not, ◌&&◌, ◌||◌, Option, none, some, List, [], ◌∷◌, ◌++◌, String,
  ◌==◌, string_key, nat_key, leb, Map, find, insert, erase, if◌then◌else◌,
}
use rstudio_launcher_plugin.Api.Job.{Job, State, state_eq}

abbrev pub Signal : Type 0
Signal = List ℕ

unfoldable pub disconnect : ℕ → Signal → Signal
disconnect c [] = []
disconnect c (d ∷ ds) = if d == c then disconnect c ds else d ∷ disconnect c ds

abbrev pub is_nil : Signal → Bool
is_nil [] = true
is_nil (c ∷ cs) = false

-- `JobStatusNotifier::Impl`, and the number of the next connection.
pub record Notifier : Type 0 where
  pub all_jobs_signal : Signal
  pub job_signal_map : Map String Signal
  pub next_connection : ℕ

-- The fields of a `Subscription` to a living notifier.
pub record Subscription : Type 0 where
  pub job_id : String
  pub connection : ℕ

-- `subscribe(in_onJobStatusUpdate)`.
unfoldable pub subscribe_all : Notifier → Notifier × Subscription
subscribe_all n = (
  record n {
    all_jobs_signal = n.all_jobs_signal ++ n.next_connection ∷ [];
    next_connection = suc n.next_connection;
  },
  record { job_id = ""; connection = n.next_connection },
)

-- `subscribe(in_jobId, in_onJobStatusUpdate)`.
unfoldable pub subscribe : String → Notifier → Notifier × Subscription
unfolding subscribe_all
subscribe job_id n = if job_id == "" || job_id == "*" then subscribe_all n else (
  record n {
    job_signal_map = insert job_id (signal ++ n.next_connection ∷ []) n.job_signal_map;
    next_connection = suc n.next_connection;
  },
  record { job_id = job_id; connection = n.next_connection },
)
  where
    signal : Signal
    signal = elim (find job_id n.job_signal_map) [ none ↦ [] | some s ↦ s ]

-- The job's entry once a connection to it is gone: an empty signal is erased.
unfoldable pub drop_signal : String → ℕ → Map String Signal → Map String Signal
drop_signal job_id c m = elim (find job_id m) [
  | none ↦ m
  | some s ↦
      (let left = disconnect c s in if is_nil left then erase job_id m else insert job_id left m)
]

-- `~Subscription`.
unfoldable pub unsubscribe : Subscription → Notifier → Notifier
unfolding drop_signal
unsubscribe s n =
    if s.job_id == ""
    then record n { all_jobs_signal = disconnect s.connection n.all_jobs_signal }
    else record n { job_signal_map = drop_signal s.job_id s.connection n.job_signal_map }

-- The connections that an update of this job calls, in their order.
unfoldable pub listeners : Notifier → String → List ℕ
listeners n job_id =
    n.all_jobs_signal ++ elim (find job_id n.job_signal_map) [ none ↦ [] | some s ↦ s ]

-- What is reported of a job: a call of `updateJob`.
pub record Update : Type 0 where
  pub new_status : State
  pub message : String
  pub invocation_time : ℕ

-- The job has a status that is as new.
unfoldable pub is_stale : Job → Update → Bool
is_stale j u = elim j.last_update_time [ none ↦ false | some t ↦ leb u.invocation_time t ]

-- The update says something that the job does not.
unfoldable pub is_news : Job → Update → Bool
is_news j u = not (state_eq j.status u.new_status) || not (j.status_message == u.message)

-- The fields that an update sets.
unfoldable pub write_update : Update → Job → Job
write_update u j = record j {
  last_update_time = some u.invocation_time;
  status = u.new_status;
  status_message = u.message;
}

-- `updateJob`: the job afterwards, and the connections that are called with it.
unfoldable pub update_job : Notifier → Update → Job → Job × List ℕ
update_job n u j =
    if is_stale j u
    then (j, [])
    else (write_update u j, (if is_news j u then listeners n j.id else []))
