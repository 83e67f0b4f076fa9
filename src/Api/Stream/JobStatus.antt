-- ===== src/Api/Stream/JobStatus.antt =====
-- sdk/src/api/stream/JobStatusStream.cpp, sdk/src/api/stream/JobStatusStreamManager.cpp: the streams
-- of job updates. A stream keeps what it has sent; `none` stands for a null `JobPtr` that is
-- dereferenced.
pub mod Visibility
pub mod Requests
pub mod Cleanup
use rstudio_launcher_plugin.Base.{
  ℕ, ◌≡◌, Bool, true, false, not, ◌&&◌, ◌||◌, Option, none, some, List, [], ◌∷◌, ◌++◌, String,
  string_key, nat_key, nat_beq, ◌==◌, Map, find, insert, erase, if◌then◌else◌, concat,
}
use rstudio_launcher_plugin.Api.User.{User, new_user, is_all_users, same_user}
use rstudio_launcher_plugin.Api.Job.{Job}
use rstudio_launcher_plugin.Api.Messages.{ErrorType, job_not_found, StreamRequest}
use rstudio_launcher_plugin.Api.Plugin.{for_user}
use rstudio_launcher_plugin.Jobs.Repository.{Repository, Heap, JobPtr, get_job, get_jobs}
use rstudio_launcher_plugin.Jobs.Notifier.{
  Notifier, Subscription, subscribe, subscribe_all, unsubscribe,
}
use rstudio_launcher_plugin.Api.Stream.Sequences.{
  MultiStream, on_add_request, on_remove_request, send_response_all, send_response, is_empty_stream,
}

-- `SingleJobStatusStream`.
pub record SingleStream : Type 0 where
  pub job_id : String
  pub is_initialized : Bool
  pub handle : Option Subscription
  pub stream : MultiStream Job

-- `AllJobStatusStream`.
pub record AllStream : Type 0 where
  pub is_initialized : Bool
  pub handle : Option Subscription
  pub request_users : Map ℕ User
  pub stream : MultiStream Job

-- `SingleJobStatusStream::sendInitialState`.
unfoldable pub send_initial_state : Heap → Repository → ℕ → SingleStream → Option SingleStream
send_initial_state h r request_id s = elim (get_job h r s.job_id (new_user false)) [
  | none ↦ none
  | some p ↦ some (record s {
    stream =
        if nat_beq request_id 0
        then send_response_all (h p) s.stream
        else send_response (request_id ∷ []) (h p) s.stream;
  })
]

-- `SingleJobStatusStream::addRequest`.
unfoldable pub add_single_request : Heap → Repository → ℕ → SingleStream → Option SingleStream
unfolding send_initial_state
add_single_request h r request_id s =
    let s' : SingleStream = record s { stream = on_add_request request_id s.stream } in
    if s.is_initialized then send_initial_state h r request_id s' else some s'

-- `SingleJobStatusStream::initialize`.
unfoldable pub initialize_single :
    Heap → Repository → SingleStream → Notifier → Option (SingleStream × Notifier)
unfolding send_initial_state
initialize_single h r s n = elim (send_initial_state h r 0 s) [
  | none ↦ none
  | some s' ↦
      let (n', handle) = subscribe s.job_id n in
      some (record s' { handle = some handle; is_initialized = true }, n')
]

-- What the stream of one job does with an update.
unfoldable pub on_single_update : Heap → JobPtr → SingleStream → SingleStream
on_single_update h p s =
    if (h p).id == s.job_id then record s { stream = send_response_all (h p) s.stream } else s

-- `AllJobStatusStream::getRequestIdsForJob`.
unfoldable pub request_ids_for_job : Map ℕ User → Job → List ℕ
request_ids_for_job [] j = []
request_ids_for_job ((id, u) ∷ m) j =
    if is_all_users u || same_user u j.user
    then id ∷ request_ids_for_job m j
    else request_ids_for_job m j

-- The loop of `sendInitialStates` for one request.
unfoldable pub send_jobs_to : Heap → ℕ → List JobPtr → MultiStream Job → MultiStream Job
send_jobs_to h request_id [] s = s
send_jobs_to h request_id (p ∷ ps) s =
    send_jobs_to h request_id ps (send_response (request_id ∷ []) (h p) s)

-- The loop of `sendInitialStates` for all requests.
unfoldable pub send_jobs_to_all :
    Heap → Map ℕ User → List JobPtr → MultiStream Job → MultiStream Job
unfolding request_ids_for_job
send_jobs_to_all h users [] s = s
send_jobs_to_all h users (p ∷ ps) s =
    send_jobs_to_all h users ps (send_response (request_ids_for_job users (h p)) (h p) s)

-- `AllJobStatusStream::sendInitialStates`.
unfoldable pub send_initial_states : Heap → Repository → ℕ → AllStream → AllStream
unfolding send_jobs_to send_jobs_to_all
send_initial_states h r request_id s =
    if not (nat_beq request_id 0)
    then elim (find request_id s.request_users) [
      | none ↦ s
      | some u ↦ record s { stream = send_jobs_to h request_id (get_jobs h r u) s.stream }
    ]
    else record s {
      stream = send_jobs_to_all h s.request_users (get_jobs h r (new_user false)) s.stream;
    }

-- `AllJobStatusStream::addRequest`.
unfoldable pub add_all_request : Heap → Repository → ℕ → User → AllStream → AllStream
unfolding send_initial_states
add_all_request h r request_id u s =
    let users : Map ℕ User = elim (find request_id s.request_users) [
      | none ↦ insert request_id u s.request_users
      | some v ↦ s.request_users
    ] in
    let s' : AllStream = record s {
      request_users = users;
      stream = on_add_request request_id s.stream;
    } in
    if s.is_initialized then send_initial_states h r request_id s' else s'

-- `AllJobStatusStream::initialize`.
unfoldable pub initialize_all : Heap → Repository → AllStream → Notifier → AllStream × Notifier
unfolding send_initial_states
initialize_all h r s n =
    let (n', handle) = subscribe_all n in
    (record (send_initial_states h r 0 s) { handle = some handle; is_initialized = true }, n')

-- What the stream of all jobs does with an update.
unfoldable pub on_all_update : Heap → JobPtr → AllStream → AllStream
unfolding request_ids_for_job
on_all_update h p s = record s {
  stream = send_response (request_ids_for_job s.request_users (h p)) (h p) s.stream;
}

-- `AllJobStatusStream::removeRequest`.
unfoldable pub remove_all_request : ℕ → AllStream → AllStream
remove_all_request request_id s = record s {
  request_users = erase request_id s.request_users;
  stream = on_remove_request request_id s.stream;
}

-- `JobStatusStreamManager::Impl`, the notifier that it shares, and the error responses that it sent.
pub record StreamManager : Type 0 where
  pub active_job_streams : Map String SingleStream
  pub all_jobs_stream : Option AllStream
  pub notifier : Notifier
  pub errors : List (ℕ × ErrorType × String)

abbrev pub no_stream : MultiStream Job
no_stream = record { sequences = []; sent = [] }

-- `addAllJobsStream`.
unfoldable pub add_all_jobs_stream : Heap → Repository → ℕ → User → StreamManager → StreamManager
unfolding add_all_request initialize_all
add_all_jobs_stream h r request_id u m = elim m.all_jobs_stream [
  | none ↦
      let s = add_all_request h r request_id u (record {
        is_initialized = false;
        handle = none;
        request_users = [];
        stream = no_stream;
      }) in
      let (s', n) = initialize_all h r s m.notifier in
      record m { all_jobs_stream = some s'; notifier = n }
  | some s ↦ record m { all_jobs_stream = some (add_all_request h r request_id u s) }
]

-- `sendJobNotFoundError`.
unfoldable pub send_job_not_found : ℕ → String → User → StreamManager → StreamManager
unfolding for_user
send_job_not_found request_id job_id u m = record m {
  errors =
      m.errors
      ++ (
        request_id,
        job_not_found,
        concat ("Job " ∷ job_id ∷ " could not be found" ∷ for_user u ∷ "." ∷ []),
      )
        ∷ [];
}

-- A stream that was just made for a job gets its first request and is initialized.
unfoldable pub open_job_stream :
    Heap → Repository → ℕ → String → StreamManager → Option StreamManager
unfolding add_single_request initialize_single
open_job_stream h r request_id job_id m =
    elim (add_single_request h r request_id
      (record { job_id = job_id; is_initialized = false; handle = none; stream = no_stream })) [
        | none ↦ none
        | some s ↦ elim (initialize_single h r s m.notifier) [
          | none ↦ none
          | some (s', n) ↦ some (record m {
            active_job_streams = insert job_id s' m.active_job_streams;
            notifier = n;
          })
        ]
      ]

-- `addJobStream`.
unfoldable pub add_job_stream :
    Heap → Repository → ℕ → String → User → StreamManager → Option StreamManager
unfolding open_job_stream add_single_request send_job_not_found
add_job_stream h r request_id job_id u m = elim (get_job h r job_id u) [
  | none ↦ some (send_job_not_found request_id job_id u m)
  | some p ↦ elim (find job_id m.active_job_streams) [
    | none ↦ open_job_stream h r request_id job_id m
    | some s ↦ elim (add_single_request h r request_id s) [
      | none ↦ none
      | some s' ↦ some (record m { active_job_streams = insert job_id s' m.active_job_streams })
    ]
  ]
]

-- A stream's subscription ends with the stream.
unfoldable pub close_handle : Option Subscription → Notifier → Notifier
close_handle none n = n
close_handle (some s) n = unsubscribe s n

-- `cancelAllJobsStream`.
unfoldable pub cancel_all_jobs_stream : ℕ → StreamManager → StreamManager
unfolding remove_all_request close_handle
cancel_all_jobs_stream request_id m = elim m.all_jobs_stream [
  | none ↦ m
  | some s ↦
      let s' = remove_all_request request_id s in
      if is_empty_stream s'.stream
      then record m { all_jobs_stream = none; notifier = close_handle s.handle m.notifier }
      else record m { all_jobs_stream = some s' }
]

-- `cancelJobStream`.
unfoldable pub cancel_job_stream : ℕ → String → StreamManager → StreamManager
unfolding close_handle
cancel_job_stream request_id job_id m = elim (find job_id m.active_job_streams) [
  | none ↦ m
  | some s ↦
      let s' : SingleStream = record s { stream = on_remove_request request_id s.stream } in
      if is_empty_stream s'.stream
      then record m {
        active_job_streams = erase job_id m.active_job_streams;
        notifier = close_handle s.handle m.notifier;
      }
      else record m { active_job_streams = insert job_id s' m.active_job_streams }
]

-- `handleStreamRequest`.
unfoldable pub handle_stream_request :
    Heap → Repository → StreamRequest → StreamManager → Option StreamManager
unfolding cancel_all_jobs_stream add_all_jobs_stream cancel_job_stream add_job_stream
handle_stream_request h r q m =
    if q.job_id == "*"
    then some (
        if q.is_cancel
        then cancel_all_jobs_stream q.id m
        else add_all_jobs_stream h r q.id q.user m)
    else (if q.is_cancel
        then some (cancel_job_stream q.id q.job_id m)
        else add_job_stream h r q.id q.job_id q.user m)
