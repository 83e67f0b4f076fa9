-- ===== src/Api/Plugin.antt =====
-- sdk/src/api/AbstractPluginApi.cpp: the handlers of the Launcher's requests. A handler gives the
-- plugin's next state; what it sends is added to `sent`.
pub mod Answers
pub mod Access
use rstudio_launcher_plugin.Base.{
  ℕ, ℤ, pos, negsuc, nat_beq, ◌⊎◌, inl, inr, leb, ◌<◌, Bool, true, false, not, ◌&&◌, ◌||◌, Option,
  none, some, List, [], ◌∷◌, ◌++◌, String, concat, string_key, nat_key, ◌==◌, if◌then◌else◌, ltb,
  keep_if, map, contains,
}
use rstudio_launcher_plugin.Api.User.{User, is_all_users, is_empty}
use rstudio_launcher_plugin.Api.Platform.{TextAlgorithms}
use rstudio_launcher_plugin.Api.Job.{
  Job, State, running, suspended, pending, state_eq, matches_tags, state_from_string,
}
use rstudio_launcher_plugin.Api.Messages.{
  Error, ErrorType, unknown_error, invalid_request, job_not_found, invalid_job_state,
  unsupported_version, Operation, suspend, resume, stop, kill, cancel, invalid_operation,
  BootstrapRequest, SubmitJobRequest, JobStateRequest, ControlJobRequest, JobIdRequest, UserRequest,
  Response, error_response, bootstrap_response, job_state_response, control_job_response,
  network_response, cluster_info_response,
}
use rstudio_launcher_plugin.Api.Queries.{
  read_states, get_status_set, get_time, one_of, Filter, passes,
}
use rstudio_launcher_plugin.Jobs.Repository.{Repository, Heap, JobPtr, get_job, get_jobs}
use rstudio_launcher_plugin.Jobs.Pruner as JobPruner
use rstudio_launcher_plugin.Jobs.Pruner.{Pruner}

-- What a call of `killJob` and its like gives: the returned value, the two results, the job
-- afterwards and the job source's next state.
pub record Control (S : Type 0) : Type 0 where
  pub returned : Bool
  pub complete : Bool
  pub message : String
  pub heap : Heap
  pub source : S

-- `IJobSource`, which a plugin implements, with a state of type `S`, and the virtual `onInitialize`
-- and `loadJobs` of its repository.
pub record JobSource (S Network Caps : Type 0) : Type 0 where
  pub initialize : S → Option Error × S
  pub on_initialize : S → Option Error × S
  pub load_jobs : S → Heap → (Error ⊎ List JobPtr) × Heap × S
  pub submit_job : JobPtr → Heap → S → (Option Error × Bool) × Heap × S
  pub kill_job : JobPtr → Heap → S → Control S
  pub suspend_job : JobPtr → Heap → S → Control S
  pub resume_job : JobPtr → Heap → S → Control S
  pub stop_job : JobPtr → Heap → S → Control S
  pub cancel_job : JobPtr → Heap → S → Control S
  pub get_network_info : JobPtr → Heap → S → Error ⊎ Network
  pub get_configuration : User → S → Error ⊎ Caps

-- The state of the plugin that the handlers share.
pub record Plugin (S Network Caps : Type 0) : Type 0 where
  pub pruner : Pruner
  pub heap : Heap
  pub source : S
  pub sent : List (Response Network Caps)

abbrev pub api_version_major : ℤ
api_version_major = pos 3

abbrev pub int_beq : ℤ → ℤ → Bool
int_beq (pos a) (pos b) = nat_beq a b
int_beq (negsuc a) (negsuc b) = nat_beq a b
int_beq _ _ = false

-- The end of the message that a job could not be found.
unfoldable pub for_user : User → String
for_user u = if is_all_users u then "" else concat (" for user " ∷ u.name ∷ [])

module _ {S Network Caps : Type 0} (t : TextAlgorithms) (source : JobSource S Network Caps) where
  -- `LauncherCommunicator->sendResponse`.
  unfoldable pub send : Response Network Caps → Plugin S Network Caps → Plugin S Network Caps
  send r s = record s { sent = s.sent ++ r ∷ [] }

  -- `sendErrorResponse`.
  unfoldable pub send_error : ℕ → ErrorType → String → Plugin S Network Caps → Plugin S Network Caps
  unfolding send
  send_error id type message s = send (error_response id type message) s

  -- The message of `UNSUPPORTED_VERSION`.
  unfoldable pub version_message : BootstrapRequest → String
  version_message r = concat (
      "The plugin supports API version "
      ∷ t.to_string api_version_major
      ∷ ".X.XXXX. The Launcher's API version is"
      ∷ t.to_string r.major
      ∷ "."
      ∷ t.to_string r.minor
      ∷ "."
      ∷ t.to_string r.patch
      ∷ [])

  -- `JobRepo->initialize()`: `onInitialize`, `loadJobs`, and what follows them.
  unfoldable pub initialize_repository :
      ℕ → Plugin S Network Caps → Option Error × Plugin S Network Caps
  initialize_repository now s =
      let (error, src) = source.on_initialize s.source in
      elim error [
        | some e ↦ (some e, record s { source = src })
        | none ↦
            let (loaded, heap, src') = source.load_jobs src s.heap in
            let s' : Plugin S Network Caps = record s { source = src'; heap = heap } in
            elim loaded [
              | inl e ↦ (some e, s')
              | inr ps ↦ (
                none,
                record s' {
                  pruner =
                      JobPruner.initialize heap now s.pruner.job_expiry_time ps s.pruner.job_repo;
                },
              )
            ]
      ]

  -- `handleBootstrap`.
  unfoldable pub handle_bootstrap :
      ℕ → BootstrapRequest → Plugin S Network Caps → Plugin S Network Caps
  unfolding send send_error initialize_repository version_message
  handle_bootstrap now r s =
      if not (int_beq r.major api_version_major)
      then send_error r.id unsupported_version (version_message r) s
      else (let (error, src) = source.initialize s.source in
          let s' : Plugin S Network Caps = record s { source = src } in
          elim error [
            | some e ↦ send_error r.id unknown_error e.as_string s'
            | none ↦
                let (failed, s'') = initialize_repository now s' in
                elim failed [
                  | some e ↦ send_error r.id unknown_error e.as_string s''
                  | none ↦ send (bootstrap_response r.id) s''
                ]
          ])

  -- The job of a submission gets the user of the request if it has none.
  unfoldable pub set_user : SubmitJobRequest → Heap → Heap
  set_user r h p =
      if nat_beq p r.job && not (is_all_users r.user) && is_empty (h p).user
      then record (h p) { user = r.user }
      else h p

  -- `handleSubmitJobRequest`.
  unfoldable pub handle_submit_job_request :
      SubmitJobRequest → Plugin S Network Caps → Plugin S Network Caps
  unfolding send send_error set_user
  handle_submit_job_request r s =
      let heap = set_user r s.heap in
      let s' : Plugin S Network Caps = record s { heap = heap } in
      if is_empty (heap r.job).user
      then send_error r.id invalid_request "User must not be empty." s'
      else (let ((error, is_invalid), heap', src) = source.submit_job r.job heap s.source in
          let s'' : Plugin S Network Caps = record s { heap = heap'; source = src } in
          elim error [
            | some e ↦
                send_error r.id (if is_invalid then invalid_request else unknown_error) e.summary
                  s''
            | none ↦ send (job_state_response r.id (heap' r.job ∷ []) none) s''
          ])

  -- The jobs that a `GET_JOB` request asks for; `none` if it names one that its user does not have.
  unfoldable pub requested_jobs :
      JobStateRequest → Filter → Plugin S Network Caps → Option (List JobPtr)
  requested_jobs r f s =
      if r.job_id == "*"
      then some (keep_if (λ p. passes f (s.heap p)) (get_jobs s.heap s.pruner.job_repo r.user))
      else elim (get_job s.heap s.pruner.job_repo r.job_id r.user) [
        | none ↦ none
        | some p ↦ some (p ∷ [])
      ]

  -- `handleGetJobRequest`.
  unfoldable pub handle_get_job_request :
      JobStateRequest → Plugin S Network Caps → Plugin S Network Caps
  unfolding send send_error requested_jobs
  handle_get_job_request r s = elim (get_time t r.start_time) [
    | none ↦ send_error r.id invalid_request "Invalid start time" s
    | some from ↦ elim (get_time t r.end_time) [
      | none ↦ send_error r.id invalid_request "Invalid end time" s
      | some to ↦ elim (get_status_set t r.status_set) [
        | inl e ↦ send_error r.id invalid_request (concat ("Invalid status(es): " ∷ e ∷ [])) s
        | inr statuses ↦
            elim (requested_jobs r
              (record { from = from; to = to; tags = r.tag_set; statuses = statuses }) s) [
                | none ↦
                    send_error r.id job_not_found
                      (concat
                        ("Job " ∷ r.job_id ∷ " could not be found for user " ∷ r.user.name ∷ []))
                      s
                | some ps ↦ send (job_state_response r.id (map s.heap ps) r.field_set) s
              ]
      ]
    ]
  ]

  -- The status that a job must have for an operation, and the message if it has another.
  unfoldable pub required_status : Operation → Option (State × String)
  required_status kill = some (running, "Job must be running to kill it")
  required_status suspend = some (running, "Job must be running to suspend it")
  required_status resume = some (suspended, "Job must be suspended to resume it")
  required_status stop = some (running, "Job must be running to stop it")
  required_status cancel = some (pending, "Job must be pending to cancel it")
  required_status invalid_operation = none

  -- The call of the job source that an operation stands for.
  unfoldable pub control : Operation → JobPtr → Heap → S → Control S
  control kill p h src = source.kill_job p h src
  control suspend p h src = source.suspend_job p h src
  control resume p h src = source.resume_job p h src
  control stop p h src = source.stop_job p h src
  control cancel p h src = source.cancel_job p h src
  control invalid_operation p h src = record {
    returned = false;
    complete = false;
    message = "";
    heap = h;
    source = src;
  }

  -- `handleControlJobRequest`. Each operation's case ends with a `break`, which leaves the `switch`;
  -- the statements that would send the outcome stand inside it, behind the last case, and no path
  -- leads to them.
  unfoldable pub handle_control_job_request :
      ControlJobRequest → Plugin S Network Caps → Plugin S Network Caps
  unfolding send send_error required_status control for_user
  handle_control_job_request r s = elim (get_job s.heap s.pruner.job_repo r.job_id r.user) [
    | none ↦
        send_error r.id job_not_found
          (concat ("Job " ∷ r.job_id ∷ " could not be found" ∷ for_user r.user ∷ [])) s
    | some p ↦ elim (required_status r.operation) [
      | none ↦
          send_error r.id unknown_error "Internal server error: unrecognized control job operation."
            s
      | some (status, message) ↦
          if state_eq (s.heap p).status status
          then (let c = control r.operation p s.heap s.source in
              record s { heap = c.heap; source = c.source })
          else send_error r.id invalid_job_state message s
    ]
  ]

  -- `handleGetNetworkRequest`.
  unfoldable pub handle_get_network_request :
      JobIdRequest → Plugin S Network Caps → Plugin S Network Caps
  unfolding send send_error for_user
  handle_get_network_request r s = elim (get_job s.heap s.pruner.job_repo r.job_id r.user) [
    | none ↦
        send_error r.id job_not_found
          (concat ("Job " ∷ r.job_id ∷ " could not be found" ∷ for_user r.user ∷ [])) s
    | some p ↦ elim (source.get_network_info p s.heap s.source) [
      | inl e ↦ send_error r.id unknown_error e.as_string s
      | inr info ↦ send (network_response r.id info) s
    ]
  ]

  -- `handleGetClusterInfo`.
  unfoldable pub handle_get_cluster_info :
      UserRequest → Plugin S Network Caps → Plugin S Network Caps
  unfolding send send_error
  handle_get_cluster_info r s = elim (source.get_configuration r.user s.source) [
    | inl e ↦ send_error r.id unknown_error e.as_string s
    | inr caps ↦ send (cluster_info_response r.id caps) s
  ]
