-- ===== src/Api/Messages.antt =====
-- sdk/include/api/Request.hpp, sdk/include/api/Response.hpp: the requests that the Launcher sends,
-- once parsed, and the responses that it gets.
use rstudio_launcher_plugin.Base.{ℕ, ℤ, Bool, Option, List, String}
use rstudio_launcher_plugin.Api.User.{User}
use rstudio_launcher_plugin.Api.Job.{Job}

-- The parts of an `Error` that are sent on.
pub record Error : Type 0 where
  pub as_string : String
  pub summary : String
  pub message : String

-- `ErrorResponse::Type`.
pub data ErrorType : Type 0 where
  unknown_error request_not_supported invalid_request job_not_found plugin_restarted timeout
        job_not_running job_output_not_found invalid_job_state job_control_failure
        unsupported_version :
      ErrorType

-- `ControlJobRequest::Operation`.
pub data Operation : Type 0 where
  suspend resume stop kill cancel invalid_operation : Operation

pub record BootstrapRequest : Type 0 where
  pub id : ℕ
  pub major : ℤ
  pub minor : ℤ
  pub patch : ℤ

-- `SubmitJobRequest`; the job is one on the heap.
pub record SubmitJobRequest : Type 0 where
  pub id : ℕ
  pub user : User
  pub job : ℕ

pub record JobStateRequest : Type 0 where
  pub id : ℕ
  pub user : User
  pub job_id : String
  pub start_time : Option String
  pub end_time : Option String
  pub field_set : Option (List String)
  pub tag_set : Option (List String)
  pub status_set : Option (List String)

pub record ControlJobRequest : Type 0 where
  pub id : ℕ
  pub user : User
  pub job_id : String
  pub operation : Operation

-- A request of a user for a job, as `NetworkRequest` is.
pub record JobIdRequest : Type 0 where
  pub id : ℕ
  pub user : User
  pub job_id : String

pub record UserRequest : Type 0 where
  pub id : ℕ
  pub user : User

-- A `JobStatusRequest`.
pub record StreamRequest : Type 0 where
  pub id : ℕ
  pub user : User
  pub job_id : String
  pub is_cancel : Bool

-- What is sent to the Launcher; `Network` and `Caps` are what the job source says of a job's network
-- and of its cluster.
pub data Response (Network Caps : Type 0) : Type 0 where
  error_response : ℕ → ErrorType → String → Response Network Caps
  bootstrap_response : ℕ → Response Network Caps
  job_state_response : ℕ → List Job → Option (List String) → Response Network Caps
  control_job_response : ℕ → String → Bool → Response Network Caps
  network_response : ℕ → Network → Response Network Caps
  cluster_info_response : ℕ → Caps → Response Network Caps

-- The ID of the request that a response answers.
unfoldable pub response_id : {Network Caps : Type 0} → Response Network Caps → ℕ
response_id (error_response id t m) = id
response_id (bootstrap_response id) = id
response_id (job_state_response id js fs) = id
response_id (control_job_response id m c) = id
response_id (network_response id n) = id
response_id (cluster_info_response id c) = id
