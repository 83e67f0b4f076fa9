-- ===== src/Api/Responses.antt =====
-- sdk/src/api/Response.cpp, sdk/src/api/ResponseTypes.cpp: what is sent to the Launcher, as JSON. An
-- object is made by its assignments in their order; a double is its bits.
pub mod Numbering
pub mod Contents
pub mod JobFields
use rstudio_launcher_plugin.Base.{
  ℕ, ℤ, pos, negsuc, ◌+◌, ◌%◌, ◌^◌, Bool, true, false, not, Option, none, some, List, [], ◌∷◌, ◌++◌,
  map, String, string_key, ◌==◌, if◌then◌else◌, contains,
}
use rstudio_launcher_plugin.Json.{
  Value, bool_value, integer_value, real_value, string_value, array_value, object_value, Array,
  empty_array, Object, empty_object, member, push_all,
}
use rstudio_launcher_plugin.Json.Members.{Assignment, assign_all}
use rstudio_launcher_plugin.Json.Writing.{unless_empty, if_some, text_array}
use rstudio_launcher_plugin.Json.Read.{insert_element}
use rstudio_launcher_plugin.Api.Platform.{Platform}
use rstudio_launcher_plugin.Api.Parse.{to_json_array}
use rstudio_launcher_plugin.Api.Parts.{JobConfig, PlacementConstraint, ResourceLimit}
use rstudio_launcher_plugin.Api.Parts.ToJson.{
  job_config_to_json, placement_constraint_to_json, resource_limit_to_json,
}
use rstudio_launcher_plugin.Api.Job.{Job, State, state_to_string}
use rstudio_launcher_plugin.Api.Job.ToJson.{job_to_json}
use rstudio_launcher_plugin.Api.Messages.{
  ErrorType, unknown_error, request_not_supported, invalid_request, job_not_found, plugin_restarted,
  timeout, job_not_running, job_output_not_found, invalid_job_state, job_control_failure,
  unsupported_version,
}
use rstudio_launcher_plugin.Api.Stream.Sequences.{StreamSequences}
use rstudio_launcher_plugin.Api.Stream.Resource.{UtilData}
use rstudio_launcher_plugin.Api.Stream.Output.{OutputType, stdout, stderr, both}

-- `Response::Type`.
pub data ResponseType : Type 0 where
  error heartbeat bootstrap job_state job_status control_job job_output job_resource_util
        job_network cluster_info :
      ResponseType

unfoldable pub type_number : ResponseType → ℤ
type_number error = negsuc 0
type_number heartbeat = pos 0
type_number bootstrap = pos 1
type_number job_state = pos 2
type_number job_status = pos 3
type_number control_job = pos 4
type_number job_output = pos 5
type_number job_resource_util = pos 6
type_number job_network = pos 7
type_number cluster_info = pos 8

-- The number of an `ErrorResponse::Type`.
unfoldable pub error_number : ErrorType → ℕ
error_number unknown_error = 0
error_number request_not_supported = 1
error_number invalid_request = 2
error_number job_not_found = 3
error_number plugin_restarted = 4
error_number timeout = 5
error_number job_not_running = 6
error_number job_output_not_found = 7
error_number invalid_job_state = 8
error_number job_control_failure = 9
error_number unsupported_version = 10

-- `ContainerConfiguration` and `JobSourceConfiguration`.
pub record ContainerConfiguration : Type 0 where
  pub allow_unknown_images : Bool
  pub container_images : List String
  pub default_image : String
  pub supports_containers : Bool

pub record JobSourceConfiguration : Type 0 where
  pub container_config : ContainerConfiguration
  pub custom_config : List JobConfig
  pub placement_constraints : List PlacementConstraint
  pub queues : List String
  pub resource_limits : List ResourceLimit

-- What a response of each class holds. A job state response locks its jobs and writes them as they
-- are then; a completed output stream has no text.
pub data Body : Type 0 where
  error_body : ErrorType → String → Body
  heartbeat_body bootstrap_body : Body
  job_state_body : List Job → Option (List String) → Body
  job_status_body : StreamSequences → Job → Body
  control_job_body : String → Bool → Body
  output_body : ℕ → String → OutputType → Body
  completed_body : ℕ → Body
  resource_util_body : StreamSequences → UtilData ℕ → Bool → Body
  network_body : String → List String → Body
  cluster_info_body : JobSourceConfiguration → Body

unfoldable pub type_of : Body → ResponseType
type_of (error_body type message) = error
type_of heartbeat_body = heartbeat
type_of bootstrap_body = bootstrap
type_of (job_state_body jobs fields) = job_state
type_of (job_status_body sequences job) = job_status
type_of (control_job_body message complete) = control_job
type_of (output_body sequence output type) = job_output
type_of (completed_body sequence) = job_output
type_of (resource_util_body sequences usage complete) = job_resource_util
type_of (network_body host addresses) = job_network
type_of (cluster_info_body configuration) = cluster_info

-- `Response::Impl`, with the members of the class.
pub record Response : Type 0 where
  pub request_id : ℕ
  pub response_id : ℕ
  pub body : Body

-- Whether a class has IDs of its own.
unfoldable pub is_numbered : ResponseType → Bool
is_numbered error = false
is_numbered heartbeat = false
is_numbered bootstrap = true
is_numbered job_state = true
is_numbered job_status = true
is_numbered control_job = true
is_numbered job_output = true
is_numbered job_resource_util = true
is_numbered job_network = true
is_numbered cluster_info = true

-- The constructor of a multiple stream response and of a heartbeat gives no request.
unfoldable pub request_of : Body → ℕ → ℕ
request_of heartbeat_body request = 0
request_of (job_status_body sequences job) request = 0
request_of (resource_util_body sequences usage complete) request = 0
request_of (error_body type message) request = request
request_of bootstrap_body request = request
request_of (job_state_body jobs fields) request = request
request_of (control_job_body message complete) request = request
request_of (output_body sequence output type) request = request
request_of (completed_body sequence) request = request
request_of (network_body host addresses) request = request
request_of (cluster_info_body configuration) request = request

-- The constructors, on `NEXT_RESPONSE_ID`: the response, and the next ID.
unfoldable pub new_response : Body → ℕ → ℕ → Response × ℕ
unfolding is_numbered request_of type_of
new_response body request next =
    if is_numbered (type_of body)
    then (
      record { request_id = request_of body request; response_id = next; body = body },
      (next + 1) % 2 ^ 64,
    )
    else (record { request_id = request_of body request; response_id = 0; body = body }, next)

abbrev pub number : ℕ → Option Value
number n = some (integer_value (pos n))

-- `StreamSequenceId::toJson`.
unfoldable pub sequence_to_json : ℕ × ℕ → Object
sequence_to_json (request, sequence) =
    assign_all (("requestId", number request) ∷ ("seqId", number sequence) ∷ []) empty_object

-- The loop that takes the members out that are not asked for.
unfoldable pub filter_members : List String → Object → Object
filter_members fields empty_object = empty_object
filter_members fields (member n v o) =
    let rest = filter_members fields o in if contains fields n then member n v rest else rest

-- A job as a job state response writes it.
unfoldable pub job_object : Platform → Option (List String) → Job → Object
unfolding filter_members
job_object p none j = job_to_json p j
job_object p (some fields) j = filter_members (insert_element "id" fields) (job_to_json p j)

unfoldable pub output_type_name : OutputType → String
output_type_name stdout = "stdout"
output_type_name stderr = "stderr"
output_type_name both = "mixed"

abbrev pub container_config_members : ContainerConfiguration → List Assignment
container_config_members c =
    if c.supports_containers
    then ("defaultImage", unless_empty c.default_image)
      ∷ ("allowUnknownImages", some (bool_value c.allow_unknown_images))
      ∷ ("images", some (array_value (text_array c.container_images)))
      ∷ []
    else []

unfoldable pub queues_value : List String → Option Value
queues_value [] = none
queues_value (q ∷ qs) = some (array_value (text_array (q ∷ qs)))

-- The assignments of each class's `toJson`, after those of `Response::toJson`.
abbrev pub error_members : ErrorType → String → List Assignment
error_members type message =
    ("errorCode", number (error_number type)) ∷ ("errorMessage", some (string_value message)) ∷ []

abbrev pub bootstrap_members : List Assignment
bootstrap_members =
    (
      "version",
      some (
          object_value (
            assign_all (("major", number 3) ∷ ("minor", number 0) ∷ ("patch", number 0) ∷ [])
              empty_object)),
    )
    ∷ []

abbrev pub job_state_members : Platform → List Job → Option (List String) → List Assignment
job_state_members p jobs fields =
    ("jobs", some (array_value (to_json_array (job_object p fields) jobs))) ∷ []

abbrev pub job_status_members : StreamSequences → Job → List Assignment
job_status_members sequences job =
    ("sequences", some (array_value (to_json_array sequence_to_json sequences)))
    ∷ ("id", some (string_value job.id))
    ∷ ("name", some (string_value job.name))
    ∷ ("status", some (string_value (state_to_string job.status)))
    ∷ ("statusMessage", unless_empty job.status_message)
    ∷ []

abbrev pub control_job_members : String → Bool → List Assignment
control_job_members message complete =
    ("statusMessage", some (string_value message))
    ∷ ("operationComplete", some (bool_value complete))
    ∷ []

abbrev pub output_members : ℕ → String → OutputType → List Assignment
output_members sequence output type =
    ("seqId", number sequence)
    ∷ ("complete", some (bool_value false))
    ∷ ("output", unless_empty output)
    ∷ ("outputType", if output == "" then none else some (string_value (output_type_name type)))
    ∷ []

abbrev pub completed_members : ℕ → List Assignment
completed_members sequence = ("seqId", number sequence) ∷ ("complete", some (bool_value true)) ∷ []

abbrev pub resource_util_members : StreamSequences → UtilData ℕ → Bool → List Assignment
resource_util_members sequences usage complete =
    ("sequences", some (array_value (to_json_array sequence_to_json sequences)))
    ∷ ("cpuPercent", if_some real_value usage.cpu_percent)
    ∷ ("cpuTime", if_some real_value usage.cpu_seconds)
    ∷ ("virtualMemory", if_some real_value usage.virtual_mem)
    ∷ ("residentMemory", if_some real_value usage.resident_mem)
    ∷ ("complete", some (bool_value complete))
    ∷ []

abbrev pub network_members : String → List String → List Assignment
network_members host addresses =
    ("host", some (string_value host))
    ∷ ("ipAddresses", some (array_value (text_array addresses)))
    ∷ []

abbrev pub cluster_info_members : JobSourceConfiguration → List Assignment
cluster_info_members c =
    ("supportsContainers", some (bool_value c.container_config.supports_containers))
    ∷ (container_config_members c.container_config
        ++ (("queues", queues_value c.queues)
            ∷ ("config", some (array_value (to_json_array job_config_to_json c.custom_config)))
            ∷ (
              "resourceLimits",
              some (array_value (to_json_array resource_limit_to_json c.resource_limits)),
            )
            ∷ (
              "placementConstraints",
              some (
                  array_value (to_json_array placement_constraint_to_json c.placement_constraints)),
            )
            ∷ []))

module _ (p : Platform) where
  abbrev pub body_members : Body → List Assignment
  body_members (error_body type message) = error_members type message
  body_members heartbeat_body = []
  body_members bootstrap_body = bootstrap_members
  body_members (job_state_body jobs fields) = job_state_members p jobs fields
  body_members (job_status_body sequences job) = job_status_members sequences job
  body_members (control_job_body message complete) = control_job_members message complete
  body_members (output_body sequence output type) = output_members sequence output type
  body_members (completed_body sequence) = completed_members sequence
  body_members (resource_util_body sequences usage complete) =
      resource_util_members sequences usage complete
  body_members (network_body host addresses) = network_members host addresses
  body_members (cluster_info_body c) = cluster_info_members c

  -- `Response::toJson`, and then the class's.
  abbrev pub response_members : Response → List Assignment
  response_members r =
      ("messageType", some (integer_value (type_number (type_of r.body))))
      ∷ ("requestId", number r.request_id)
      ∷ ("responseId", number r.response_id)
      ∷ body_members r.body

  unfoldable pub response_to_json : Response → Object
  response_to_json r = assign_all (response_members r) empty_object
