-- ===== src/Api/Job.antt =====
-- sdk/include/api/Job.hpp, sdk/src/api/Job.cpp: jobs. A `DateTime` is a number of microseconds, and a
-- set is the list of its elements in their order.
pub mod FromJson
pub mod ToJson
pub mod RoundTrip
pub mod Accepted
use rstudio_launcher_plugin.Base.{
  ℕ, ℤ, ◌≡◌, ◌↔◌, Bool, true, false, Option, none, some, List, String, string_key, ◌==◌, not, ltb,
  length, contains, all_of, if◌then◌else◌, arith,
}
use rstudio_launcher_plugin.Api.User.{User}
use rstudio_launcher_plugin.Api.Parts.{
  Container, ExposedPort, JobConfig, Mount, PlacementConstraint, ResourceLimit,
}
use rstudio_launcher_plugin.Api.Platform.{TextAlgorithms}

-- `Job::State`.
pub data State : Type 0 where
  canceled failed finished killed pending running suspended unknown : State

pub State-discrete : Discrete State
State-discrete = hlevel

abbrev pub state_eq : State → State → Bool
state_eq canceled canceled = true
state_eq failed failed = true
state_eq finished finished = true
state_eq killed killed = true
state_eq pending pending = true
state_eq running running = true
state_eq suspended suspended = true
state_eq unknown unknown = true
state_eq _ _ = false

pub state_eq_iff : (s t : State) → (state_eq s t ≡ true) ↔ (s ≡ t)
state_eq_iff s t = ground arith

pub record Job : Type 0 where
  pub arguments : List String
  pub cluster : String
  pub command : String
  pub config : List JobConfig
  pub container_details : Option Container
  pub environment : List (String × String)
  pub exe : String
  pub exit_code : Option ℤ
  pub exposed_ports : List ExposedPort
  pub host : String
  pub id : String
  pub last_update_time : Option ℕ
  pub mounts : List Mount
  pub name : String
  pub pid : Option ℤ
  pub placement_constraints : List PlacementConstraint
  pub queues : List String
  pub resource_limits : List ResourceLimit
  pub standard_in : String
  pub standard_err_file : String
  pub standard_out_file : String
  pub status : State
  pub status_message : String
  pub submission_time : ℕ
  pub tags : List String
  pub user : User
  pub working_directory : String

-- `Job::isCompleted`.
abbrev pub is_completed_state : State → Bool
is_completed_state finished = true
is_completed_state killed = true
is_completed_state canceled = true
is_completed_state failed = true
is_completed_state _ = false

unfoldable pub is_completed : Job → Bool
is_completed j = is_completed_state j.status

-- `Job::matchesTags`.
unfoldable pub matches_tags : Job → List String → Bool
matches_tags j wanted =
    if ltb (length j.tags) (length wanted)
    then false
    else all_of (λ tag. contains j.tags tag) wanted

-- `jobStatusToString`, that is `Job::stateToString`.
unfoldable pub state_to_string : State → String
state_to_string canceled = "Canceled"
state_to_string failed = "Failed"
state_to_string finished = "Finished"
state_to_string killed = "Killed"
state_to_string pending = "Pending"
state_to_string running = "Running"
state_to_string suspended = "Suspended"
state_to_string unknown = ""

-- `jobStatusFromString`, and `Job::stateFromString`, which makes an error of `none`.
unfoldable pub state_from_string : TextAlgorithms → String → Option State
state_from_string b text =
    let s = b.trim_copy text in
    if b.iequals s "Canceled"
    then some canceled
    else (if b.iequals s "Failed"
        then some failed
        else (if b.iequals s "Finished"
            then some finished
            else (if b.iequals s "Killed"
                then some killed
                else (if b.iequals s "Pending"
                    then some pending
                    else (if b.iequals s "Running"
                        then some running
                        else (if b.iequals s "Suspended"
                            then some suspended
                            else (if not (s == "") then none else some unknown)))))))
