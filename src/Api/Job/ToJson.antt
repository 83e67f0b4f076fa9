-- ===== src/Api/Job/ToJson.antt =====
-- sdk/src/api/Job.cpp: `Job::toJson`, as its assignments.
use rstudio_launcher_plugin.Base.{Option, none, some, List, [], ◌∷◌, String}
use rstudio_launcher_plugin.Json.{
  integer_value, string_value, array_value, object_value, Object, empty_object,
}
use rstudio_launcher_plugin.Json.Members.{Assignment, assign_all}
use rstudio_launcher_plugin.Json.Writing.{unless_empty, if_some, text_array}
use rstudio_launcher_plugin.Api.Platform.{Platform}
use rstudio_launcher_plugin.Api.Parse.{to_json_array}
use rstudio_launcher_plugin.Api.Parts.ToJson.{
  container_to_json, exposed_port_to_json, job_config_to_json, mount_to_json,
  placement_constraint_to_json, resource_limit_to_json,
}
use rstudio_launcher_plugin.Api.Job.{Job, state_to_string}

-- `toJsonArray` of the environment, on one variable.
abbrev pub variable_members : String × String → List Assignment
variable_members v = ("name", some (string_value v.0)) ∷ ("value", some (string_value v.1)) ∷ []

unfoldable pub variable_to_json : String × String → Object
variable_to_json v = assign_all (variable_members v) empty_object

abbrev pub map_option {ℓ κ} : {A : Type ℓ} {B : Type κ} → (A → B) → Option A → Option B
map_option f none = none
map_option f (some a) = some (f a)

module _ (p : Platform) where
  abbrev pub job_members : Job → List Assignment
  job_members j =
      ("args", some (array_value (text_array j.arguments)))
      ∷ ("cluster", unless_empty j.cluster)
      ∷ ("command", some (string_value j.command))
      ∷ ("config", some (array_value (to_json_array job_config_to_json j.config)))
      ∷ ("container", if_some object_value (map_option container_to_json j.container_details))
      ∷ ("environment", some (array_value (to_json_array variable_to_json j.environment)))
      ∷ ("exe", some (string_value j.exe))
      ∷ ("exposedPorts", some (array_value (to_json_array exposed_port_to_json j.exposed_ports)))
      ∷ ("exitCode", if_some integer_value j.exit_code)
      ∷ ("host", some (string_value j.host))
      ∷ ("id", some (string_value j.id))
      ∷ ("lastUpdateTime", if_some string_value (map_option p.time_to_string j.last_update_time))
      ∷ ("mounts", some (array_value (to_json_array mount_to_json j.mounts)))
      ∷ ("name", some (string_value j.name))
      ∷ ("pid", if_some integer_value j.pid)
      ∷ (
        "placementConstraints",
        some (array_value (to_json_array placement_constraint_to_json j.placement_constraints)),
      )
      ∷ ("queues", some (array_value (text_array j.queues)))
      ∷ (
        "resourceLimits",
        some (array_value (to_json_array resource_limit_to_json j.resource_limits)),
      )
      ∷ ("stdin", some (string_value j.standard_in))
      ∷ ("stderrFile", some (string_value j.standard_err_file))
      ∷ ("stdoutFile", some (string_value j.standard_out_file))
      ∷ ("status", some (string_value (state_to_string j.status)))
      ∷ ("statusMessage", unless_empty j.status_message)
      ∷ ("submissionTime", some (string_value (p.time_to_string j.submission_time)))
      ∷ ("tags", some (array_value (text_array j.tags)))
      ∷ ("user", some (string_value j.user.name))
      ∷ ("workingDirectory", some (string_value j.working_directory))
      ∷ []

  -- `Job::toJson`.
  unfoldable pub job_to_json : Job → Object
  job_to_json j = assign_all (job_members j) empty_object
