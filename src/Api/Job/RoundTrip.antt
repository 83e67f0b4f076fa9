-- ===== src/Api/Job/RoundTrip.antt =====
-- What `readObject` finds of a job that was written.
pub mod Status
pub mod Whole
use rstudio_launcher_plugin.Base.{
  ℕ, ℤ, ◌≡◌, refl, ◌⊎◌, inl, inr, Bool, true, false, Option, none, some, List, [], ◌∷◌, String,
  string_key, ◌==◌, not, ◌&&◌, ◌||◌, if◌then◌else◌, arith, map, all_of,
}
use rstudio_launcher_plugin.Json.{Value, Object, integer_value}
use rstudio_launcher_plugin.Json.Members.{assign_all}
use rstudio_launcher_plugin.Json.Writing.{
  read-text, read_optional-int, read_optional-text, read_optional-array, read_optional-object,
  read_optional-unless_empty, read_optional_vector-text_array, read_optional_set-text_array,
  text_array,
}
use rstudio_launcher_plugin.Json.Read.{insert_elements}
use rstudio_launcher_plugin.Api.User.{User, new_user}
use rstudio_launcher_plugin.Api.Platform.{Platform, IsDocumented, in_int}
use rstudio_launcher_plugin.Api.Parse.{Result, ◌>>=◌, lift, get_or, to_json_array}
use rstudio_launcher_plugin.Api.Parts.{Container}
use rstudio_launcher_plugin.Api.Parts.ToJson.{
  container_to_json, exposed_port_to_json, job_config_to_json, mount_to_json,
  placement_constraint_to_json, resource_limit_to_json,
}
use rstudio_launcher_plugin.Api.Parts.RoundTrip.{opt_in_int, opt_get_int}
use rstudio_launcher_plugin.Api.Job.{Job, state_to_string}
use rstudio_launcher_plugin.Api.Job.FromJson.{Members, read_members}
use rstudio_launcher_plugin.Api.Job.ToJson.{job_to_json, job_members, variable_to_json, map_option}

abbrev pub unless_empty_text : String → Option String
unless_empty_text s = if s == "" then none else some s

abbrev pub members_of : Platform → Job → Members
members_of p j = record {
  arguments = some j.arguments;
  cluster = unless_empty_text j.cluster;
  command = some j.command;
  config = some (to_json_array job_config_to_json j.config);
  container = map_option container_to_json j.container_details;
  env = some (to_json_array variable_to_json j.environment);
  exe = some j.exe;
  exit_code = j.exit_code;
  ports = some (to_json_array exposed_port_to_json j.exposed_ports);
  host = some j.host;
  id = some j.id;
  last_up_time = map_option p.time_to_string j.last_update_time;
  mounts = some (to_json_array mount_to_json j.mounts);
  name = j.name;
  pid = j.pid;
  constraints = some (to_json_array placement_constraint_to_json j.placement_constraints);
  queues = some j.queues;
  limits = some (to_json_array resource_limit_to_json j.resource_limits);
  std_in = some j.standard_in;
  std_err = some j.standard_err_file;
  std_out = some j.standard_out_file;
  status = some (state_to_string j.status);
  status_message = unless_empty_text j.status_message;
  submit_time = some (p.time_to_string j.submission_time);
  tags = some j.tags;
  user = some j.user.name;
  working_dir = some j.working_directory;
}

module _ (p : Platform) (documented : IsDocumented p) where
  -- The sets are in order, and the numbers are `int`s.
  pub read_members-job_to_json :
      (j : Job)
      → insert_elements j.queues [] ≡ j.queues
      → insert_elements j.tags [] ≡ j.tags
      → opt_in_int j.exit_code ≡ true
      → opt_in_int j.pid ≡ true
      → read_members p (job_to_json p j) ≡ inr (members_of p j)
  unfolding read_members job_to_json
  read_members-job_to_json j queues tags code pid =
      let m = job_members p j in
      rw
        (
          read_optional_vector-text_array m "args" j.arguments refl,
          read_optional-unless_empty m "cluster" j.cluster refl,
          read_optional-text m "command" (some j.command) refl,
          read_optional-array m "config" (to_json_array job_config_to_json j.config) refl,
          read_optional-object m "container" (map_option container_to_json j.container_details)
              refl,
          read_optional-array m "environment" (to_json_array variable_to_json j.environment) refl,
          read_optional-text m "exe" (some j.exe) refl,
          read_optional-int m "exitCode" p.rapid j.exit_code
              (opt_get_int p documented j.exit_code code) refl,
          read_optional-array m "exposedPorts" (to_json_array exposed_port_to_json j.exposed_ports)
              refl,
          read_optional-text m "host" (some j.host) refl,
          read_optional-text m "id" (some j.id) refl,
          read_optional-text m "lastUpdateTime" (map_option p.time_to_string j.last_update_time)
              refl,
          read_optional-array m "mounts" (to_json_array mount_to_json j.mounts) refl,
          read-text m "name" j.name refl,
          read_optional-int m "pid" p.rapid j.pid (opt_get_int p documented j.pid pid) refl,
          read_optional-array m "placementConstraints"
              (to_json_array placement_constraint_to_json j.placement_constraints) refl,
          read_optional_set-text_array m "queues" j.queues queues refl,
          read_optional-array m "resourceLimits"
              (to_json_array resource_limit_to_json j.resource_limits) refl,
          read_optional-text m "stdin" (some j.standard_in) refl,
          read_optional-text m "stderrFile" (some j.standard_err_file) refl,
          read_optional-text m "stdoutFile" (some j.standard_out_file) refl,
          read_optional-text m "status" (some (state_to_string j.status)) refl,
          read_optional-unless_empty m "statusMessage" j.status_message refl,
          read_optional-text m "submissionTime" (some (p.time_to_string j.submission_time)) refl,
          read_optional_set-text_array m "tags" j.tags tags refl,
          read_optional-text m "user" (some j.user.name) refl,
          read_optional-text m "workingDirectory" (some j.working_directory) refl,
        )
        refl
