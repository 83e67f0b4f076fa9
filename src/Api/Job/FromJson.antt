-- ===== src/Api/Job/FromJson.antt =====
-- sdk/src/api/Job.cpp: `Job::fromJson`. Its one call of `readObject` is `read_members`, with a field
-- for each variable that it reads.
use rstudio_launcher_plugin.Base.{
  ℕ, ℤ, inl, inr, Bool, true, false, not, ◌&&◌, Option, none, some, List, [], ◌∷◌, String, concat,
  string_key, ◌==◌, if◌then◌else◌,
}
use rstudio_launcher_plugin.Json.{Object, Array, empty_array, elements, is_empty_object}
use rstudio_launcher_plugin.Json.Read.{
  read, read_optional, read_optional_vector, read_optional_set, as_string, as_int, as_array,
  as_object,
}
use rstudio_launcher_plugin.Api.User.{User, new_user}
use rstudio_launcher_plugin.Api.Platform.{Platform}
use rstudio_launcher_plugin.Api.Parse.{
  Result, ◌>>=◌, lift, get_or, quote_str, job_parse_error, invalid_value, missing_value,
  conflicting_values, time_error, from_json_array,
}
use rstudio_launcher_plugin.Api.Parts.{Container}
use rstudio_launcher_plugin.Api.Parts.FromJson.{
  container_from_json, exposed_port_from_json, job_config_from_json, mount_from_json,
  placement_constraint_from_json, resource_limit_from_json,
}
use rstudio_launcher_plugin.Api.Job.{Job, State, state_from_string}

pub record Members : Type 0 where
  pub arguments : Option (List String)
  pub cluster : Option String
  pub command : Option String
  pub config : Option Array
  pub container : Option Object
  pub env : Option Array
  pub exe : Option String
  pub exit_code : Option ℤ
  pub ports : Option Array
  pub host : Option String
  pub id : Option String
  pub last_up_time : Option String
  pub mounts : Option Array
  pub name : String
  pub pid : Option ℤ
  pub constraints : Option Array
  pub queues : Option (List String)
  pub limits : Option Array
  pub std_in : Option String
  pub std_err : Option String
  pub std_out : Option String
  pub status : Option String
  pub status_message : Option String
  pub submit_time : Option String
  pub tags : Option (List String)
  pub user : Option String
  pub working_dir : Option String

-- The text is there and not empty.
abbrev pub is_set : Option String → Bool
is_set none = false
is_set (some s) = not (s == "")

-- There is a container, and it is not an empty object.
abbrev pub has_container : Option Object → Bool
has_container none = false
has_container (some o) = not (is_empty_object o)

-- `fromJsonArray` of the environment, on one object.
unfoldable pub variable_from_json : Object → Result (String × String)
variable_from_json o = do
  name ← lift (read as_string "name" o)
  value ← lift (read as_string "value" o)
  inr (name, value)

-- What is run is given, and in one way.
unfoldable pub check_command : Members → Result (Unit {0})
unfolding is_empty_object
check_command m =
    if is_set m.command && is_set m.exe
    then inl (
        job_parse_error conflicting_values
          (concat (quote_str "command" ∷ " and " ∷ quote_str "exe" ∷ [])))
    else (if not (is_set m.command) && not (is_set m.exe) && not (has_container m.container)
        then inl (
            job_parse_error missing_value (
              concat (
                "one of "
                ∷ quote_str "container"
                ∷ " and/or one of "
                ∷ quote_str "command"
                ∷ " and "
                ∷ quote_str "exe"
                ∷ [])))
        else inr tt)

module _ (p : Platform) where
  unfoldable pub read_members : Object → Result Members
  read_members o = do
    arguments ← lift (read_optional_vector as_string "args" o)
    cluster ← lift (read_optional as_string "cluster" o)
    command ← lift (read_optional as_string "command" o)
    config ← lift (read_optional as_array "config" o)
    container ← lift (read_optional as_object "container" o)
    env ← lift (read_optional as_array "environment" o)
    exe ← lift (read_optional as_string "exe" o)
    exit_code ← lift (read_optional (as_int p.rapid) "exitCode" o)
    ports ← lift (read_optional as_array "exposedPorts" o)
    host ← lift (read_optional as_string "host" o)
    id ← lift (read_optional as_string "id" o)
    last_up_time ← lift (read_optional as_string "lastUpdateTime" o)
    mounts ← lift (read_optional as_array "mounts" o)
    name ← lift (read as_string "name" o)
    pid ← lift (read_optional (as_int p.rapid) "pid" o)
    constraints ← lift (read_optional as_array "placementConstraints" o)
    queues ← lift (read_optional_set "queues" o)
    limits ← lift (read_optional as_array "resourceLimits" o)
    std_in ← lift (read_optional as_string "stdin" o)
    std_err ← lift (read_optional as_string "stderrFile" o)
    std_out ← lift (read_optional as_string "stdoutFile" o)
    status ← lift (read_optional as_string "status" o)
    status_message ← lift (read_optional as_string "statusMessage" o)
    submit_time ← lift (read_optional as_string "submissionTime" o)
    tags ← lift (read_optional_set "tags" o)
    user ← lift (read_optional as_string "user" o)
    working_dir ← lift (read_optional as_string "workingDirectory" o)
    inr (record {
      arguments = arguments;
      cluster = cluster;
      command = command;
      config = config;
      container = container;
      env = env;
      exe = exe;
      exit_code = exit_code;
      ports = ports;
      host = host;
      id = id;
      last_up_time = last_up_time;
      mounts = mounts;
      name = name;
      pid = pid;
      constraints = constraints;
      queues = queues;
      limits = limits;
      std_in = std_in;
      std_err = std_err;
      std_out = std_out;
      status = status;
      status_message = status_message;
      submit_time = submit_time;
      tags = tags;
      user = user;
      working_dir = working_dir;
    })

  -- The user: none, all users or one that the system has.
  unfoldable pub parse_user : Option String → Result User
  parse_user o =
      let name = get_or o "" in
      if name == ""
      then inr (new_user true)
      else (if name == "*" then inr (new_user false) else elim (p.get_user name) [
        | none ↦
            inl (
              job_parse_error invalid_value
                (concat (quote_str name ∷ " is not a valid user." ∷ [])))
        | some u ↦ inr u
      ])

  unfoldable pub parse_container : Option Object → Result (Option Container)
  parse_container none = inr none
  parse_container (some o) = container_from_json p o >>= λ c. inr (some c)

  unfoldable pub parse_status : Option String → Result State
  parse_status o = elim (state_from_string p.texts (get_or o "")) [
    | none ↦ inl (
        job_parse_error invalid_value
          (concat (quote_str (get_or o "") ∷ " is not a valid job status" ∷ [])))
    | some s ↦ inr s
  ]

  -- A date; an error has the name of its member.
  unfoldable pub parse_date : String → Option String → Result (Option ℕ)
  parse_date name none = inr none
  parse_date name (some s) = elim (p.texts.parse_time s) [
    | none ↦ inl (time_error name)
    | some t ↦ inr (some t)
  ]

  -- `fromJsonArray` of an array that may be missing.
  unfoldable pub parse_array {ℓ} :
      {T : Type ℓ} → (Object → Result T) → Option Array → Result (List T)
  parse_array from_json a = from_json_array p.rapid from_json (elements (get_or a empty_array))

  -- `Job::fromJson` after `readObject`; `no_time` is the submission time of a new `Job`.
  unfoldable pub job_of_members : ℕ → Members → Result Job
  job_of_members no_time m = do
    done ← check_command m
    user ← parse_user m.user
    container ← parse_container m.container
    config ← parse_array (job_config_from_json p) m.config
    environment ← parse_array variable_from_json m.env
    ports ← parse_array (exposed_port_from_json p) m.ports
    mounts ← parse_array (mount_from_json p) m.mounts
    constraints ← parse_array placement_constraint_from_json m.constraints
    limits ← parse_array resource_limit_from_json m.limits
    status ← parse_status m.status
    last_update_time ← parse_date "lastUpdateTime" m.last_up_time
    submission_time ← parse_date "submissionTime" m.submit_time
    inr (record {
      arguments = get_or m.arguments [];
      cluster = get_or m.cluster "";
      command = get_or m.command "";
      config = config;
      container_details = container;
      environment = environment;
      exe = get_or m.exe "";
      exit_code = m.exit_code;
      exposed_ports = ports;
      host = get_or m.host "";
      id = get_or m.id "";
      last_update_time = last_update_time;
      mounts = mounts;
      name = m.name;
      pid = m.pid;
      placement_constraints = constraints;
      queues = get_or m.queues [];
      resource_limits = limits;
      standard_in = get_or m.std_in "";
      standard_err_file = get_or m.std_err "";
      standard_out_file = get_or m.std_out "";
      status = status;
      status_message = get_or m.status_message "";
      submission_time = get_or submission_time no_time;
      tags = get_or m.tags [];
      user = user;
      working_directory = get_or m.working_dir "";
    })

  -- `Job::fromJson`.
  unfoldable pub job_from_json : ℕ → Object → Result Job
  unfolding read_members job_of_members
  job_from_json no_time o = read_members o >>= job_of_members no_time
