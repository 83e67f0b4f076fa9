-- ===== src/Api/Job/RoundTrip/Whole.antt =====
-- A job is read as it was written.
use rstudio_launcher_plugin.Base.{
  ℕ, ◌≡◌, refl, inr, Bool, true, false, Option, none, some, List, [], ◌∷◌, String, string_key, ◌==◌,
  not, ◌&&◌, ◌||◌, arith, map, all_of,
}
use rstudio_launcher_plugin.Json.{
  find_member, string_value, member, Value, Object, object_value, empty_array, elements,
  elements-push_all, empty_object, is_empty_object,
}
use rstudio_launcher_plugin.Json.Members.{find_member-assign_all}
use rstudio_launcher_plugin.Json.Writing.{read-text}
use rstudio_launcher_plugin.Json.Read.{insert_elements, as_object}
use rstudio_launcher_plugin.Api.User.{User, new_user}
use rstudio_launcher_plugin.Api.Platform.{Platform, IsDocumented}
use rstudio_launcher_plugin.Api.Parse.{Result, get_or, to_json_array, from_json_array}
use rstudio_launcher_plugin.Api.Parts.{Container}
use rstudio_launcher_plugin.Api.Parts.FromJson.{
  exposed_port_from_json, job_config_from_json, mount_from_json, placement_constraint_from_json,
  resource_limit_from_json,
}
use rstudio_launcher_plugin.Api.Parts.ToJson.{
  container_to_json, container_members, exposed_port_to_json, job_config_to_json, mount_to_json,
  placement_constraint_to_json, resource_limit_to_json,
}
use rstudio_launcher_plugin.Api.Parts.RoundTrip.{
  opt_in_int, container_fits, exposed_port_fits, job_config_fits, source_fits,
  placement_constraint_fits, resource_limit_fits, container_round_trip, exposed_port_round_trip,
  job_config_round_trip, mount_round_trip, placement_constraint_round_trip,
  resource_limit_round_trip,
}
use rstudio_launcher_plugin.Api.Job.{Job, State, state_to_string}
use rstudio_launcher_plugin.Api.Job.FromJson.{
  job_of_members, job_from_json, check_command, parse_user, parse_container, parse_array,
  parse_status, parse_date, variable_from_json, has_container,
}
use rstudio_launcher_plugin.Api.Job.ToJson.{
  job_to_json, variable_to_json, variable_members, map_option,
}
use rstudio_launcher_plugin.Api.Job.RoundTrip.{
  members_of, read_members-job_to_json, unless_empty_text,
}
use rstudio_launcher_plugin.Api.Job.RoundTrip.Status.{state_round_trip}

abbrev pub is_some {ℓ} : {A : Type ℓ} → Option A → Bool
is_some none = false
is_some (some a) = true

-- What is run is given in one way.
unfoldable pub runs_one : Job → Bool
runs_one j =
    not (not (j.command == "") && not (j.exe == ""))
    && (not (j.command == "") || not (j.exe == "") || is_some j.container_details)

-- A user that its name stands for: none, all users, or one that the system has.
pub data IsNamed (p : Platform) : User → Type 0 where
  nobody : IsNamed p (new_user true)
  everybody : IsNamed p (new_user false)
  somebody :
      {u : User}
      → (u.name == "") ≡ false
      → (u.name == "*") ≡ false
      → p.get_user u.name ≡ some u
      → IsNamed p u

abbrev pub container_fits_option : Option Container → Bool
container_fits_option none = true
container_fits_option (some c) = container_fits c

-- A job that its JSON can hold.
pub record IsWritable (p : Platform) (j : Job) : Type 0 where
  pub runs : runs_one j ≡ true
  pub named : IsNamed p j.user
  pub queues_set : insert_elements j.queues [] ≡ j.queues
  pub tags_set : insert_elements j.tags [] ≡ j.tags
  pub exit_code_fits : opt_in_int j.exit_code ≡ true
  pub pid_fits : opt_in_int j.pid ≡ true
  pub container : container_fits_option j.container_details ≡ true
  pub config : all_of job_config_fits j.config ≡ true
  pub ports : all_of exposed_port_fits j.exposed_ports ≡ true
  pub mounts : all_of (λ m. source_fits p m.source) j.mounts ≡ true
  pub constraints : all_of placement_constraint_fits j.placement_constraints ≡ true
  pub limits : all_of resource_limit_fits j.resource_limits ≡ true

is_empty_object-find_member :
    (name : String) (o : Object) {v : Value}
    → find_member name o ≡ some v
    → is_empty_object o ≡ false
unfolding is_empty_object find_member
is_empty_object-find_member name empty_object e = absurd (ground arith)
is_empty_object-find_member name (member n w o) e = refl

has_container-to_json :
    (o : Option Container) → has_container (map_option container_to_json o) ≡ is_some o
unfolding container_to_json find_member
has_container-to_json none = refl
has_container-to_json (some c) =
    rw
      (is_empty_object-find_member "image" (container_to_json c) {v = string_value c.image}
        (find_member-assign_all "image" (container_members c) empty_object))
      refl

module _ (p : Platform) where
  parse_array-map :
      {T : Type 0} (from : Object → Result T) (to : T → Object) (fits : T → Bool)
      → ((t : T) → fits t ≡ true → from (to t) ≡ inr t)
      → (ts : List T) → all_of fits ts ≡ true
      → from_json_array p.rapid from (map (λ t. object_value (to t)) ts) ≡ inr ts
  unfolding from_json_array as_object
  parse_array-map from to fits e [] h = refl
  parse_array-map from to fits e (t ∷ ts) h =
      rw (from_json_array, e t (ground arith), parse_array-map from to fits e ts (ground arith))
        refl

  parse_array-to_json_array :
      {T : Type 0} (from : Object → Result T) (to : T → Object) (fits : T → Bool)
      → ((t : T) → fits t ≡ true → from (to t) ≡ inr t)
      → (ts : List T) → all_of fits ts ≡ true
      → parse_array p from (some (to_json_array to ts)) ≡ inr ts
  unfolding parse_array to_json_array elements
  parse_array-to_json_array from to fits e ts h =
      rw (elements-push_all (map (λ t. object_value (to t)) ts) empty_array)
        (parse_array-map from to fits e ts h)

  variable_round_trip : (v : String × String) → variable_from_json (variable_to_json v) ≡ inr v
  unfolding variable_from_json variable_to_json
  variable_round_trip v =
      let m = variable_members v in
      rw (read-text m "name" v.0 refl, read-text m "value" v.1 refl) refl

  all_of-true : {T : Type 0} (ts : List T) → all_of (λ t. true) ts ≡ true
  all_of-true [] = refl
  all_of-true (t ∷ ts) = all_of-true ts

  check_command-members_of : (j : Job) → runs_one j ≡ true → check_command (members_of p j) ≡ inr tt
  unfolding check_command runs_one
  check_command-members_of j h = rw (has_container-to_json j.container_details) (ground (arith, h))

  parse_user-name : {u : User} → IsNamed p u → parse_user p (some u.name) ≡ inr u
  unfolding parse_user new_user
  parse_user-name nobody = refl
  parse_user-name everybody = refl
  parse_user-name (somebody e a f) = rw (e, a, f) refl

  module _ (documented : IsDocumented p) where
    parse_container-to_json :
        (o : Option Container)
        → container_fits_option o ≡ true
        → parse_container p (map_option container_to_json o) ≡ inr o
    unfolding parse_container
    parse_container-to_json none h = refl
    parse_container-to_json (some c) h = rw (container_round_trip p documented c h) refl

    parse_date-to_string :
        (name : String) (o : Option ℕ) → parse_date p name (map_option p.time_to_string o) ≡ inr o
    unfolding parse_date
    parse_date-to_string name none = refl
    parse_date-to_string name (some t) = rw (parse_date, documented.parse_time_to_string t) refl

    parse_status-to_string : (s : State) → parse_status p (some (state_to_string s)) ≡ inr s
    unfolding parse_status
    parse_status-to_string s = rw (parse_status, state_round_trip p documented s) refl

    get_or-unless_empty : (s : String) → get_or (unless_empty_text s) "" ≡ s
    get_or-unless_empty s = ground (arith, string_key.beq_iff s "")

    job_of_members-members_of :
        (no_time : ℕ) (j : Job) → IsWritable p j → job_of_members p no_time (members_of p j) ≡ inr j
    unfolding job_of_members
    job_of_members-members_of no_time j w =
        rw
          (
            check_command-members_of j w.runs,
            parse_user-name w.named,
            parse_container-to_json j.container_details w.container,
            parse_array-to_json_array (job_config_from_json p) job_config_to_json job_config_fits
                (job_config_round_trip p documented) j.config w.config,
            parse_array-to_json_array variable_from_json variable_to_json (λ v. true)
                (λ v h. variable_round_trip v) j.environment (all_of-true j.environment),
            parse_array-to_json_array (exposed_port_from_json p) exposed_port_to_json
                exposed_port_fits (exposed_port_round_trip p documented) j.exposed_ports w.ports,
            parse_array-to_json_array (mount_from_json p) mount_to_json
                (λ m. source_fits p m.source) (mount_round_trip p documented) j.mounts w.mounts,
            parse_array-to_json_array placement_constraint_from_json placement_constraint_to_json
                placement_constraint_fits placement_constraint_round_trip j.placement_constraints
                w.constraints,
            parse_array-to_json_array resource_limit_from_json resource_limit_to_json
                resource_limit_fits resource_limit_round_trip j.resource_limits w.limits,
            parse_status-to_string j.status,
            parse_date-to_string "lastUpdateTime" j.last_update_time,
            parse_date-to_string "submissionTime" (some j.submission_time),
            get_or-unless_empty j.cluster,
            get_or-unless_empty j.status_message,
          )
          refl

    -- On a documented platform, a job that its JSON can hold is read back from what was written.
    pub job_from_json-job_to_json :
        (no_time : ℕ) (j : Job) → IsWritable p j → job_from_json p no_time (job_to_json p j) ≡ inr j
    unfolding job_from_json
    job_from_json-job_to_json no_time j w =
        rw
          (read_members-job_to_json p documented j w.queues_set w.tags_set w.exit_code_fits
            w.pid_fits)
          (job_of_members-members_of no_time j w)
