-- ===== src/Api/Responses/JobFields.antt =====
-- The jobs of a job state response: all of each, or the fields that were asked for.
use rstudio_launcher_plugin.Base.{
  ℕ, ◌≡◌, refl, arith, inr, ◌||◌, none, some, List, [], ◌∷◌, map, String, string_key, ◌==◌,
  if◌then◌else◌, contains,
}
use rstudio_launcher_plugin.Json.{
  object_value, Array, empty_array, elements, elements-push_all, Object, empty_object, member,
  find_member,
}
use rstudio_launcher_plugin.Json.Read.{
  as_array, as_object, read_optional, insert_element, contains-insert_element,
}
use rstudio_launcher_plugin.Json.Writing.{read_optional-array}
use rstudio_launcher_plugin.Api.Platform.{Platform, IsDocumented}
use rstudio_launcher_plugin.Api.Parse.{from_json_array, to_json_array}
use rstudio_launcher_plugin.Api.Job.{Job}
use rstudio_launcher_plugin.Api.Job.FromJson.{job_from_json, parse_array}
use rstudio_launcher_plugin.Api.Job.ToJson.{job_to_json}
use rstudio_launcher_plugin.Api.Job.RoundTrip.Whole.{IsWritable, job_from_json-job_to_json}
use rstudio_launcher_plugin.Api.Responses.{
  Response, job_state_body, response_to_json, response_members, job_object, filter_members,
}

find_member-filter_members :
    (fields : List String) (name : String) (o : Object)
    → find_member name (filter_members fields o)
      ≡ (if contains fields name then find_member name o else none)
unfolding find_member filter_members
find_member-filter_members fields name empty_object = ground arith
find_member-filter_members fields name (member n v o) =
    ground (arith, string_key.beq_iff n name, find_member-filter_members fields name o)

-- A job that is written for the given fields has the members of the whole job that are among them,
-- and its ID in any case, and no others.
pub find_member-job_object :
    (p : Platform) (fields : List String) (j : Job) (name : String)
    → find_member name (job_object p (some fields) j)
      ≡ (if "id" == name || contains fields name then find_member name (job_to_json p j) else none)
unfolding job_object
find_member-job_object p fields j name =
    rw
      (
        find_member-filter_members (insert_element "id" fields) name (job_to_json p j),
        contains-insert_element "id" name fields,
      )
      refl

abbrev pub AllWritable : Platform → List Job → Type 0
AllWritable p [] = Unit {0}
AllWritable p (j ∷ js) = IsWritable p j × AllWritable p js

module _ (p : Platform) (documented : IsDocumented p) (no_time : ℕ) where
  jobs_from_json :
      (jobs : List Job)
      → AllWritable p jobs
      → from_json_array p.rapid
          (job_from_json p no_time)
          (map (λ j. object_value (job_object p none j)) jobs)
        ≡ inr jobs
  unfolding from_json_array as_object job_object
  jobs_from_json [] w = refl
  jobs_from_json (j ∷ jobs) (w, ws) =
      rw
        (
          from_json_array,
          job_from_json-job_to_json p documented no_time j w,
          jobs_from_json jobs ws,
        )
        refl

-- The jobs of a job state response that was asked for no fields are read back from its JSON as they
-- are, on a documented platform, if each is one that its JSON can hold.
pub response_to_json-jobs :
    (p : Platform) (no_time request response : ℕ) (jobs : List Job)
    → IsDocumented p
    → AllWritable p jobs
    → (a : Array) × (read_optional as_array "jobs" (
          response_to_json p (record {
            request_id = request;
            response_id = response;
            body = job_state_body jobs none;
          }))
        ≡ inr (some a))
      × (parse_array p (job_from_json p no_time) (some a) ≡ inr jobs)
unfolding response_to_json parse_array to_json_array elements
response_to_json-jobs p no_time request response jobs documented w =
    let r : Response = record {
      request_id = request;
      response_id = response;
      body = job_state_body jobs none;
    } in
    (
      to_json_array (job_object p none) jobs,
      read_optional-array (response_members p r) "jobs" (to_json_array (job_object p none) jobs)
          refl,
      rw (elements-push_all (map (λ j. object_value (job_object p none j)) jobs) empty_array)
          (jobs_from_json p documented no_time jobs w),
    )
