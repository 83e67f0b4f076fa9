-- ===== src/Examples/Responses.antt =====
-- Responses to a request for jobs, and what their JSON says.
use rstudio_launcher_plugin.Base.{
  ◌≡◌, inr, ◌||◌, none, some, List, [], ◌∷◌, String, string_key, ◌==◌, if◌then◌else◌, contains,
}
use rstudio_launcher_plugin.Json.{Array, find_member}
use rstudio_launcher_plugin.Json.Read.{as_array, read_optional}
use rstudio_launcher_plugin.Api.Job.ToJson.{job_to_json}
use rstudio_launcher_plugin.Api.Job.FromJson.{job_from_json, parse_array}
use rstudio_launcher_plugin.Api.Responses.{job_state_body, response_to_json, job_object}
use rstudio_launcher_plugin.Api.Responses.JobFields.{find_member-job_object, response_to_json-jobs}
use rstudio_launcher_plugin.Examples.Requests.{platform, platform-IsDocumented, job, job-IsWritable}

abbrev asked : List String
asked = "name" ∷ "status" ∷ []

find_member-job_object_example : find_member "status" (job_object platform (some asked) job) ≡ (
    if ◌==◌ {A = String} "id" "status" || contains asked "status"
    then find_member "status" (job_to_json platform job)
    else none)
find_member-job_object_example = find_member-job_object platform asked job "status"

response_to_json-jobs_example :
    (a : Array) × (read_optional as_array "jobs" (
        response_to_json platform
          (record { request_id = 4; response_id = 7; body = job_state_body (job ∷ []) none }))
      ≡ inr (some a))
    × (parse_array platform (job_from_json platform 0) (some a) ≡ inr (job ∷ []))
response_to_json-jobs_example =
    response_to_json-jobs platform 0 4 7 (job ∷ []) platform-IsDocumented (job-IsWritable, tt)
