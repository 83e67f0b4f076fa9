-- ===== src/Api/Responses/Contents.antt =====
-- What every response's JSON says.
use rstudio_launcher_plugin.Base.{pos, ◌≡◌, refl, ◌∙◌, arith, Option, some, string_key}
use rstudio_launcher_plugin.Json.{Value, integer_value, empty_object, find_member}
use rstudio_launcher_plugin.Json.Members.{last_of, find_member-assign_all}
use rstudio_launcher_plugin.Api.Platform.{Platform}
use rstudio_launcher_plugin.Api.Responses.{
  Body, error_body, heartbeat_body, bootstrap_body, job_state_body, job_status_body,
  control_job_body, output_body, completed_body, resource_util_body, network_body,
  cluster_info_body, Response, body_members, response_members, response_to_json, type_number,
  type_of, number,
}

-- Each class leaves the members of `Response` as they are.
body_members-last_of :
    (p : Platform) (b : Body) (found : Option Value)
    → (last_of "messageType" (body_members p b) found ≡ found)
      × (last_of "requestId" (body_members p b) found ≡ found)
      × (last_of "responseId" (body_members p b) found ≡ found)
body_members-last_of p (error_body type message) found = (refl, refl, refl)
body_members-last_of p heartbeat_body found = (refl, refl, refl)
body_members-last_of p bootstrap_body found = (refl, refl, refl)
body_members-last_of p (job_state_body jobs fields) found = (refl, refl, refl)
body_members-last_of p (job_status_body sequences job) found =
    (ground arith, ground arith, ground arith)
body_members-last_of p (control_job_body message complete) found = (refl, refl, refl)
body_members-last_of p (output_body sequence output type) found =
    (ground arith, ground arith, ground arith)
body_members-last_of p (completed_body sequence) found = (refl, refl, refl)
body_members-last_of p (resource_util_body sequences usage complete) found =
    (ground arith, ground arith, ground arith)
body_members-last_of p (network_body host addresses) found = (refl, refl, refl)
body_members-last_of p (cluster_info_body c) found = (ground arith, ground arith, ground arith)

-- The JSON of a response has the number of its type, the ID of the request that it answers and its
-- own ID, whatever the response holds.
pub response_to_json-header :
    (p : Platform) (r : Response)
    → (find_member "messageType" (response_to_json p r)
        ≡ some (integer_value (type_number (type_of r.body))))
      × (find_member "requestId" (response_to_json p r) ≡ some (integer_value (pos r.request_id)))
      × (find_member "responseId" (response_to_json p r) ≡ some (integer_value (pos r.response_id)))
unfolding response_to_json find_member
response_to_json-header p r = (
  find_member-assign_all "messageType" (response_members p r) empty_object
      ∙ (body_members-last_of p r.body (some (integer_value (type_number (type_of r.body))))).0,
  find_member-assign_all "requestId" (response_members p r) empty_object
      ∙ (body_members-last_of p r.body (number r.request_id)).1,
  find_member-assign_all "responseId" (response_members p r) empty_object
      ∙ (body_members-last_of p r.body (number r.response_id)).2,
)
