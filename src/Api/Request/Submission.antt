-- ===== src/Api/Request/Submission.antt =====
-- Jobs that are submitted: the message that carries a job, and the request that it is read to.
use rstudio_launcher_plugin.Base.{
  ℕ, pos, ◌≡◌, refl, ap, inr, true, false, none, some, List, [], ◌∷◌, String, string_key, ◌==◌, leb,
}
use rstudio_launcher_plugin.Json.{integer_value, string_value, object_value, Object, empty_object}
use rstudio_launcher_plugin.Json.Members.{Assignment, assign_all}
use rstudio_launcher_plugin.Json.Writing.{read-text, read-int, read_optional-text, read-assign_all}
use rstudio_launcher_plugin.Json.Read.{as_uint64, as_object}
use rstudio_launcher_plugin.Api.User.{User, new_user}
use rstudio_launcher_plugin.Api.Platform.{Platform, in_int, IsDocumented, is_plain}
use rstudio_launcher_plugin.Api.Job.{Job}
use rstudio_launcher_plugin.Api.Job.ToJson.{job_to_json}
use rstudio_launcher_plugin.Api.Job.RoundTrip.Whole.{IsWritable, job_from_json-job_to_json}
use rstudio_launcher_plugin.Api.Request.{success, submit_job, Request, submitted_job}
use rstudio_launcher_plugin.Api.Request.Base.{new_request, new_user_request}
use rstudio_launcher_plugin.Api.Request.Classes.{new_submit_job_request, read_job}
use rstudio_launcher_plugin.Api.Request.FromJson.{from_json, construct, accept}

-- The members of the message with which a user submits a job.
abbrev pub submission_members : Platform → ℕ → String → Job → List Assignment
submission_members p id username j =
    ("messageType", some (integer_value (pos 2)))
    ∷ ("requestId", some (integer_value (pos id)))
    ∷ ("username", some (string_value username))
    ∷ ("job", some (object_value (job_to_json p j)))
    ∷ []

abbrev pub submission : Platform → ℕ → String → Job → Object
submission p id username j = assign_all (submission_members p id username j) empty_object

-- The request of that user.
abbrev pub submit_request : ℕ → User → Request
submit_request id u = record {
  id = id;
  type = submit_job;
  error_type = success;
  error_message = "";
  user = u;
  request_username = "";
  job_id = "";
  encoded_job_id = "";
}

module _ (p : Platform) (documented : IsDocumented p) (id : ℕ) (username : String) (u : User)
    (j : Job) (in_range : leb id 18446744073709551615 ≡ true) (plain : is_plain username ≡ true)
    (named : (username == "*") ≡ false) (found : p.get_user username ≡ some u) where
  new_request-submission :
      new_request p submit_job (submission p id username j) ≡ submit_request id (new_user false)
  unfolding new_request as_uint64
  new_request-submission =
      rw
        (
          new_request,
          read-assign_all (as_uint64 p.rapid) refl "requestId" (submission_members p id username j)
              {v = integer_value (pos id)} {a = id} refl
              (ap some (documented.get_uint64_in_range id in_range)),
        )
        refl

  new_user_request-submission :
      new_user_request p submit_job (submission p id username j) ≡ submit_request id u
  unfolding new_user_request
  new_user_request-submission =
      let m = submission_members p id username j in
      rw
        (
          new_user_request,
          read-text m "username" username refl,
          read_optional-text m "requestUsername" none refl,
          documented.trim_plain username plain,
          named,
          found,
          new_request-submission,
        )
        refl

  read_job-submission : (t : ℕ) → IsWritable p j → read_job p t (submission p id username j) ≡ inr j
  unfolding read_job as_object
  read_job-submission t w =
      let m = submission_members p id username j in
      rw
        (
          read-assign_all as_object refl "job" m {v = object_value (job_to_json p j)}
              {a = job_to_json p j} refl refl,
          job_from_json-job_to_json p documented t j w,
        )
        refl

  new_submit_job_request-submission :
      (t : ℕ)
      → IsWritable p j
      → new_submit_job_request p t (submission p id username j)
        ≡ (submit_request id u, submitted_job j)
  unfolding new_submit_job_request
  new_submit_job_request-submission t w =
      rw (new_submit_job_request, read_job-submission t w, new_user_request-submission) refl

  -- A job that its JSON can hold, submitted by a user that the system has, is the job of the accepted
  -- request.
  pub from_json-submission :
      (t : ℕ)
      → IsWritable p j
      → from_json p t (submission p id username j) ≡ inr (submit_request id u, submitted_job j)
  unfolding from_json construct accept in_int
  from_json-submission t w =
      let m = submission_members p id username j in
      rw
        (
          from_json,
          read-int m "messageType" p.rapid (pos 2) (documented.get_int_in_range (pos 2) refl) refl,
        )
        (rw (new_submit_job_request-submission t w) refl)
