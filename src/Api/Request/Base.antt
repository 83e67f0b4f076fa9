-- ===== src/Api/Request/Base.antt =====
-- sdk/src/api/Request.cpp: the constructors of `Request`, `UserRequest` and `JobIdRequest`.
use rstudio_launcher_plugin.Base.{
  inl, inr, true, false, Option, none, some, [], ◌∷◌, String, concat, string_key, ◌==◌,
  if◌then◌else◌,
}
use rstudio_launcher_plugin.Json.{Object}
use rstudio_launcher_plugin.Json.Read.{read, read_optional, as_string, as_uint64}
use rstudio_launcher_plugin.Api.User.{new_user}
use rstudio_launcher_plugin.Api.Platform.{Platform}
use rstudio_launcher_plugin.Api.Parse.{get_or}
use rstudio_launcher_plugin.Api.Request.{
  success, invalid_request, invalid_user, RequestType, Request, fail,
}

module _ (p : Platform) where
  -- The constructor of `Request`.
  unfoldable pub new_request : RequestType → Object → Request
  new_request type o =
      let blank : Request = record {
        id = 0;
        type = type;
        error_type = success;
        error_message = "";
        user = new_user false;
        request_username = "";
        job_id = "";
        encoded_job_id = "";
      } in
      elim (read (as_uint64 p.rapid) "requestId" o) [
        | inl e ↦ fail invalid_request blank
        | inr id ↦ record blank { id = id }
      ]

  -- The users of a request whose names were read.
  unfoldable pub resolve_user : String → Option String → Request → Request
  resolve_user real_username request_username r =
      let name = p.texts.trim_copy real_username in
      if name == "*"
      then record r { request_username = get_or request_username "" }
      else elim (p.get_user name) [
        | none ↦ record r {
          user = new_user true;
          error_type = invalid_user;
          error_message = concat ("Could not find details for user \"" ∷ name ∷ "\"" ∷ []);
        }
        | some u ↦ record r { user = u; request_username = get_or request_username "" }
      ]

  -- The constructor of `UserRequest`.
  unfoldable pub new_user_request : RequestType → Object → Request
  unfolding new_request resolve_user fail
  new_user_request type o =
      let r = new_request type o in
      elim (read as_string "username" o) [
        | inl e ↦ fail invalid_request r
        | inr real_username ↦ elim (read_optional as_string "requestUsername" o) [
          | inl e ↦ fail invalid_request r
          | inr request_username ↦ resolve_user real_username request_username r
        ]
      ]

  -- The constructor of `JobIdRequest`.
  unfoldable pub new_job_id_request : RequestType → Object → Request
  unfolding new_user_request fail
  new_job_id_request type o =
      let r = new_user_request type o in
      elim (read as_string "jobId" o) [
        | inl e ↦ fail invalid_request r
        | inr job_id ↦ elim (read_optional as_string "encodedJobId" o) [
          | inl e ↦ fail invalid_request (record r { job_id = job_id })
          | inr encoded ↦ record r { job_id = job_id; encoded_job_id = get_or encoded "" }
        ]
      ]
