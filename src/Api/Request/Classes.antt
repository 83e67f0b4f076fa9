-- ===== src/Api/Request/Classes.antt =====
-- sdk/src/api/Request.cpp: the constructors of the classes of requests.
use rstudio_launcher_plugin.Base.{
  ℕ, inl, inr, false, none, some, [], ◌∷◌, concat, string_key, ◌==◌, if◌then◌else◌,
}
use rstudio_launcher_plugin.Json.{Object}
use rstudio_launcher_plugin.Json.Read.{
  read, read_optional, read_optional_set, as_string, as_bool, as_int, as_object, insert_element,
}
use rstudio_launcher_plugin.Api.Platform.{Platform}
use rstudio_launcher_plugin.Api.Parse.{Result, ◌>>=◌, lift, get_or}
use rstudio_launcher_plugin.Api.Job.{Job}
use rstudio_launcher_plugin.Api.Job.FromJson.{job_from_json}
use rstudio_launcher_plugin.Api.Messages.{suspend}
use rstudio_launcher_plugin.Api.Stream.Output.{both}
use rstudio_launcher_plugin.Api.Request.{
  invalid_request, bootstrap, submit_job, get_job, get_job_status, control_job, get_job_output,
  get_job_resource_util, get_job_network, Request, JobFilters, Body, no_body, version,
  submitted_job, filters, operation, output_stream, is_cancel, fail, enumerator, operations,
  output_types, Version,
}
use rstudio_launcher_plugin.Api.Request.Base.{new_request, new_user_request, new_job_id_request}

module _ (p : Platform) where
  unfoldable pub read_version : Object → Result Version
  read_version o = do
    numbers ← lift (read as_object "version" o)
    major ← lift (read (as_int p.rapid) "major" numbers)
    minor ← lift (read (as_int p.rapid) "minor" numbers)
    patch ← lift (read (as_int p.rapid) "patch" numbers)
    inr (major, minor, patch)

  -- The constructor of `BootstrapRequest`; a refused request has no body here, as nothing reads it.
  unfoldable pub new_bootstrap_request : Object → Request × Body
  unfolding new_request fail read_version
  new_bootstrap_request o =
      let r = new_request p bootstrap o in
      elim (read_version o) [
        | inl e ↦ (fail invalid_request r, no_body)
        | inr (major, minor, patch) ↦ (r, version major minor patch)
      ]

  unfoldable pub read_job : ℕ → Object → Result Job
  read_job no_time o = lift (read as_object "job" o) >>= job_from_json p no_time

  -- The constructor of `SubmitJobRequest`.
  unfoldable pub new_submit_job_request : ℕ → Object → Request × Body
  unfolding new_user_request fail read_job
  new_submit_job_request no_time o =
      let r = new_user_request p submit_job o in
      elim (read_job no_time o) [
        | inl e ↦ (fail invalid_request r, no_body)
        | inr j ↦ (r, submitted_job j)
      ]

  unfoldable pub read_filters : Object → Result JobFilters
  read_filters o = do
    end_time ← lift (read_optional as_string "endTime" o)
    field_set ← lift (read_optional_set "fields" o)
    start_time ← lift (read_optional as_string "startTime" o)
    status_set ← lift (read_optional_set "statuses" o)
    tag_set ← lift (read_optional_set "tags" o)
    inr (record {
      end_time = end_time;
      field_set = field_set;
      start_time = start_time;
      status_set = status_set;
      tag_set = tag_set;
    })

  -- The field "id" is always asked for.
  unfoldable pub with_id : JobFilters → JobFilters
  with_id f = record f {
    field_set = elim f.field_set [ none ↦ none | some s ↦ some (insert_element "id" s) ];
  }

  -- The constructor of `JobStateRequest`.
  unfoldable pub new_job_state_request : Object → Request × Body
  unfolding new_job_id_request fail read_filters with_id
  new_job_state_request o =
      let r = new_job_id_request p get_job o in
      elim (read_filters o) [
        | inl e ↦ (fail invalid_request r, no_body)
        | inr f ↦ (r, filters (with_id f))
      ]

  -- The constructor of `JobStatusRequest`.
  unfoldable pub new_job_status_request : Object → Request × Body
  unfolding new_job_id_request fail
  new_job_status_request o =
      let r = new_job_id_request p get_job_status o in
      elim (read_optional as_bool "cancel" o) [
        | inl e ↦ (fail invalid_request r, is_cancel false)
        | inr cancels ↦ (r, is_cancel (get_or cancels false))
      ]

  -- The constructor of `ControlJobRequest`.
  unfoldable pub new_control_job_request : Object → Request × Body
  unfolding new_job_id_request fail
  new_control_job_request o =
      let r = new_job_id_request p control_job o in
      if r.job_id == "*"
      then (
        record r {
          error_type = invalid_request;
          error_message = "Cannot control all jobs simultaneously. Please specify a single Job ID.";
        },
        operation suspend,
      )
      else elim (read (as_int p.rapid) "operation" o) [
        | inl e ↦ (fail invalid_request r, operation suspend)
        | inr i ↦ elim (enumerator operations i) [
          | none ↦ (
            record r {
              error_type = invalid_request;
              error_message = concat (
                  "Unknown control job operation ("
                  ∷ p.texts.to_string i
                  ∷ ") for job "
                  ∷ r.job_id
                  ∷ []);
            },
            operation suspend,
          )
          | some op ↦ (r, operation op)
        ]
      ]

  -- The constructor of `OutputStreamRequest`.
  unfoldable pub new_output_stream_request : Object → Request × Body
  unfolding new_job_id_request fail
  new_output_stream_request o =
      let r = new_job_id_request p get_job_output o in
      elim (read as_bool "cancel" o) [
        | inl e ↦ (fail invalid_request r, output_stream false both)
        | inr cancels ↦ elim (read_optional (as_int p.rapid) "outputType" o) [
          | inl e ↦ (fail invalid_request r, output_stream cancels both)
          | inr none ↦ (r, output_stream cancels both)
          | inr (some i) ↦ elim (enumerator output_types i) [
            | none ↦ (
              record r {
                error_type = invalid_request;
                error_message =
                    concat
                      ("Invalid value for " ∷ "outputType" ∷ " (" ∷ p.texts.to_string i ∷ ")" ∷ []);
              },
              output_stream cancels both,
            )
            | some t ↦ (r, output_stream cancels t)
          ]
        ]
      ]

  -- The constructor of `ResourceUtilStreamRequest`.
  unfoldable pub new_resource_util_request : Object → Request × Body
  unfolding new_job_id_request fail
  new_resource_util_request o =
      let r = new_job_id_request p get_job_resource_util o in
      elim (read as_bool "cancel" o) [
        | inl e ↦ (fail invalid_request r, is_cancel false)
        | inr cancels ↦ (r, is_cancel cancels)
      ]

  -- The constructor of `NetworkRequest`.
  unfoldable pub new_network_request : Object → Request × Body
  unfolding new_job_id_request
  new_network_request o =
      let r = new_job_id_request p get_job_network o in
      if r.job_id == "*"
      then (
        record r {
          error_type = invalid_request;
          error_message =
              "Cannot retrieve network information for all jobs. Please specify a single Job ID.";
        },
        no_body,
      )
      else (r, no_body)
