-- ===== src/Api/Request/FromJson.antt =====
-- sdk/src/api/Request.cpp: `Request::fromJson`.
use rstudio_launcher_plugin.Base.{
  ℕ, ◌⊎◌, inl, inr, none, some, [], ◌∷◌, String, concat, string_key, ◌==◌, if◌then◌else◌,
}
use rstudio_launcher_plugin.Json.{Object, object_value}
use rstudio_launcher_plugin.Json.Read.{read, as_int}
use rstudio_launcher_plugin.Api.Platform.{Platform}
use rstudio_launcher_plugin.Api.Request.{
  success, invalid_request_type, RequestType, heartbeat, bootstrap, submit_job, get_job,
  get_job_status, control_job, get_job_output, get_job_resource_util, get_job_network,
  get_cluster_info, Request, Body, no_body, RequestParseError, unreadable, request_error,
  enumerator, request_types,
}
use rstudio_launcher_plugin.Api.Request.Base.{new_request, new_user_request}
use rstudio_launcher_plugin.Api.Request.Classes.{
  new_bootstrap_request, new_submit_job_request, new_job_state_request, new_job_status_request,
  new_control_job_request, new_output_stream_request, new_resource_util_request,
  new_network_request,
}

module _ (p : Platform) where
  -- The request of a type, constructed.
  unfoldable pub construct : ℕ → RequestType → Object → Request × Body
  construct no_time heartbeat o = (new_request p heartbeat o, no_body)
  construct no_time bootstrap o = new_bootstrap_request p o
  construct no_time submit_job o = new_submit_job_request p no_time o
  construct no_time get_job o = new_job_state_request p o
  construct no_time get_job_status o = new_job_status_request p o
  construct no_time control_job o = new_control_job_request p o
  construct no_time get_job_output o = new_output_stream_request p o
  construct no_time get_job_resource_util o = new_resource_util_request p o
  construct no_time get_job_network o = new_network_request p o
  construct no_time get_cluster_info o = (new_user_request p get_cluster_info o, no_body)

  -- The details of a refusal; the condition of the source is the other way round than it seems meant.
  unfoldable pub details : Request → Object → String
  details r o = concat (
      (if r.error_message == "" then concat (r.error_message ∷ ": " ∷ []) else "")
      ∷ p.rapid.write_formatted (object_value o)
      ∷ [])

  -- A constructed request is given if no constructor noted an error.
  unfoldable pub accept : Object → Request × Body → RequestParseError ⊎ (Request × Body)
  unfolding details
  accept o (r, b) = elim r.error_type [
    | success ↦ inr (r, b)
    | e ↦ inl (request_error e (details r o))
  ]

  -- `Request::fromJson`.
  unfoldable pub from_json : ℕ → Object → RequestParseError ⊎ (Request × Body)
  unfolding construct accept
  from_json no_time o = elim (read (as_int p.rapid) "messageType" o) [
    | inl e ↦ inl (unreadable e)
    | inr i ↦ elim (enumerator request_types i) [
      | none ↦ inl (request_error invalid_request_type (p.texts.to_string i))
      | some type ↦ accept o (construct no_time type o)
    ]
  ]
