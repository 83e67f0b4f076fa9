-- ===== src/Api/Request/Kept.antt =====
-- What a constructor that notes no error keeps of the request that it is given.
use rstudio_launcher_plugin.Base.{ℕ, ◌≡◌, string_key, arith}
use rstudio_launcher_plugin.Json.{Object}
use rstudio_launcher_plugin.Api.Platform.{Platform}
use rstudio_launcher_plugin.Api.Request.{
  success, RequestType, bootstrap, submit_job, get_job, get_job_status, control_job, get_job_output,
  get_job_resource_util, get_job_network, Request, Body, fail,
}
use rstudio_launcher_plugin.Api.Request.Base.{
  new_request, resolve_user, new_user_request, new_job_id_request,
}
use rstudio_launcher_plugin.Api.Request.Classes.{
  new_bootstrap_request, new_submit_job_request, new_job_state_request, new_job_status_request,
  new_control_job_request, new_output_stream_request, new_resource_util_request,
  new_network_request,
}

module _ (p : Platform) where
  -- A class's constructor that notes no error keeps what `JobIdRequest` found.
  pub new_job_id_request_user :
      (type : RequestType) (o : Object)
      → (new_job_id_request p type o).error_type ≡ success
      → ((new_user_request p type o).error_type ≡ success)
        × ((new_job_id_request p type o).user ≡ (new_user_request p type o).user)
  unfolding new_job_id_request fail
  new_job_id_request_user type o h = ground arith

  -- A constructor that notes no error was given a request without one, and leaves its members alone.
  unfoldable pub Keeps : Request × Body → Request → Type 0
  Keeps (r, b) base =
      r.error_type ≡ success
      → (base.error_type ≡ success)
        × (r.user ≡ base.user)
        × (r.job_id ≡ base.job_id)
        × (r.type ≡ base.type)
        × (r.id ≡ base.id)

  pub job_state-Keeps :
      (o : Object) → Keeps (new_job_state_request p o) (new_job_id_request p get_job o)
  unfolding Keeps new_job_state_request fail
  job_state-Keeps o h = ground arith

  pub job_status-Keeps :
      (o : Object) → Keeps (new_job_status_request p o) (new_job_id_request p get_job_status o)
  unfolding Keeps new_job_status_request fail
  job_status-Keeps o h = ground arith

  pub control-Keeps :
      (o : Object) → Keeps (new_control_job_request p o) (new_job_id_request p control_job o)
  unfolding Keeps new_control_job_request fail
  control-Keeps o h = ground arith

  pub output-Keeps :
      (o : Object) → Keeps (new_output_stream_request p o) (new_job_id_request p get_job_output o)
  unfolding Keeps new_output_stream_request fail
  output-Keeps o h = ground arith

  pub resource-Keeps :
      (o : Object)
      → Keeps (new_resource_util_request p o) (new_job_id_request p get_job_resource_util o)
  unfolding Keeps new_resource_util_request fail
  resource-Keeps o h = ground arith

  pub network-Keeps :
      (o : Object) → Keeps (new_network_request p o) (new_job_id_request p get_job_network o)
  unfolding Keeps new_network_request
  network-Keeps o h = ground arith

  pub bootstrap-Keeps : (o : Object) → Keeps (new_bootstrap_request p o) (new_request p bootstrap o)
  unfolding Keeps new_bootstrap_request fail
  bootstrap-Keeps o h = ground arith

  pub submit-Keeps :
      (t : ℕ) (o : Object) → Keeps (new_submit_job_request p t o) (new_user_request p submit_job o)
  unfolding Keeps new_submit_job_request fail
  submit-Keeps t o h = ground arith

  pub new_request-type : (type : RequestType) (o : Object) → (new_request p type o).type ≡ type
  unfolding new_request fail
  new_request-type type o = ground arith

  pub new_user_request-type :
      (type : RequestType) (o : Object) → (new_user_request p type o).type ≡ type
  unfolding new_user_request resolve_user fail
  new_user_request-type type o = ground (arith, new_request-type type o)

  pub new_job_id_request-type :
      (type : RequestType) (o : Object) → (new_job_id_request p type o).type ≡ type
  unfolding new_job_id_request fail
  new_job_id_request-type type o = ground (arith, new_user_request-type type o)
