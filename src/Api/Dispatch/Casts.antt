-- ===== src/Api/Dispatch/Casts.antt =====
-- The class of an accepted request is that of its type, so that the casts of `handleRequest` are sound.
use rstudio_launcher_plugin.Base.{
  ℕ, ℤ, ◌≡◌, refl, sym, subst, inr, Bool, true, false, string_key, arith,
}
use rstudio_launcher_plugin.Json.{Object}
use rstudio_launcher_plugin.Api.Platform.{Platform}
use rstudio_launcher_plugin.Api.Job.{Job}
use rstudio_launcher_plugin.Api.Messages.{Operation}
use rstudio_launcher_plugin.Api.Stream.Output.{OutputType}
use rstudio_launcher_plugin.Api.Request.{
  success, RequestType, heartbeat, bootstrap, submit_job, get_job, get_job_status, control_job,
  get_job_output, get_job_resource_util, get_job_network, get_cluster_info, Request, JobFilters,
  Body, no_body, version, submitted_job, filters, operation, output_stream, is_cancel, fail,
}
use rstudio_launcher_plugin.Api.Request.Classes.{
  new_bootstrap_request, new_submit_job_request, new_job_state_request, new_job_status_request,
  new_control_job_request, new_output_stream_request, new_resource_util_request,
  new_network_request,
}
use rstudio_launcher_plugin.Api.Request.FromJson.{construct, from_json}
use rstudio_launcher_plugin.Api.Request.Accepted.{from_json-construct, construct-type}

-- The members that a request of a type has.
pub data IsCast : RequestType → Body → Type 0 where
  heartbeat_cast : IsCast heartbeat no_body
  bootstrap_cast : {a b c : ℤ} → IsCast bootstrap (version a b c)
  submit_cast : {j : Job} → IsCast submit_job (submitted_job j)
  get_cast : {f : JobFilters} → IsCast get_job (filters f)
  status_cast : {c : Bool} → IsCast get_job_status (is_cancel c)
  control_cast : {op : Operation} → IsCast control_job (operation op)
  output_cast : {c : Bool} {t : OutputType} → IsCast get_job_output (output_stream c t)
  resource_cast : {c : Bool} → IsCast get_job_resource_util (is_cancel c)
  network_cast : IsCast get_job_network no_body
  cluster_cast : IsCast get_cluster_info no_body

is_cast : RequestType → Body → Bool
is_cast heartbeat no_body = true
is_cast bootstrap (version a b c) = true
is_cast submit_job (submitted_job j) = true
is_cast get_job (filters f) = true
is_cast get_job_status (is_cancel c) = true
is_cast control_job (operation op) = true
is_cast get_job_output (output_stream c t) = true
is_cast get_job_resource_util (is_cancel c) = true
is_cast get_job_network no_body = true
is_cast get_cluster_info no_body = true
is_cast _ _ = false

is_cast-IsCast : (t : RequestType) (b : Body) → is_cast t b ≡ true → IsCast t b
unfolding is_cast
is_cast-IsCast heartbeat no_body h = heartbeat_cast
is_cast-IsCast bootstrap (version a b c) h = bootstrap_cast
is_cast-IsCast submit_job (submitted_job j) h = submit_cast
is_cast-IsCast get_job (filters f) h = get_cast
is_cast-IsCast get_job_status (is_cancel c) h = status_cast
is_cast-IsCast control_job (operation op) h = control_cast
is_cast-IsCast get_job_output (output_stream c t) h = output_cast
is_cast-IsCast get_job_resource_util (is_cancel c) h = resource_cast
is_cast-IsCast get_job_network no_body h = network_cast
is_cast-IsCast get_cluster_info no_body h = cluster_cast
is_cast-IsCast _ _ h = absurd (ground arith)

module _ (p : Platform) where
  construct-is_cast :
      (t : ℕ) (type : RequestType) (o : Object)
      → (construct p t type o).0.error_type ≡ success
      → is_cast type (construct p t type o).1 ≡ true
  unfolding construct is_cast fail new_bootstrap_request new_submit_job_request
      new_job_state_request new_job_status_request new_control_job_request new_output_stream_request
      new_resource_util_request new_network_request
  construct-is_cast t heartbeat o h = refl
  construct-is_cast t bootstrap o h = ground arith
  construct-is_cast t submit_job o h = ground arith
  construct-is_cast t get_job o h = ground arith
  construct-is_cast t get_job_status o h = ground arith
  construct-is_cast t control_job o h = ground arith
  construct-is_cast t get_job_output o h = ground arith
  construct-is_cast t get_job_resource_util o h = ground arith
  construct-is_cast t get_job_network o h = ground arith
  construct-is_cast t get_cluster_info o h = refl

  -- An accepted request has the members of the class of its type.
  pub from_json-IsCast :
      (t : ℕ) (o : Object) {r : Request} {b : Body} → from_json p t o ≡ inr (r, b) → IsCast r.type b
  from_json-IsCast t o h =
      let (i, type, q, q', same, ok) = from_json-construct p t o h in
      let fits = is_cast-IsCast type (construct p t type o).1 (construct-is_cast t type o ok) in
      subst (λ x. IsCast x.0.type x.1) same
        (subst (λ x. IsCast x (construct p t type o).1) (sym (construct-type p t type o ok)) fits)
