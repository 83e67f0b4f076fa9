-- ===== src/Api/Request/Controls.antt =====
-- What an accepted request to control a job asks for.
use rstudio_launcher_plugin.Base.{
  ℕ, zero, suc, ◌<◌, ℤ, pos, negsuc, ◌≡◌, refl, ap, subst, ◌∙◌, inl, inr, Bool, Sum-cases, true,
  false, some, List, [], ◌∷◌, string_key, ◌==◌, arith, length,
}
use rstudio_launcher_plugin.Json.{Object}
use rstudio_launcher_plugin.Json.Read.{read, as_string, as_int}
use rstudio_launcher_plugin.Api.Platform.{Platform}
use rstudio_launcher_plugin.Api.Messages.{Operation}
use rstudio_launcher_plugin.Api.Request.{
  success, RequestType, heartbeat, bootstrap, submit_job, get_job, get_job_status, control_job,
  get_job_output, get_job_resource_util, get_job_network, get_cluster_info, Request, Body,
  operation, fail, enumerator, operations,
}
use rstudio_launcher_plugin.Api.Request.Base.{new_job_id_request}
use rstudio_launcher_plugin.Api.Request.Classes.{
  new_bootstrap_request, new_submit_job_request, new_job_state_request, new_job_status_request,
  new_control_job_request, new_output_stream_request, new_resource_util_request,
  new_network_request,
}
use rstudio_launcher_plugin.Api.Request.FromJson.{construct, from_json}
use rstudio_launcher_plugin.Api.Request.Accepted.{from_json-construct}

-- An enumerator's number is below their count.
pub enumerator-lt :
    {A : Type 0} (as' : List A) (i : ℤ) {a : A}
    → enumerator as' i ≡ some a
    → (n : ℕ) × (i ≡ pos n) × (n < length as')
enumerator-lt [] i e = absurd (ground arith)
enumerator-lt (a ∷ rest) (pos zero) e = (zero, refl, omega arith)
enumerator-lt (a ∷ rest) (pos (suc n)) e =
    let (m, same, lt) = enumerator-lt rest (pos n) e in (suc n, refl, ground (arith, same, lt))
enumerator-lt (a ∷ rest) (negsuc n) e = absurd (ground arith)

abbrev is_operation : Body → Bool
is_operation (operation op) = true
is_operation _ = false

module _ (p : Platform) where
  construct-operation :
      (t : ℕ) (type : RequestType) (o : Object) {op : Operation}
      → (construct p t type o).1 ≡ operation op
      → type ≡ control_job
  unfolding construct new_bootstrap_request new_submit_job_request new_job_state_request
      new_job_status_request new_output_stream_request new_resource_util_request new_network_request
  construct-operation t heartbeat o e = absurd (ground arith)
  construct-operation t bootstrap o e = absurd (ground arith)
  construct-operation t submit_job o e = absurd (ground arith)
  construct-operation t get_job o e = absurd (ground arith)
  construct-operation t get_job_status o e = absurd (ground arith)
  construct-operation t control_job o e = refl
  construct-operation t get_job_output o e = absurd (ground arith)
  construct-operation t get_job_resource_util o e = absurd (ground arith)
  construct-operation t get_job_network o e = absurd (ground arith)
  construct-operation t get_cluster_info o e = absurd (ground arith)

  job_id-read :
      (type : RequestType) (o : Object)
      → (new_job_id_request p type o).error_type ≡ success
      → read as_string "jobId" o ≡ inr (new_job_id_request p type o).job_id
  unfolding new_job_id_request fail
  job_id-read type o h = ground arith

  control-success :
      (o : Object) {op : Operation}
      → (new_control_job_request p o).0.error_type ≡ success
      → (new_control_job_request p o).1 ≡ operation op
      → (i : ℤ) × (read (as_int p.rapid) "operation" o ≡ inr i)
        × (enumerator operations i ≡ some op)
        × (((new_control_job_request p o).0.job_id == "*") ≡ false)
        × (read as_string "jobId" o ≡ inr (new_control_job_request p o).0.job_id)
  unfolding new_control_job_request fail
  control-success o h e = elim (Sum-cases (read (as_int p.rapid) "operation" o)) [
    | inl (err, q) ↦ absurd (ground arith)
    | inr (i, q) ↦ (i, q, ground arith, ground arith, ground (arith, job_id-read control_job o))
  ]

  -- An accepted control request names one job, which is not "*", and one of the five operations by its
  -- number.
  pub from_json-operation :
      (t : ℕ) (o : Object) {r : Request} {op : Operation}
      → from_json p t o ≡ inr (r, operation op)
      → (n : ℕ) × (read (as_int p.rapid) "operation" o ≡ inr (pos n))
        × (n < 5)
        × (enumerator operations (pos n) ≡ some op)
        × (read as_string "jobId" o ≡ inr r.job_id)
        × ((r.job_id == "*") ≡ false)
  unfolding construct
  from_json-operation t o {r} {op} h =
      let (i, type, q, q', same, ok) = from_json-construct p t o h in
      let control = construct-operation t type o (ap (λ c. c.1) same) in
      let same' : new_control_job_request p o ≡ (r, operation op) =
        subst (λ x. construct p t x o ≡ (r, operation op)) control same in
      let ok' : (new_control_job_request p o).0.error_type ≡ success =
        subst (λ x. (construct p t x o).0.error_type ≡ success) control ok in
      let (k, k_read, k_op, star, job) = control-success o ok' (ap (λ c. c.1) same') in
      let (n, k_n, lt) = enumerator-lt operations k k_op in
      (
        n,
        k_read ∙ ap inr k_n,
        lt,
        subst (λ x. enumerator operations x ≡ some op) k_n k_op,
        job ∙ ap (λ c. inr c.0.job_id) same',
        subst (λ c. (c.0.job_id == "*") ≡ false) same' star,
      )
