-- ===== src/Api/Plugin/Answers.antt =====
-- Which responses the handlers send.
use rstudio_launcher_plugin.Base.{
  ℕ, ◌≡◌, refl, inl, inr, false, none, some, [], ◌∷◌, ◌++◌, Bool-cases, Option-cases, Sum-cases,
  string_key,
}
use rstudio_launcher_plugin.Api.User.{is_empty}
use rstudio_launcher_plugin.Api.Platform.{TextAlgorithms}
use rstudio_launcher_plugin.Api.Job.{State, state_eq, running, suspended, pending}
use rstudio_launcher_plugin.Api.Messages.{
  BootstrapRequest, SubmitJobRequest, JobStateRequest, ControlJobRequest, JobIdRequest, UserRequest,
  Response, response_id, ErrorType, unknown_error, job_not_found, invalid_job_state, Operation,
  suspend, resume, stop, kill, cancel, invalid_operation,
}
use rstudio_launcher_plugin.Jobs.Repository.{JobPtr, Heap, get_job}
use rstudio_launcher_plugin.Api.Plugin.{
  Plugin, JobSource, Control, send, send_error, handle_bootstrap, handle_submit_job_request,
  handle_get_job_request, handle_get_network_request, handle_get_cluster_info, set_user,
  requested_jobs, initialize_repository, int_beq, api_version_major,
}
use rstudio_launcher_plugin.Api.Queries.{get_time, get_status_set}

-- One response was sent, for the request of this ID.
abbrev pub Answers :
    {S Network Caps : Type 0} → ℕ → Plugin S Network Caps → Plugin S Network Caps → Type 0
Answers {Network = Network} {Caps = Caps} id s s' =
    (r : Response Network Caps) × (s'.sent ≡ s.sent ++ r ∷ []) × (response_id r ≡ id)

module _ {S Network Caps : Type 0} (t : TextAlgorithms) (source : JobSource S Network Caps) where
  repository_sent :
      (now : ℕ) (s : Plugin S Network Caps) → (initialize_repository t source now s).1.sent ≡ s.sent
  unfolding initialize_repository
  repository_sent now s = elim (Option-cases (source.on_initialize s.source).0) [
    | inr (e, p) ↦ rw (initialize_repository, p) refl
    | inl p ↦ elim (Sum-cases (source.load_jobs (source.on_initialize s.source).1 s.heap).0) [
      | inl (e, q) ↦ rw (initialize_repository, p, q) refl
      | inr (ps, q) ↦ rw (initialize_repository, p, q) refl
    ]
  ]

  bootstrap-Answers :
      (now : ℕ) (r : BootstrapRequest) (s : Plugin S Network Caps)
      → Answers r.id s (handle_bootstrap t source now r s)
  unfolding handle_bootstrap send_error send response_id
  bootstrap-Answers now r s = elim (Bool-cases (int_beq r.major api_version_major)) [
    | inr v ↦ rw (handle_bootstrap, v) (_, refl, refl)
    | inl v ↦ elim (Option-cases (source.initialize s.source).0) [
      | inr (e, p) ↦ rw (handle_bootstrap, v, p) (_, refl, refl)
      | inl p ↦
          let s' : Plugin S Network Caps = record s { source = (source.initialize s.source).1 } in
          elim (Option-cases (initialize_repository t source now s').0) [
            | inl q ↦ rw (handle_bootstrap, v, p, q, repository_sent now s') (_, refl, refl)
            | inr (e, q) ↦ rw (handle_bootstrap, v, p, q, repository_sent now s') (_, refl, refl)
          ]
    ]
  ]

  submit-Answers :
      (r : SubmitJobRequest) (s : Plugin S Network Caps)
      → Answers r.id s (handle_submit_job_request t source r s)
  unfolding handle_submit_job_request send_error send response_id
  submit-Answers r s = elim (Bool-cases (is_empty (set_user t source r s.heap r.job).user)) [
    | inl e ↦ rw (handle_submit_job_request, e) (_, refl, refl)
    | inr e ↦
        elim (Option-cases (source.submit_job r.job (set_user t source r s.heap) s.source).0.0) [
          | inl f ↦ rw (handle_submit_job_request, e, f) (_, refl, refl)
          | inr (x, f) ↦ rw (handle_submit_job_request, e, f) (_, refl, refl)
        ]
  ]

  get_job-Answers :
      (r : JobStateRequest) (s : Plugin S Network Caps)
      → Answers r.id s (handle_get_job_request t source r s)
  unfolding handle_get_job_request send_error send response_id
  get_job-Answers r s = elim (Option-cases (get_time t r.start_time)) [
    | inl e ↦ rw (handle_get_job_request, e) (_, refl, refl)
    | inr (from, e) ↦ elim (Option-cases (get_time t r.end_time)) [
      | inl f ↦ rw (handle_get_job_request, e, f) (_, refl, refl)
      | inr (to, f) ↦ elim (Sum-cases (get_status_set t r.status_set)) [
        | inl (m, g) ↦ rw (handle_get_job_request, e, f, g) (_, refl, refl)
        | inr (statuses, g) ↦
            elim (Option-cases (
              requested_jobs t source r
                (record { from = from; to = to; tags = r.tag_set; statuses = statuses }) s)) [
                  | inl h ↦ rw (handle_get_job_request, e, f, g, h) (_, refl, refl)
                  | inr (ps, h) ↦ rw (handle_get_job_request, e, f, g, h) (_, refl, refl)
                ]
      ]
    ]
  ]

  network-Answers :
      (r : JobIdRequest) (s : Plugin S Network Caps)
      → Answers r.id s (handle_get_network_request t source r s)
  unfolding handle_get_network_request send_error send response_id
  network-Answers r s = elim (Option-cases (get_job s.heap s.pruner.job_repo r.job_id r.user)) [
    | inl e ↦ rw (handle_get_network_request, e) (_, refl, refl)
    | inr (p, e) ↦ elim (Sum-cases (source.get_network_info p s.heap s.source)) [
      | inl (x, f) ↦ rw (handle_get_network_request, e, f) (_, refl, refl)
      | inr (x, f) ↦ rw (handle_get_network_request, e, f) (_, refl, refl)
    ]
  ]

  cluster-Answers :
      (r : UserRequest) (s : Plugin S Network Caps)
      → Answers r.id s (handle_get_cluster_info t source r s)
  unfolding handle_get_cluster_info send_error send response_id
  cluster-Answers r s = elim (Sum-cases (source.get_configuration r.user s.source)) [
    | inl (x, f) ↦ rw (handle_get_cluster_info, f) (_, refl, refl)
    | inr (x, f) ↦ rw (handle_get_cluster_info, f) (_, refl, refl)
  ]

  -- Each of these five handlers sends exactly one response, on every path, and it carries the ID of
  -- the request.
  pub handlers-Answers :
      (now : ℕ) (b : BootstrapRequest) (j : SubmitJobRequest) (g : JobStateRequest)
      (n : JobIdRequest) (u : UserRequest) (s : Plugin S Network Caps)
      → Answers b.id s (handle_bootstrap t source now b s)
        × Answers j.id s (handle_submit_job_request t source j s)
        × Answers g.id s (handle_get_job_request t source g s)
        × Answers n.id s (handle_get_network_request t source n s)
        × Answers u.id s (handle_get_cluster_info t source u s)
  handlers-Answers now b j g n u s = (
    bootstrap-Answers now b s,
    submit-Answers j s,
    get_job-Answers g s,
    network-Answers n s,
    cluster-Answers u s,
  )

  -- The operations, each with the status that a job must have for it and the method of the job source
  -- that it calls.
  pub data Calls : Operation → State → (JobPtr → Heap → S → Control S) → Type 0 where
    kills : Calls kill running (λ p. source.kill_job p)
    suspends : Calls suspend running (λ p. source.suspend_job p)
    resumes : Calls resume suspended (λ p. source.resume_job p)
    stops : Calls stop running (λ p. source.stop_job p)
    cancels : Calls cancel pending (λ p. source.cancel_job p)

  -- Why a control request is refused, and the type of the error.
  pub data Refused (r : ControlJobRequest) (s : Plugin S Network Caps) : ErrorType → Type 0 where
    not_found : get_job s.heap s.pruner.job_repo r.job_id r.user ≡ none → Refused r s job_not_found
    unrecognized : r.operation ≡ invalid_operation → Refused r s unknown_error
    wrong_status :
        {p : JobPtr} {status : State} {method : JobPtr → Heap → S → Control S}
        → get_job s.heap s.pruner.job_repo r.job_id r.user ≡ some p
        → Calls r.operation status method
        → state_eq (s.heap p).status status ≡ false
        → Refused r s invalid_job_state
