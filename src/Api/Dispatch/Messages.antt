-- ===== src/Api/Dispatch/Messages.antt =====
-- The messages that reach the plugin, one after the other.
use rstudio_launcher_plugin.Base.{
  ℕ, ◌≡◌, refl, inl, inr, Bool, Option-cases, Sum-cases, true, false, Option, none, some, List, [],
  ◌∷◌, if◌then◌else◌,
}
use rstudio_launcher_plugin.Json.{Object}
use rstudio_launcher_plugin.Api.Platform.{Platform}
use rstudio_launcher_plugin.Api.Messages.{StreamRequest}
use rstudio_launcher_plugin.Api.Plugin.{JobSource}
use rstudio_launcher_plugin.Api.Request.{RequestType, Request, Body}
use rstudio_launcher_plugin.Api.Request.FromJson.{from_json}
use rstudio_launcher_plugin.Api.Stream.JobStatus.Cleanup.{IsTidy, handle_stream_request-IsTidy}
use rstudio_launcher_plugin.Api.Stream.Output.{OutputSource}
use rstudio_launcher_plugin.Api.Stream.ResourceManager.{ResourceSource}
use rstudio_launcher_plugin.Api.Dispatch.{Api, to_job_streams, dispatch, handle_request, receive}
use rstudio_launcher_plugin.Api.Dispatch.Casts.{
  IsCast, heartbeat_cast, bootstrap_cast, submit_cast, get_cast, status_cast, control_cast,
  output_cast, resource_cast, network_cast, cluster_cast, from_json-IsCast,
}

module _ {S Network Caps D : Type 0} (p : Platform) (source : JobSource S Network Caps)
    (outputs : OutputSource S) (resources : ResourceSource S) where
  -- The plugin goes on, and its job status streams are tidy.
  GoesOn : Option (Api S Network Caps D) → Type 0
  GoesOn o = (a : Api S Network Caps D) × (o ≡ some a) × IsTidy a.job_streams

  to_job_streams-GoesOn :
      (q : StreamRequest) (a : Api S Network Caps D)
      → IsTidy a.job_streams
      → GoesOn (to_job_streams p source outputs resources q a)
  unfolding to_job_streams GoesOn
  to_job_streams-GoesOn q a tidy =
      let (m, e, tidy') =
        handle_stream_request-IsTidy a.plugin.heap a.plugin.pruner.job_repo q
          (record a.job_streams { notifier = a.notifier })
          (record { all_jobs = tidy.all_jobs; single_jobs = tidy.single_jobs }) in
      rw (to_job_streams, e) (_, refl, tidy')

  dispatch-GoesOn :
      (now : ℕ) {type : RequestType} {b : Body} (r : Request) (a : Api S Network Caps D)
      → IsCast type b
      → IsTidy a.job_streams
      → GoesOn (dispatch p source outputs resources now type b r a)
  unfolding dispatch GoesOn
  dispatch-GoesOn now r a heartbeat_cast tidy = (_, refl, tidy)
  dispatch-GoesOn now r a bootstrap_cast tidy = (_, refl, tidy)
  dispatch-GoesOn now r a submit_cast tidy = (_, refl, tidy)
  dispatch-GoesOn now r a get_cast tidy = (_, refl, tidy)
  dispatch-GoesOn now r a status_cast tidy = to_job_streams-GoesOn _ a tidy
  dispatch-GoesOn now r a control_cast tidy = (_, refl, tidy)
  dispatch-GoesOn now r a output_cast tidy = (_, refl, tidy)
  dispatch-GoesOn now r a resource_cast tidy = (_, refl, tidy)
  dispatch-GoesOn now r a network_cast tidy = (_, refl, tidy)
  dispatch-GoesOn now r a cluster_cast tidy = (_, refl, tidy)

  if_GoesOn :
      (c : Bool) (x y : Option (Api S Network Caps D))
      → GoesOn x
      → GoesOn y
      → GoesOn (if c then x else y)
  if_GoesOn true x y h k = h
  if_GoesOn false x y h k = k

  handle_request-GoesOn :
      (now : ℕ) (r : Request) (b : Body) (a : Api S Network Caps D)
      → IsCast r.type b
      → IsTidy a.job_streams
      → GoesOn (handle_request p source outputs resources now (r, b) a)
  unfolding handle_request GoesOn
  handle_request-GoesOn now r b a cast tidy =
      if_GoesOn a.has_job_source _ _ (dispatch-GoesOn now r a cast tidy) (_, refl, tidy)

  receive-GoesOn :
      (parse : List ℕ → Option Object) (now : ℕ) (message : List ℕ) (a : Api S Network Caps D)
      → IsTidy a.job_streams
      → GoesOn (receive p source outputs resources parse now message a)
  unfolding receive GoesOn
  receive-GoesOn parse now message a tidy = elim (Option-cases (parse message)) [
    | inl e ↦ rw (receive, e) (_, refl, tidy)
    | inr (o, e) ↦ elim (Sum-cases (from_json p now o)) [
      | inl (refused, f) ↦ rw (receive, e, f) (_, refl, tidy)
      | inr ((r, b), f) ↦
          rw (receive, e, f) (handle_request-GoesOn now r b a (from_json-IsCast p now o f) tidy)
    ]
  ]

  -- The loop of `onDataReceived` over the messages of its reads, each at its time.
  unfoldable pub receive_all :
      (List ℕ → Option Object)
      → List (ℕ × List ℕ)
      → Api S Network Caps D
      → Option (Api S Network Caps D)
  receive_all parse [] a = some a
  receive_all parse ((now, message) ∷ rest) a =
      elim (receive p source outputs resources parse now message a) [
        | none ↦ none
        | some a' ↦ receive_all parse rest a'
      ]

  -- Whatever messages come, and whatever they hold, a plugin whose job status streams are tidy handles
  -- them all, without a cast to a wrong class or a null job, and its streams stay tidy.
  pub receive_all-IsTidy :
      (parse : List ℕ → Option Object) (messages : List (ℕ × List ℕ)) (a : Api S Network Caps D)
      → IsTidy a.job_streams
      → (a' : Api S Network Caps D) × (receive_all parse messages a ≡ some a')
        × IsTidy a'.job_streams
  unfolding receive_all GoesOn
  receive_all-IsTidy parse [] a tidy = (a, refl, tidy)
  receive_all-IsTidy parse ((now, message) ∷ rest) a tidy =
      let (b, e, tidy') = receive-GoesOn parse now message a tidy in
      rw (receive_all, e) (receive_all-IsTidy parse rest b tidy')
