-- ===== src/Api/Dispatch.antt =====
-- sdk/src/api/AbstractPluginApi.cpp, sdk/src/comms/AbstractLauncherCommunicator.cpp: a message of the
-- Launcher, from its text to the handler of its request. The stream managers, the repository and the
-- handlers share the notifier and the job source. `reportError` is what was reported; that a
-- communicator then stops reading is I/O.
pub mod Casts
pub mod Messages
pub mod Control
use rstudio_launcher_plugin.Base.{
  ℕ, suc, nat_beq, ◌⊎◌, inl, inr, Bool, true, false, Option, none, some, List, [], ◌∷◌, ◌++◌,
  String, if◌then◌else◌,
}
use rstudio_launcher_plugin.Json.{Object}
use rstudio_launcher_plugin.Api.Platform.{Platform}
use rstudio_launcher_plugin.Api.Job.{Job}
use rstudio_launcher_plugin.Api.Messages.{
  unknown_error, BootstrapRequest, SubmitJobRequest, JobStateRequest, ControlJobRequest,
  JobIdRequest, UserRequest, StreamRequest,
}
use rstudio_launcher_plugin.Api.Plugin.{
  Plugin, JobSource, send_error, handle_bootstrap, handle_submit_job_request,
  handle_get_job_request, handle_control_job_request, handle_get_network_request,
  handle_get_cluster_info,
}
use rstudio_launcher_plugin.Api.Request.{
  RequestError, invalid_request_type, RequestType, heartbeat, bootstrap, submit_job, get_job,
  get_job_status, control_job, get_job_output, get_job_resource_util, get_job_network,
  get_cluster_info, Request, Body, no_body, version, submitted_job, filters, operation,
  output_stream, is_cancel, RequestParseError, unreadable, request_error,
}
use rstudio_launcher_plugin.Api.Request.FromJson.{from_json}
use rstudio_launcher_plugin.Api.Stream.JobStatus.{StreamManager, handle_stream_request}
use rstudio_launcher_plugin.Api.Stream.Output.{
  OutputManager, OutputSource, OutputStreamRequest, handle_output_request,
}
use rstudio_launcher_plugin.Api.Stream.ResourceManager.{
  ResourceManager, ResourceSource, handle_resource_request,
}
use rstudio_launcher_plugin.Jobs.Notifier.{Notifier}
use rstudio_launcher_plugin.Jobs.Repository.{Heap, JobPtr}

-- The error that `onDataReceived` reports, with the message.
pub data Reported : Type 0 where
  malformed not_deserialized invalid_message : List ℕ → Reported

-- `AbstractPluginApi::Impl`, the next free place of the heap and what was reported.
pub record Api (S Network Caps D : Type 0) : Type 0 where
  pub has_job_source : Bool
  pub plugin : Plugin S Network Caps
  pub notifier : Notifier
  pub job_streams : StreamManager
  pub output_streams : OutputManager S
  pub resource_streams : ResourceManager D S
  pub next_job : JobPtr
  pub reported : List Reported

-- The heap with a job at a place.
unfoldable pub store_job : JobPtr → Job → Heap → Heap
store_job p j h q = if nat_beq q p then j else h q

-- Which error is reported: a request was made before it was refused, or not.
unfoldable pub report_of : RequestParseError → List ℕ → Reported
report_of (unreadable e) message = not_deserialized message
report_of (request_error invalid_request_type details) message = not_deserialized message
report_of (request_error e details) message = invalid_message message

module _ {S Network Caps D : Type 0} (p : Platform) (source : JobSource S Network Caps)
    (outputs : OutputSource S) (resources : ResourceSource S) where
  -- The job stream manager, on the notifier that it shares.
  unfoldable pub to_job_streams :
      StreamRequest → Api S Network Caps D → Option (Api S Network Caps D)
  to_job_streams q a =
      elim (handle_stream_request a.plugin.heap a.plugin.pruner.job_repo q
        (record a.job_streams { notifier = a.notifier })) [
          | none ↦ none
          | some m ↦ some (record a { job_streams = m; notifier = m.notifier })
        ]

  -- The output stream manager, on the notifier and the job source that it shares.
  unfoldable pub to_output_streams :
      OutputStreamRequest → Api S Network Caps D → Api S Network Caps D
  to_output_streams q a =
      let shared = record a.output_streams { notifier = a.notifier; source = a.plugin.source } in
      let m = handle_output_request outputs a.plugin.heap a.plugin.pruner.job_repo q shared in
      record a {
        output_streams = m;
        notifier = m.notifier;
        plugin = record a.plugin { source = m.source };
      }

  -- The resource stream manager, likewise.
  unfoldable pub to_resource_streams : StreamRequest → Api S Network Caps D → Api S Network Caps D
  to_resource_streams q a =
      let shared = record a.resource_streams { notifier = a.notifier; source = a.plugin.source } in
      let m = handle_resource_request resources a.plugin.heap a.plugin.pruner.job_repo q shared in
      record a {
        resource_streams = m;
        notifier = m.notifier;
        plugin = record a.plugin { source = m.source };
      }

  -- The submitted job is on the heap before it is handled.
  unfoldable pub submit : Request → Job → Api S Network Caps D → Api S Network Caps D
  unfolding store_job
  submit r j a =
      let stored : Plugin S Network Caps = record a.plugin {
        heap = store_job a.next_job j a.plugin.heap;
      } in
      record a {
        next_job = suc a.next_job;
        plugin =
            handle_submit_job_request p.texts source
              (record { id = r.id; user = r.user; job = a.next_job }) stored;
      }

  unfoldable pub internal_error : Request → Api S Network Caps D → Api S Network Caps D
  internal_error r a = record a {
    plugin =
        send_error p.texts source r.id unknown_error "Internal Request Handling Error." a.plugin;
  }

  -- The switch of `handleRequest`; `none` is a null `JobPtr`. A body of another class than the type's
  -- would be cast to it, and does not occur.
  unfoldable pub dispatch :
      ℕ → RequestType → Body → Request → Api S Network Caps D → Option (Api S Network Caps D)
  unfolding to_job_streams to_output_streams to_resource_streams submit internal_error
  dispatch now heartbeat no_body r a = some a
  dispatch now bootstrap (version major minor patch) r a = some (record a {
    plugin =
        handle_bootstrap p.texts source now
          (record { id = r.id; major = major; minor = minor; patch = patch }) a.plugin;
  })
  dispatch now submit_job (submitted_job j) r a = some (submit r j a)
  dispatch now get_job (filters f) r a = some (record a {
    plugin =
        handle_get_job_request p.texts source
          (record {
            id = r.id;
            user = r.user;
            job_id = r.job_id;
            start_time = f.start_time;
            end_time = f.end_time;
            field_set = f.field_set;
            tag_set = f.tag_set;
            status_set = f.status_set;
          })
          a.plugin;
  })
  dispatch now get_job_status (is_cancel c) r a =
      to_job_streams (record { id = r.id; user = r.user; job_id = r.job_id; is_cancel = c }) a
  dispatch now control_job (operation op) r a = some (record a {
    plugin =
        handle_control_job_request p.texts source
          (record { id = r.id; user = r.user; job_id = r.job_id; operation = op }) a.plugin;
  })
  dispatch now get_job_output (output_stream c t) r a = some (
      to_output_streams
        (record { id = r.id; user = r.user; job_id = r.job_id; is_cancel = c; stream_type = t }) a)
  dispatch now get_job_resource_util (is_cancel c) r a = some (
      to_resource_streams (record { id = r.id; user = r.user; job_id = r.job_id; is_cancel = c }) a)
  dispatch now get_job_network no_body r a = some (record a {
    plugin =
        handle_get_network_request p.texts source
          (record { id = r.id; user = r.user; job_id = r.job_id }) a.plugin;
  })
  dispatch now get_cluster_info no_body r a = some (record a {
    plugin = handle_get_cluster_info p.texts source (record { id = r.id; user = r.user }) a.plugin;
  })
  dispatch now _ _ r a = none

  -- `handleRequest`.
  unfoldable pub handle_request :
      ℕ → Request × Body → Api S Network Caps D → Option (Api S Network Caps D)
  unfolding dispatch internal_error
  handle_request now (r, b) a =
      if a.has_job_source then dispatch now r.type b r a else some (internal_error r a)

  -- What `onDataReceived` does with one message, at a time; `parse` is RapidJSON's parser.
  unfoldable pub receive :
      (List ℕ → Option Object) → ℕ → List ℕ → Api S Network Caps D → Option (Api S Network Caps D)
  unfolding handle_request report_of
  receive parse now message a = elim (parse message) [
    | none ↦ some (record a { reported = a.reported ++ malformed message ∷ [] })
    | some o ↦ elim (from_json p now o) [
      | inl e ↦ some (record a { reported = a.reported ++ report_of e message ∷ [] })
      | inr q ↦ handle_request now q a
    ]
  ]
