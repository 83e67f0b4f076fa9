-- ===== src/Api/Stream/ResourceManager.antt =====
-- sdk/src/api/stream/ResourceStreamManager.cpp: the resource streams of jobs. The job source makes a
-- stream for a job and initializes it; its state has the type `S`.
pub mod Life
use rstudio_launcher_plugin.Base.{
  ℕ, Bool, true, false, not, ◌&&◌, Option, none, some, List, [], ◌∷◌, ◌++◌, String, concat,
  string_key, Map, find, insert, erase, if◌then◌else◌,
}
use rstudio_launcher_plugin.Api.User.{User}
use rstudio_launcher_plugin.Api.Job.{Job, running, state_eq, is_completed}
use rstudio_launcher_plugin.Api.Messages.{
  Error, ErrorType, unknown_error, job_not_found, job_not_running, StreamRequest,
}
use rstudio_launcher_plugin.Api.Plugin.{for_user}
use rstudio_launcher_plugin.Jobs.Repository.{Repository, Heap, JobPtr, get_job}
use rstudio_launcher_plugin.Jobs.Notifier.{Notifier, Subscription, subscribe, unsubscribe}
use rstudio_launcher_plugin.Api.Stream.Sequences.{is_empty_stream, on_remove_request}
use rstudio_launcher_plugin.Api.Stream.Resource.{
  ResourceStream, new_resource_stream, add_resource_request, set_stream_complete,
}

-- `createResourceStream`, and the virtual `initialize` of the stream of a job.
pub record ResourceSource (S : Type 0) : Type 0 where
  pub create_resource_stream : JobPtr → S → Option Error × S
  pub initialize : String → S → Option Error × S

-- The struct `ResourceStream`.
pub record ActiveStream (D : Type 0) : Type 0 where
  pub stream : ResourceStream D
  pub sub_handle : Subscription
  pub is_initialized : Bool

-- `ResourceStreamManager::Impl`, the streams that are gone, and the error responses that it sent.
pub record ResourceManager (D S : Type 0) : Type 0 where
  pub active_streams : Map String (ActiveStream D)
  pub notifier : Notifier
  pub source : S
  pub closed : List (ResourceStream D)
  pub errors : List (ℕ × ErrorType × String)

module _ {D S : Type 0} where
  -- An error response.
  unfoldable pub send_resource_error :
      ℕ → ErrorType → String → ResourceManager D S → ResourceManager D S
  send_resource_error id type message m = record m { errors = m.errors ++ (id, type, message) ∷ [] }

  -- The stream of a job goes, and its subscription with it.
  unfoldable pub forget_stream : String → ActiveStream D → ResourceManager D S → ResourceManager D S
  forget_stream job_id a m = record m {
    active_streams = erase job_id m.active_streams;
    notifier = unsubscribe a.sub_handle m.notifier;
    closed = m.closed ++ a.stream ∷ [];
  }

  -- A stream ends and goes.
  unfoldable pub finish_stream : String → ActiveStream D → ResourceManager D S → ResourceManager D S
  unfolding forget_stream
  finish_stream job_id a m =
      forget_stream job_id (record a { stream = set_stream_complete a.stream }) m

  -- What a request does with the stream that its job has.
  unfoldable pub change_stream :
      StreamRequest → ActiveStream D → ResourceManager D S → ResourceManager D S
  unfolding forget_stream
  change_stream q a m =
      if q.is_cancel
      then (let left : ActiveStream D = record a {
        stream = record a.stream { stream = on_remove_request q.id a.stream.stream };
      } in
          if is_empty_stream left.stream.stream
          then forget_stream q.job_id left m
          else record m { active_streams = insert q.job_id left m.active_streams })
      else record m {
        active_streams =
            insert q.job_id (record a { stream = add_resource_request q.id a.stream })
              m.active_streams;
      }

module _ {D S : Type 0} (source : ResourceSource S) where
  -- A new stream gets its first request; what `initialize` returns is not looked at, and
  -- `IsInitialized` stays false.
  unfoldable pub open_resource_stream :
      StreamRequest → Job → ResourceManager D S → ResourceManager D S
  unfolding send_resource_error
  open_resource_stream q j m =
      if q.is_cancel
      then m
      else (if not (state_eq j.status running)
          then send_resource_error q.id job_not_running
              (concat ("Job " ∷ q.job_id ∷ " is not running." ∷ [])) m
          else (let (n, handle) = subscribe q.job_id m.notifier in
              record m {
                active_streams =
                    insert q.job_id
                      (record {
                        stream = add_resource_request q.id new_resource_stream;
                        sub_handle = handle;
                        is_initialized = false;
                      })
                      m.active_streams;
                notifier = n;
                source = (source.initialize q.job_id m.source).1;
              }))

  -- `handleStreamRequest`.
  unfoldable pub handle_resource_request :
      Heap → Repository → StreamRequest → ResourceManager D S → ResourceManager D S
  unfolding send_resource_error change_stream open_resource_stream for_user
  handle_resource_request h r q m = elim (get_job h r q.job_id q.user) [
    | none ↦
        send_resource_error q.id job_not_found
          (concat ("Job " ∷ q.job_id ∷ " could not be found" ∷ for_user q.user ∷ "." ∷ [])) m
    | some p ↦ elim (find q.job_id m.active_streams) [
      | some a ↦ change_stream q a m
      | none ↦
          let (error, src) = source.create_resource_stream p m.source in
          let m' : ResourceManager D S = record m { source = src } in
          elim error [
            | some e ↦ send_resource_error q.id unknown_error e.summary m'
            | none ↦ open_resource_stream q (h p) m'
          ]
    ]
  ]

  -- `watchJob`: what the subscription does with an update of the job.
  unfoldable pub on_watched_update : Job → ResourceManager D S → ResourceManager D S
  unfolding finish_stream
  on_watched_update j m = elim (find j.id m.active_streams) [
    | none ↦ m
    | some a ↦
        if is_completed j
        then finish_stream j.id a m
        else (if state_eq j.status running && not a.is_initialized
            then (let (error, src) = source.initialize j.id m.source in
                let m' : ResourceManager D S = record m { source = src } in
                elim error [
                  | some e ↦ finish_stream j.id a m'
                  | none ↦ record m' {
                    active_streams =
                        insert j.id (record a { is_initialized = true }) m'.active_streams;
                  }
                ])
            else m)
  ]
