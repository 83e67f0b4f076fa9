-- ===== src/Api/Stream/Output.antt =====
-- sdk/src/api/stream/OutputStreamManager.cpp: the streams of jobs' output. A stream is made by the
-- job source, whose state has the type `S`; the stream's own state is part of it.
pub mod Callbacks
pub mod Ending
use rstudio_launcher_plugin.Base.{
  ℕ, Bool, true, false, not, ◌&&◌, Option, none, some, List, [], ◌∷◌, ◌++◌, String, concat,
  string_key, nat_key, Map, find, insert, erase, if◌then◌else◌,
}
use rstudio_launcher_plugin.Api.User.{User}
use rstudio_launcher_plugin.Api.Job.{Job, State, pending, state_eq, is_completed}
use rstudio_launcher_plugin.Api.Messages.{Error, ErrorType, job_not_found, job_output_not_found}
use rstudio_launcher_plugin.Api.Plugin.{for_user}
use rstudio_launcher_plugin.Jobs.Repository.{Repository, Heap, JobPtr, get_job}
use rstudio_launcher_plugin.Jobs.Notifier.{Notifier, Subscription, subscribe, unsubscribe}

-- `OutputType`.
pub data OutputType : Type 0 where
  stdout stderr both : OutputType

pub record OutputStreamRequest : Type 0 where
  pub id : ℕ
  pub user : User
  pub job_id : String
  pub is_cancel : Bool
  pub stream_type : OutputType

-- `createOutputStream` gives an error and whether it gave a stream; `start` and `stop` are the
-- methods of the stream of a request.
pub record OutputSource (S : Type 0) : Type 0 where
  pub create_output_stream : ℕ → OutputType → JobPtr → S → (Option Error × Bool) × S
  pub start : ℕ → S → Option Error × S
  pub stop : ℕ → S → S

-- `OutputStream`.
pub record OutputStream : Type 0 where
  pub handle : Subscription
  pub is_started : Bool

pub data OutputResponse : Type 0 where
  output : ℕ → ℕ → String → OutputType → OutputResponse
  complete : ℕ → ℕ → OutputResponse
  failure : ℕ → ErrorType → String → OutputResponse

-- `OutputStreamManager::Impl`, and what it has sent.
pub record OutputManager (S : Type 0) : Type 0 where
  pub active_output_streams : Map ℕ OutputStream
  pub notifier : Notifier
  pub source : S
  pub sent : List OutputResponse

module _ {S : Type 0} where
  unfoldable pub send_output : OutputResponse → OutputManager S → OutputManager S
  send_output r m = record m { sent = m.sent ++ r ∷ [] }

  -- The stream of a request goes, and its subscription with it.
  unfoldable pub erase_stream : ℕ → OutputManager S → OutputManager S
  erase_stream id m = elim (find id m.active_output_streams) [
    | none ↦ m
    | some s ↦ record m {
      active_output_streams = erase id m.active_output_streams;
      notifier = unsubscribe s.handle m.notifier;
    }
  ]

  -- `sendCompleteResponse`.
  unfoldable pub send_complete_response : ℕ → ℕ → OutputManager S → OutputManager S
  unfolding send_output erase_stream
  send_complete_response id sequence m = elim (find id m.active_output_streams) [
    | none ↦ m
    | some s ↦ erase_stream id (send_output (complete id sequence) m)
  ]

  -- `sendJobNotFoundError`.
  unfoldable pub send_output_job_not_found : ℕ → String → User → OutputManager S → OutputManager S
  unfolding send_output for_user
  send_output_job_not_found id job_id u m =
      send_output
        (failure id job_not_found
          (concat ("Job " ∷ job_id ∷ " could not be found" ∷ for_user u ∷ "." ∷ [])))
        m

  -- `sendJobOutputNotFoundError`.
  unfoldable pub send_job_output_not_found : ℕ → Option Error → OutputManager S → OutputManager S
  unfolding send_output
  send_job_output_not_found id error m =
      send_output
        (failure id job_output_not_found
          (elim error [ none ↦ "Output stream could not be created." | some e ↦ e.summary ]))
        m

  -- `sendOutputResponse`.
  unfoldable pub send_output_response :
      ℕ → ℕ → String → OutputType → OutputManager S → OutputManager S
  unfolding send_output
  send_output_response id sequence text type m = elim (find id m.active_output_streams) [
    | none ↦ m
    | some s ↦ send_output (output id sequence text type) m
  ]

  -- `sendStreamErrorResponse`.
  unfoldable pub send_stream_error_response : ℕ → Error → OutputManager S → OutputManager S
  unfolding send_job_output_not_found erase_stream
  send_stream_error_response id error m = elim (find id m.active_output_streams) [
    | none ↦ m
    | some s ↦ erase_stream id (send_job_output_not_found id (some error) m)
  ]

module _ {S : Type 0} (source : OutputSource S) where
  -- The stream is subscribed to its job and becomes active.
  unfoldable pub watch_output : ℕ → String → Bool → OutputManager S → OutputManager S
  watch_output id job_id is_started m =
      let (n, handle) = subscribe job_id m.notifier in
      record m {
        active_output_streams =
            insert id (record { handle = handle; is_started = is_started }) m.active_output_streams;
        notifier = n;
      }

  -- `startStream`.
  unfoldable pub start_stream : ℕ → Job → OutputManager S → OutputManager S
  unfolding watch_output send_job_output_not_found
  start_stream id j m =
      if state_eq j.status pending
      then watch_output id j.id false m
      else (let (error, src) = source.start id m.source in
          let m' : OutputManager S = record m { source = src } in
          elim error [
            | some e ↦ send_job_output_not_found id (some e) m'
            | none ↦ watch_output id j.id true m'
          ])

  -- A job that ended ends its stream.
  unfoldable pub close_stream : ℕ → Job → OutputManager S → OutputManager S
  unfolding erase_stream
  close_stream id j m =
      if is_completed j then erase_stream id (record m { source = source.stop id m.source }) else m

  -- What a stream's subscription does with an update of its job.
  unfoldable pub on_output_update : ℕ → Job → OutputManager S → OutputManager S
  unfolding send_stream_error_response close_stream
  on_output_update id j m = elim (find id m.active_output_streams) [
    | none ↦ m
    | some s ↦
        if not s.is_started && not (state_eq j.status pending)
        then (let (error, src) = source.start id m.source in
            let m' : OutputManager S = record m { source = src } in
            elim error [
              | some e ↦ send_stream_error_response id e m'
              | none ↦ close_stream id j (record m' {
                active_output_streams =
                    insert id (record s { is_started = true }) m'.active_output_streams;
              })
            ])
        else close_stream id j m
  ]

  -- `handleStreamRequest`.
  unfoldable pub handle_output_request :
      Heap → Repository → OutputStreamRequest → OutputManager S → OutputManager S
  unfolding erase_stream send_output_job_not_found send_job_output_not_found start_stream
  handle_output_request h r q m = elim (find q.id m.active_output_streams) [
    | some s ↦
        if q.is_cancel
        then erase_stream q.id (record m { source = source.stop q.id m.source })
        else m
    | none ↦ if q.is_cancel then m else elim (get_job h r q.job_id q.user) [
      | none ↦ send_output_job_not_found q.id q.job_id q.user m
      | some p ↦
          let ((error, given), src) = source.create_output_stream q.id q.stream_type p m.source in
          let m' : OutputManager S = record m { source = src } in
          elim error [
            | some e ↦ send_job_output_not_found q.id (some e) m'
            | none ↦
                if given then start_stream q.id (h p) m' else send_job_output_not_found q.id none m'
          ]
    ]
  ]
