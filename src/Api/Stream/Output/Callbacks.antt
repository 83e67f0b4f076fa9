-- ===== src/Api/Stream/Output/Callbacks.antt =====
-- sdk/src/api/stream/OutputStreamManager.cpp: what the callbacks of one stream mean for another.
use rstudio_launcher_plugin.Base.{
  ℕ, ◌≡◌, refl, ◌∙◌, inl, inr, true, false, not, ◌&&◌, Option, none, some, List, [], ◌∷◌, ◌++◌,
  String, nat_key, ◌==◌, find, insert, find-insert, find-erase, if◌then◌else◌, Bool-cases,
  Option-cases,
}
use rstudio_launcher_plugin.Api.Job.{Job, pending, state_eq, is_completed}
use rstudio_launcher_plugin.Api.Messages.{Error}
use rstudio_launcher_plugin.Api.Stream.Output.{
  OutputType, OutputSource, OutputStream, OutputResponse, output, complete, failure, OutputManager,
  send_output, erase_stream, send_complete_response, send_job_output_not_found,
  send_output_response, send_stream_error_response, close_stream, on_output_update,
}

-- The request that a response is for.
abbrev pub response_of : OutputResponse → ℕ
response_of (output id sequence text type) = id
response_of (complete id sequence) = id
response_of (failure id type message) = id

-- The responses that a request has got.
unfoldable pub sent_for : ℕ → List OutputResponse → List OutputResponse
sent_for id [] = []
sent_for id (r ∷ rs) = if response_of r == id then r ∷ sent_for id rs else sent_for id rs

-- The calls that a stream's own callbacks and its subscription make.
pub data Event : Type 0 where
  on_output : ℕ → ℕ → String → OutputType → Event
  on_complete : ℕ → ℕ → Event
  on_error : ℕ → Error → Event
  on_update : ℕ → Job → Event

unfoldable pub run : {S : Type 0} → OutputSource S → List Event → OutputManager S → OutputManager S
run source [] m = m
run source (on_output id n text type ∷ es) m = run source es (send_output_response id n text type m)
run source (on_complete id n ∷ es) m = run source es (send_complete_response id n m)
run source (on_error id e ∷ es) m = run source es (send_stream_error_response id e m)
run source (on_update id j ∷ es) m = run source es (on_output_update source id j m)

sent_for-append :
    (id : ℕ) (r : OutputResponse) (rs : List OutputResponse)
    → (response_of r == id) ≡ false
    → sent_for id (rs ++ r ∷ []) ≡ sent_for id rs
unfolding sent_for
sent_for-append id r [] e = rw e refl
sent_for-append id r (q ∷ rs) e = rw (sent_for-append id r rs e) refl

module _ {S : Type 0} (id : ℕ) where
  -- The request sees no difference.
  unfoldable pub Quiet : OutputManager S → OutputManager S → Type 0
  Quiet m m' =
      (sent_for id m'.sent ≡ sent_for id m.sent)
      × (find id m'.active_output_streams ≡ find id m.active_output_streams)

  pub still_none :
      (m m' : OutputManager S)
      → Quiet m m'
      → find id m.active_output_streams ≡ none
      → find id m'.active_output_streams ≡ none
  unfolding Quiet
  still_none m m' (a, b) e = b ∙ e

  pub both_Quiet : (m m' m'' : OutputManager S) → Quiet m m' → Quiet m' m'' → Quiet m m''
  unfolding Quiet
  both_Quiet m m' m'' (a, b) (c, d) = (c ∙ a, d ∙ b)

  pub same_Quiet : (m : OutputManager S) → Quiet m m
  unfolding Quiet
  same_Quiet m = (refl, refl)

  source_Quiet : (src : S) (m : OutputManager S) → Quiet m (record m { source = src })
  unfolding Quiet
  source_Quiet src m = (refl, refl)

  send_output-Quiet :
      (r : OutputResponse) (m : OutputManager S)
      → (response_of r == id) ≡ false
      → Quiet m (send_output r m)
  unfolding Quiet send_output
  send_output-Quiet r m e = (sent_for-append id r m.sent e, refl)

  module _ (j : ℕ) (other : (j == id) ≡ false) where
    erase_stream-Quiet : (m : OutputManager S) → Quiet m (erase_stream j m)
    unfolding Quiet erase_stream
    erase_stream-Quiet m = elim (Option-cases (find j m.active_output_streams)) [
      | inl e ↦ rw (erase_stream, e) (refl, refl)
      | inr (s, e) ↦
          rw (erase_stream, e) (refl, find-erase j id m.active_output_streams ∙ rw other refl)
    ]

    pub send_output_response-Quiet :
        (n : ℕ) (text : String) (type : OutputType) (m : OutputManager S)
        → Quiet m (send_output_response j n text type m)
    unfolding send_output_response
    send_output_response-Quiet n text type m =
        elim (Option-cases (find j m.active_output_streams)) [
          | inl e ↦ rw (send_output_response, e) (same_Quiet m)
          | inr (s, e) ↦
              rw (send_output_response, e) (send_output-Quiet (output j n text type) m other)
        ]

    pub send_complete_response-Quiet :
        (n : ℕ) (m : OutputManager S) → Quiet m (send_complete_response j n m)
    unfolding send_complete_response
    send_complete_response-Quiet n m = elim (Option-cases (find j m.active_output_streams)) [
      | inl e ↦ rw (send_complete_response, e) (same_Quiet m)
      | inr (s, e) ↦
          rw (send_complete_response, e)
            (both_Quiet m (send_output (complete j n) m) _
              (send_output-Quiet (complete j n) m other)
              (erase_stream-Quiet (send_output (complete j n) m)))
    ]

    send_job_output_not_found-Quiet :
        (o : Option Error) (m : OutputManager S) → Quiet m (send_job_output_not_found j o m)
    unfolding send_job_output_not_found
    send_job_output_not_found-Quiet o m = send_output-Quiet (failure j _ _) m other

    pub send_stream_error_response-Quiet :
        (x : Error) (m : OutputManager S) → Quiet m (send_stream_error_response j x m)
    unfolding send_stream_error_response
    send_stream_error_response-Quiet x m = elim (Option-cases (find j m.active_output_streams)) [
      | inl e ↦ rw (send_stream_error_response, e) (same_Quiet m)
      | inr (s, e) ↦
          rw (send_stream_error_response, e)
            (both_Quiet m (send_job_output_not_found j (some x) m) _
              (send_job_output_not_found-Quiet (some x) m)
              (erase_stream-Quiet (send_job_output_not_found j (some x) m)))
    ]

    module _ (source : OutputSource S) where
      close_stream-Quiet : (job : Job) (m : OutputManager S) → Quiet m (close_stream source j job m)
      unfolding close_stream
      close_stream-Quiet job m = elim (Bool-cases (is_completed job)) [
        | inl e ↦
            rw (close_stream, e)
              (both_Quiet m (record m { source = source.stop j m.source }) _
                (source_Quiet (source.stop j m.source) m)
                (erase_stream-Quiet (record m { source = source.stop j m.source })))
        | inr e ↦ rw (close_stream, e) (same_Quiet m)
      ]

      insert-Quiet :
          (s : OutputStream) (src : S) (m : OutputManager S)
          → Quiet m (record m {
            active_output_streams = insert j s m.active_output_streams;
            source = src;
          })
      unfolding Quiet
      insert-Quiet s src m = (refl, find-insert j id s m.active_output_streams ∙ rw other refl)

      pub on_output_update-Quiet :
          (job : Job) (m : OutputManager S) → Quiet m (on_output_update source j job m)
      unfolding on_output_update
      on_output_update-Quiet job m = elim (Option-cases (find j m.active_output_streams)) [
        | inl e ↦ rw (on_output_update, e) (same_Quiet m)
        | inr (s, e) ↦ elim (Bool-cases (not s.is_started && not (state_eq job.status pending))) [
          | inr f ↦ rw (on_output_update, e, f) (close_stream-Quiet job m)
          | inl f ↦
              let m' : OutputManager S = record m { source = (source.start j m.source).1 } in
              elim (Option-cases (source.start j m.source).0) [
                | inr (x, g) ↦
                    rw (on_output_update, e, f, g)
                      (both_Quiet m m' _ (source_Quiet (source.start j m.source).1 m)
                        (send_stream_error_response-Quiet x m'))
                | inl g ↦
                    rw (on_output_update, e, f, g)
                      (both_Quiet m
                        (record m {
                          active_output_streams =
                              insert j (record s { is_started = true }) m.active_output_streams;
                          source = (source.start j m.source).1;
                        })
                        _
                        (insert-Quiet (record s { is_started = true }) (source.start j m.source).1
                          m)
                        (close_stream-Quiet job (record m {
                          active_output_streams =
                              insert j (record s { is_started = true }) m.active_output_streams;
                          source = (source.start j m.source).1;
                        })))
              ]
        ]
      ]
