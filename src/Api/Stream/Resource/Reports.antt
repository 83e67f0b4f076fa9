-- ===== src/Api/Stream/Resource/Reports.antt =====
-- What the requests of a resource stream get.
use rstudio_launcher_plugin.Base.{
  ℕ, ◌≡◌, refl, ◌∙◌, inl, inr, true, false, ◌||◌, List, [], ◌∷◌, Bool-cases,
}
use rstudio_launcher_plugin.Api.Stream.Sequences.{on_add_request}
use rstudio_launcher_plugin.Api.Stream.Resource.{
  UtilData, no_data, ResourceStream, new_resource_stream, has_data, add_resource_request,
  set_stream_complete, report_data, report_error,
}

-- What a plugin reports to its stream, and requests that join it.
pub data Report (D : Type 0) : Type 0 where
  data_report : UtilData D → Report D
  error_report end_report : Report D
  join : ℕ → Report D

unfoldable pub run : {D : Type 0} → List (Report D) → ResourceStream D → ResourceStream D
run [] s = s
run (data_report d ∷ rs) s = run rs (report_data d s)
run (error_report ∷ rs) s = run rs (report_error s)
run (end_report ∷ rs) s = run rs (set_stream_complete s)
run (join id ∷ rs) s = run rs (add_resource_request id s)

no_data-has_data : (D : Type 0) → has_data {D = D} no_data ≡ false
unfolding has_data
no_data-has_data D = refl

module _ {D : Type 0} where
  -- The state that a report leaves.
  after_data :
      (d : UtilData D) (s : ResourceStream D)
      → ((report_data d s).last_data ≡ s.last_data)
        × ((report_data d s).is_complete ≡ s.is_complete)
  unfolding report_data
  after_data d s = elim (Bool-cases s.is_complete) [
    | inl e ↦ rw (report_data, e) (refl, refl)
    | inr e ↦ rw (report_data, e) (refl, refl)
  ]

  after_error :
      (s : ResourceStream D)
      → ((report_error s).last_data ≡ s.last_data) × ((report_error s).is_complete ≡ true)
  unfolding report_error
  after_error s = elim (Bool-cases s.is_complete) [
    | inl e ↦ rw (report_error, e) (refl, refl)
    | inr e ↦ rw (report_error, e) (refl, refl)
  ]

  after_end :
      (s : ResourceStream D)
      → ((set_stream_complete s).last_data ≡ s.last_data)
        × ((set_stream_complete s).is_complete ≡ true)
  unfolding set_stream_complete
  after_end s = elim (Bool-cases s.is_complete) [
    | inl e ↦ rw (set_stream_complete, e) (refl, refl)
    | inr e ↦ rw (set_stream_complete, e) (refl, refl)
  ]

  after_join :
      (id : ℕ) (s : ResourceStream D)
      → ((add_resource_request id s).last_data ≡ s.last_data)
        × ((add_resource_request id s).is_complete ≡ s.is_complete)
  unfolding add_resource_request
  after_join id s = elim (Bool-cases (has_data s.last_data || s.is_complete)) [
    | inl e ↦ rw (add_resource_request, e) (refl, refl)
    | inr e ↦ rw (add_resource_request, e) (refl, refl)
  ]

  last_data-run : (rs : List (Report D)) (s : ResourceStream D) → (run rs s).last_data ≡ s.last_data
  unfolding run
  last_data-run [] s = refl
  last_data-run (data_report d ∷ rs) s = last_data-run rs (report_data d s) ∙ (after_data d s).0
  last_data-run (error_report ∷ rs) s = last_data-run rs (report_error s) ∙ (after_error s).0
  last_data-run (end_report ∷ rs) s = last_data-run rs (set_stream_complete s) ∙ (after_end s).0
  last_data-run (join id ∷ rs) s =
      last_data-run rs (add_resource_request id s) ∙ (after_join id s).0

  is_complete-run :
      (rs : List (Report D)) (s : ResourceStream D)
      → s.is_complete ≡ true
      → (run rs s).is_complete ≡ true
  unfolding run
  is_complete-run [] s e = e
  is_complete-run (data_report d ∷ rs) s e =
      is_complete-run rs (report_data d s) ((after_data d s).1 ∙ e)
  is_complete-run (error_report ∷ rs) s e = is_complete-run rs (report_error s) (after_error s).1
  is_complete-run (end_report ∷ rs) s e = is_complete-run rs (set_stream_complete s) (after_end s).1
  is_complete-run (join id ∷ rs) s e =
      is_complete-run rs (add_resource_request id s) ((after_join id s).1 ∙ e)

  -- The stream never remembers what was reported: whatever was, a request that joins a stream which
  -- has not ended gets nothing before the next report.
  pub joins_unseen :
      (rs : List (Report D)) (id : ℕ)
      → let s = run rs new_resource_stream in
        s.is_complete ≡ false → (add_resource_request id s).stream.sent ≡ s.stream.sent
  unfolding new_resource_stream add_resource_request on_add_request
  joins_unseen rs id e =
      let s = run rs (new_resource_stream {D = D}) in
      let none_yet : (has_data s.last_data || s.is_complete) ≡ false =
        rw (last_data-run rs (new_resource_stream {D = D}), no_data-has_data D) e in
      rw (add_resource_request, none_yet) refl

  -- Once a stream has ended, no report sends anything, and it stays ended.
  pub ended_silent :
      (rs : List (Report D)) (d : UtilData D) (s : ResourceStream D)
      → s.is_complete ≡ true
      → let s' = run rs s in
        (s'.is_complete ≡ true)
        × (report_data d s' ≡ s')
        × (report_error s' ≡ s')
        × (set_stream_complete s' ≡ s')
  unfolding report_data report_error set_stream_complete
  ended_silent rs d s e =
      let f = is_complete-run rs s e in
      (f, rw (report_data, f) refl, rw (report_error, f) refl, rw (set_stream_complete, f) refl)
