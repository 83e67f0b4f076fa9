-- ===== src/Api/Stream/Output/Ending.antt =====
-- How output streams end.
use rstudio_launcher_plugin.Base.{
  ℕ, ◌≡◌, refl, sym, subst, ==_refl, ap, ◌∙◌, inl, inr, false, none, some, List, [], ◌∷◌, ◌++◌,
  String, nat_key, ◌==◌, find, find-erase_self, Bool-cases, Option-cases,
}
use rstudio_launcher_plugin.Api.Job.{Job}
use rstudio_launcher_plugin.Api.Messages.{Error}
use rstudio_launcher_plugin.Api.Stream.Output.{
  OutputType, OutputSource, OutputStream, OutputResponse, complete, OutputManager, send_output,
  erase_stream, send_complete_response, send_output_response, send_stream_error_response,
  on_output_update,
}
use rstudio_launcher_plugin.Api.Stream.Output.Callbacks.{
  send_output_response-Quiet, send_complete_response-Quiet, send_stream_error_response-Quiet,
  on_output_update-Quiet, response_of, sent_for, Event, run, on_output, on_complete, on_error,
  on_update, Quiet, still_none, both_Quiet, same_Quiet,
}

-- What each call does for a request that has no stream.
module _ {S : Type 0} (source : OutputSource S) (id : ℕ) (m : OutputManager S)
    (ended : find id m.active_output_streams ≡ none) where
  none_output :
      (n : ℕ) (text : String) (type : OutputType) → send_output_response id n text type m ≡ m
  unfolding send_output_response
  none_output n text type = rw (send_output_response, ended) refl

  none_complete : (n : ℕ) → send_complete_response id n m ≡ m
  unfolding send_complete_response
  none_complete n = rw (send_complete_response, ended) refl

  none_error : (x : Error) → send_stream_error_response id x m ≡ m
  unfolding send_stream_error_response
  none_error x = rw (send_stream_error_response, ended) refl

  none_update : (job : Job) → on_output_update source id job m ≡ m
  unfolding on_output_update
  none_update job = rw (on_output_update, ended) refl

-- A call for one request, whose effect on another is nothing, or which does nothing at all.
Quiet-call :
    {S : Type 0} (id j : ℕ) (m : OutputManager S) (f : ℕ → OutputManager S)
    → (f id ≡ m)
    → ((j == id) ≡ false → Quiet id m (f j))
    → Quiet id m (f j)
Quiet-call id j m f none_here other = elim (Bool-cases (j == id)) [
  | inl e ↦
      subst (λ x. Quiet id m (f x)) (sym ((nat_key.beq_iff j id).0 e))
        (subst (λ x. Quiet id m x) (sym none_here) (same_Quiet id m))
  | inr e ↦ other e
]

run-Quiet :
    {S : Type 0} (source : OutputSource S) (es : List Event) (id : ℕ) (m : OutputManager S)
    → find id m.active_output_streams ≡ none
    → Quiet id m (run source es m)
unfolding run
run-Quiet source [] id m e = same_Quiet id m
run-Quiet source (on_output j n text type ∷ es) id m e =
    let m' = send_output_response j n text type m in
    let q =
      Quiet-call id j m (λ x. send_output_response x n text type m)
        (none_output source id m e n text type)
        (λ o. send_output_response-Quiet id j o n text type m) in
    both_Quiet id m m' (run source es m') q (run-Quiet source es id m' (still_none id m m' q e))
run-Quiet source (on_complete j n ∷ es) id m e =
    let m' = send_complete_response j n m in
    let q =
      Quiet-call id j m (λ x. send_complete_response x n m) (none_complete source id m e n)
        (λ o. send_complete_response-Quiet id j o n m) in
    both_Quiet id m m' (run source es m') q (run-Quiet source es id m' (still_none id m m' q e))
run-Quiet source (on_error j x ∷ es) id m e =
    let m' = send_stream_error_response j x m in
    let q =
      Quiet-call id j m (λ i. send_stream_error_response i x m) (none_error source id m e x)
        (λ o. send_stream_error_response-Quiet id j o x m) in
    both_Quiet id m m' (run source es m') q (run-Quiet source es id m' (still_none id m m' q e))
run-Quiet source (on_update j job ∷ es) id m e =
    let m' = on_output_update source j job m in
    let q =
      Quiet-call id j m (λ i. on_output_update source i job m) (none_update source id m e job)
        (λ o. on_output_update-Quiet id j o source job m) in
    both_Quiet id m m' (run source es m') q (run-Quiet source es id m' (still_none id m m' q e))

sent_for-own :
    (id : ℕ) (r : OutputResponse) (rs : List OutputResponse)
    → response_of r ≡ id
    → sent_for id (rs ++ r ∷ []) ≡ sent_for id rs ++ r ∷ []
unfolding sent_for
sent_for-own id r [] e = rw (e, ==_refl id) refl
sent_for-own id r (q ∷ rs) e = elim (Bool-cases (response_of q == id)) [
  | inl f ↦ rw (f, sent_for-own id r rs e) refl
  | inr f ↦ rw (f, sent_for-own id r rs e) refl
]

-- A stream's completion is the last response that its request gets: whatever the callbacks and
-- subscriptions of all streams do afterwards, nothing more is sent for that request. A completion of
-- a stream that is not active is not sent.
pub on_complete_last :
    {S : Type 0} (source : OutputSource S) (es : List Event) (id n : ℕ) (m : OutputManager S)
    → sent_for id (run source (on_complete id n ∷ es) m).sent
      ≡ elim (find id m.active_output_streams) [
        | none ↦ sent_for id m.sent
        | some s ↦ sent_for id m.sent ++ complete id n ∷ []
      ]
unfolding run Quiet
on_complete_last {S = S} source es id n m = elim (Option-cases (find id m.active_output_streams)) [
  | inl e ↦ rw e (
      ap (λ (x : OutputManager S). sent_for id (run source es x).sent)
        (none_complete source id m e n)
      ∙ (run-Quiet source es id m e).0)
  | inr (s, e) ↦
      let m' = send_complete_response id n m in
      let (gone, added) = completed s e in rw e ((run-Quiet source es id m' gone).0 ∙ added)
]
  where
    completed :
        (s : OutputStream)
        → find id m.active_output_streams ≡ some s
        → let m' = send_complete_response id n m in
          (find id m'.active_output_streams ≡ none)
          × (sent_for id m'.sent ≡ sent_for id m.sent ++ complete id n ∷ [])
    completed s e =
        unfold send_complete_response erase_stream send_output in
        rw (send_complete_response, e)
          (rw (erase_stream, e)
            (
              find-erase_self id m.active_output_streams,
              sent_for-own id (complete id n) m.sent refl,
            ))
