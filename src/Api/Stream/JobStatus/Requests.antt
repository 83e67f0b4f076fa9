-- ===== src/Api/Stream/JobStatus/Requests.antt =====
-- sdk/src/api/stream/JobStatusStream.cpp: which operations leave a stream with a request.
use rstudio_launcher_plugin.Base.{
  ℕ, ◌≡◌, refl, ap, ◌∙◌, inl, inr, arith, Bool, true, false, Option, some, List, [], ◌∷◌,
  string_key, nat_key, nat_beq, Map, find, insert, overwrite, place, has_key, if◌then◌else◌,
  Bool-cases, Option-cases,
}
use rstudio_launcher_plugin.Api.User.{User, new_user}
use rstudio_launcher_plugin.Api.Job.{Job}
use rstudio_launcher_plugin.Jobs.Repository.{Repository, Heap, JobPtr, get_job, get_jobs}
use rstudio_launcher_plugin.Jobs.Notifier.{Notifier}
use rstudio_launcher_plugin.Api.Stream.Sequences.{
  MultiStream, StreamSequences, on_add_request, add_sequence, all_sequences, some_sequences,
  increment, send_to, send_response_all, send_response, is_empty_stream,
}
use rstudio_launcher_plugin.Api.Stream.JobStatus.{
  SingleStream, AllStream, send_initial_state, add_single_request, initialize_single,
  request_ids_for_job, send_jobs_to, send_jobs_to_all, send_initial_states, add_all_request,
  initialize_all,
}

-- A stream that has a request.
abbrev filled : Map ℕ ℕ → Bool
filled [] = false
filled (q ∷ qs) = true

filled-insert : (k v : ℕ) (m : Map ℕ ℕ) → filled (insert k v m) ≡ true
unfolding insert has_key overwrite place
filled-insert k v [] = refl
filled-insert k v ((j, w) ∷ m) = ground arith

filled-find : (k : ℕ) (m : Map ℕ ℕ) (v : ℕ) → find k m ≡ some v → filled m ≡ true
unfolding find
filled-find k [] v e = absurd (ground arith)
filled-find k (q ∷ m) v e = refl

filled-add : (id : ℕ) (m : Map ℕ ℕ) → filled (add_sequence id m) ≡ true
unfolding add_sequence
filled-add id m = elim (Option-cases (find id m)) [
  | inl e ↦ rw (add_sequence, e) (filled-insert id 1 m)
  | inr (k, e) ↦ rw (add_sequence, e) (filled-find id m k e)
]

filled-all : (m : Map ℕ ℕ) → filled (all_sequences m).1 ≡ filled m
unfolding all_sequences
filled-all [] = refl
filled-all (q ∷ m) = refl

filled-some :
    (ids : List ℕ) (m : Map ℕ ℕ) → filled m ≡ true → filled (some_sequences ids m).1 ≡ true
unfolding some_sequences
filled-some [] m f = f
filled-some (id ∷ ids) m f = elim (Option-cases (find id m)) [
  | inl e ↦ rw (some_sequences, e) (filled-some ids m f)
  | inr (k, e) ↦
      rw (some_sequences, e)
        (filled-some ids (insert id (increment k) m) (filled-insert id (increment k) m))
]

sequences-send_to :
    (qm : StreamSequences × Map ℕ ℕ) (j : Job) (s : MultiStream Job)
    → (send_to qm j s).sequences ≡ qm.1
unfolding send_to
sequences-send_to ([], m) j s = refl
sequences-send_to (q ∷ qs, m) j s = refl

-- The stream has a request.
abbrev pub HasRequest : MultiStream Job → Type 0
HasRequest s = filled s.sequences ≡ true

pub on_add_request-HasRequest : (id : ℕ) (s : MultiStream Job) → HasRequest (on_add_request id s)
unfolding on_add_request
on_add_request-HasRequest id s = filled-add id s.sequences

send_response_all-HasRequest :
    (j : Job) (s : MultiStream Job) → HasRequest s → HasRequest (send_response_all j s)
unfolding send_response_all
send_response_all-HasRequest j s f =
    ap filled (sequences-send_to (all_sequences s.sequences) j s) ∙ filled-all s.sequences ∙ f

send_response-HasRequest :
    (ids : List ℕ) (j : Job) (s : MultiStream Job)
    → HasRequest s
    → HasRequest (send_response ids j s)
unfolding send_response
send_response-HasRequest ids j s f =
    ap filled (sequences-send_to (some_sequences ids s.sequences) j s)
    ∙ filled-some ids s.sequences f

send_jobs_to-HasRequest :
    (h : Heap) (id : ℕ) (ps : List JobPtr) (s : MultiStream Job)
    → HasRequest s
    → HasRequest (send_jobs_to h id ps s)
unfolding send_jobs_to
send_jobs_to-HasRequest h id [] s f = f
send_jobs_to-HasRequest h id (p ∷ ps) s f =
    send_jobs_to-HasRequest h id ps _ (send_response-HasRequest (id ∷ []) (h p) s f)

send_jobs_to_all-HasRequest :
    (h : Heap) (us : Map ℕ User) (ps : List JobPtr) (s : MultiStream Job)
    → HasRequest s
    → HasRequest (send_jobs_to_all h us ps s)
unfolding send_jobs_to_all
send_jobs_to_all-HasRequest h us [] s f = f
send_jobs_to_all-HasRequest h us (p ∷ ps) s f =
    send_jobs_to_all-HasRequest h us ps _
      (send_response-HasRequest (request_ids_for_job us (h p)) (h p) s f)

send_initial_states-HasRequest :
    (h : Heap) (r : Repository) (id : ℕ) (s : AllStream)
    → HasRequest s.stream
    → HasRequest (send_initial_states h r id s).stream
unfolding send_initial_states
send_initial_states-HasRequest h r id s f = elim (Bool-cases (nat_beq id 0)) [
  | inl e ↦
      rw (send_initial_states, e)
        (send_jobs_to_all-HasRequest h s.request_users (get_jobs h r (new_user false)) s.stream f)
  | inr e ↦ elim (Option-cases (find id s.request_users)) [
    | inl g ↦ rw (send_initial_states, e, g) f
    | inr (u, g) ↦
        rw (send_initial_states, e, g) (send_jobs_to-HasRequest h id (get_jobs h r u) s.stream f)
  ]
]

-- Whichever way a test goes.
either :
    (b : Bool) (s t : AllStream)
    → HasRequest s.stream
    → HasRequest t.stream
    → HasRequest (if b then s else t).stream
either true s t f g = f
either false s t f g = g

pub add_all_request-HasRequest :
    (h : Heap) (r : Repository) (id : ℕ) (u : User) (s : AllStream)
    → HasRequest (add_all_request h r id u s).stream
unfolding add_all_request
add_all_request-HasRequest h r id u s =
    either s.is_initialized _ _
      (send_initial_states-HasRequest h r id _ (on_add_request-HasRequest id s.stream))
      (on_add_request-HasRequest id s.stream)

pub initialize_all-HasRequest :
    (h : Heap) (r : Repository) (s : AllStream) (n : Notifier)
    → HasRequest s.stream
    → HasRequest (initialize_all h r s n).0.stream
unfolding initialize_all
initialize_all-HasRequest h r s n f = send_initial_states-HasRequest h r 0 s f

-- The operation gives a stream of the same job, which has a request.
abbrev GivesRequest : SingleStream → Option SingleStream → Type 0
GivesRequest s o =
    (s' : SingleStream) × (o ≡ some s') × HasRequest s'.stream × (s'.job_id ≡ s.job_id)

send_initial_state-GivesRequest :
    (h : Heap) (r : Repository) (id : ℕ) (p : JobPtr) (s : SingleStream)
    → get_job h r s.job_id (new_user false) ≡ some p
    → HasRequest s.stream
    → GivesRequest s (send_initial_state h r id s)
unfolding send_initial_state
send_initial_state-GivesRequest h r id p s e f = elim (Bool-cases (nat_beq id 0)) [
  | inl z ↦
      rw (send_initial_state, e, z) (_, refl, send_response_all-HasRequest (h p) s.stream f, refl)
  | inr z ↦
      rw (send_initial_state, e, z)
        (_, refl, send_response-HasRequest (id ∷ []) (h p) s.stream f, refl)
]

pub add_single_request-GivesRequest :
    (h : Heap) (r : Repository) (id : ℕ) (p : JobPtr) (s : SingleStream)
    → get_job h r s.job_id (new_user false) ≡ some p
    → GivesRequest s (add_single_request h r id s)
unfolding add_single_request
add_single_request-GivesRequest h r id p s e = which s.is_initialized
  where
    s' : SingleStream
    s' = record s { stream = on_add_request id s.stream }

    which : (b : Bool) → GivesRequest s (if b then send_initial_state h r id s' else some s')
    which true =
        send_initial_state-GivesRequest h r id p s' e (on_add_request-HasRequest id s.stream)
    which false = (s', refl, on_add_request-HasRequest id s.stream, refl)

pub initialize_single_lem :
    (h : Heap) (r : Repository) (p : JobPtr) (s : SingleStream) (n : Notifier)
    → get_job h r s.job_id (new_user false) ≡ some p
    → HasRequest s.stream
    → (s' : SingleStream) × (n' : Notifier) × (initialize_single h r s n ≡ some (s', n'))
      × HasRequest s'.stream
      × (s'.job_id ≡ s.job_id)
unfolding initialize_single
initialize_single_lem h r p s n e f =
    let (s', q, g, same) = send_initial_state-GivesRequest h r 0 p s e f in
    rw (initialize_single, q) (_, _, refl, g, same)

pub filled-is_empty : (s : MultiStream Job) → is_empty_stream s ≡ false → HasRequest s
unfolding is_empty_stream
filled-is_empty s e = go s.sequences e
  where
    go :
        (m : Map ℕ ℕ)
        → is_empty_stream (record { sequences = m; sent = s.sent }) ≡ false
        → filled m ≡ true
    go [] e = absurd (ground arith)
    go (q ∷ m) e = refl
