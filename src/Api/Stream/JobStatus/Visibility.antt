-- ===== src/Api/Stream/JobStatus/Visibility.antt =====
-- Which requests get which updates.
use rstudio_launcher_plugin.Base.{
  ℕ, suc, ◌+◌, ◌<◌, ◌^◌, ◌≡◌, ◌≢◌, refl, ap, sym, ◌∙◌, inl, inr, arith, Bool, true, false, ◌||◌,
  none, some, List, [], ◌∷◌, ◌++◌, append_assoc, append-nil, map, length, nat_key, nat_beq, ◌==◌,
  Map, find, has_key, distinct, distinct-insert, find-insert_self, ==_refl, if◌then◌else◌, contains,
  Bool-cases,
}
use rstudio_launcher_plugin.Api.User.{User, is_all_users, same_user}
use rstudio_launcher_plugin.Api.Job.{Job}
use rstudio_launcher_plugin.Jobs.Repository.{Repository, Heap, JobPtr, get_jobs}
use rstudio_launcher_plugin.Api.Stream.Sequences.{
  StreamSequences, MultiStream, send_response, some_sequences, send_to, on_add_request,
  add_sequence,
}
use rstudio_launcher_plugin.Api.Stream.Sequences.Numbers.{Registered, some_in, some_out}
use rstudio_launcher_plugin.Api.Stream.Sequences.Entries.{delivered, no_repeats}
use rstudio_launcher_plugin.Api.Stream.JobStatus.{
  AllStream, request_ids_for_job, add_all_request, send_initial_states, on_all_update, send_jobs_to,
}

-- Whether a user gets the updates of a job.
abbrev pub gets : User → Job → Bool
gets u j = is_all_users u || same_user u j.user

has_key-ids :
    (id : ℕ) (m : Map ℕ User) (j : Job)
    → has_key id m ≡ false
    → contains (request_ids_for_job m j) id ≡ false
unfolding has_key request_ids_for_job
has_key-ids id [] j e = refl
has_key-ids id ((i, u) ∷ m) j e = ground (arith, has_key-ids id m j)

no_repeats-ids :
    (m : Map ℕ User) (j : Job) → distinct m ≡ true → no_repeats (request_ids_for_job m j) ≡ true
unfolding distinct request_ids_for_job
no_repeats-ids [] j d = refl
no_repeats-ids ((i, u) ∷ m) j d = ground (arith, has_key-ids i m j, no_repeats-ids m j)

contains-ids :
    (id : ℕ) (u : User) (m : Map ℕ User) (j : Job)
    → distinct m ≡ true
    → find id m ≡ some u
    → contains (request_ids_for_job m j) id ≡ gets u j
unfolding distinct request_ids_for_job find
contains-ids id u [] j d e = absurd (ground arith)
contains-ids id u ((i, v) ∷ m) j d e = elim (Bool-cases (i == id)) [
  | inl f ↦ ground (arith, nat_key.beq_iff i id, has_key-ids i m j)
  | inr f ↦ ground (arith, contains-ids id u m j)
]

-- An update of a job goes to a request of the stream of all jobs exactly if the request's user is
-- all users or the user of the job; the request's next number is then one higher, and else the same.
pub on_all_update-delivered :
    (h : Heap) (p : JobPtr) (id k : ℕ) (u : User) (s : AllStream)
    → distinct s.request_users ≡ true
    → find id s.request_users ≡ some u
    → Registered id k s.stream
    → k + 1 < 2 ^ 64
    → let s' = on_all_update h p s in
      (delivered id s'.stream.sent
        ≡ delivered id s.stream.sent ++ (if gets u (h p) then k ∷ [] else []))
      × Registered id (if gets u (h p) then suc k else k) s'.stream
unfolding on_all_update
on_all_update-delivered h p id k u s d e reg b = elim (Bool-cases (gets u (h p))) [
  | inl g ↦ rw g (
      some_in id k (request_ids_for_job s.request_users (h p)) (h p) s.stream
        (no_repeats-ids s.request_users (h p) d) (contains-ids id u s.request_users (h p) d e ∙ g)
        reg b)
  | inr g ↦
      let (q, r) =
        some_out id k (request_ids_for_job s.request_users (h p)) (h p) s.stream
          (no_repeats-ids s.request_users (h p) d) (contains-ids id u s.request_users (h p) d e ∙ g)
          reg in
      rw (g, append-nil (delivered id s.stream.sent)) (q, r)
]

-- Responses for one request, one for each job, numbered from `k`.
pub initial_responses : ℕ → ℕ → List Job → List (StreamSequences × Job)
initial_responses id k [] = []
initial_responses id k (j ∷ js) = ((id, k) ∷ [], j) ∷ initial_responses id (suc k) js

send_one :
    (id k : ℕ) (j : Job) (s : MultiStream Job)
    → find id s.sequences ≡ some k
    → (send_response (id ∷ []) j s).sent ≡ s.sent ++ (((id, k) ∷ [], j) ∷ [])
unfolding send_response some_sequences send_to
send_one id k j s e = rw (send_response, some_sequences, e) refl

send_jobs_to-initial_responses :
    (h : Heap) (id k : ℕ) (ps : List JobPtr) (s : MultiStream Job)
    → Registered id k s
    → k + length ps < 2 ^ 64
    → (send_jobs_to h id ps s).sent ≡ s.sent ++ initial_responses id k (map h ps)
unfolding send_jobs_to initial_responses
send_jobs_to-initial_responses h id k [] s reg b = sym (append-nil s.sent)
send_jobs_to-initial_responses h id k (p ∷ ps) s reg b =
    let (d, r) =
      some_in id k (id ∷ []) (h p) s refl (ground (arith, ==_refl id)) reg (omega (arith, b)) in
    send_jobs_to-initial_responses h id (suc k) ps (send_response (id ∷ []) (h p) s) r
      (omega (arith, b))
    ∙ ap (λ x. x ++ initial_responses id (suc k) (map h ps)) (send_one id k (h p) s reg.is_next)
    ∙ append_assoc s.sent (((id, k) ∷ [], h p) ∷ []) (initial_responses id (suc k) (map h ps))

-- A new request, whose ID is not 0, to a running stream of all jobs gets one response for each job
-- that `getJobs` gives to its user, numbered from 1, and nothing else is sent.
pub add_all_request-initial_responses :
    (h : Heap) (r : Repository) (id : ℕ) (u : User) (s : AllStream)
    → s.is_initialized ≡ true
    → id ≢ 0
    → find id s.request_users ≡ none
    → find id s.stream.sequences ≡ none
    → distinct s.stream.sequences ≡ true
    → 1 + length (get_jobs h r u) < 2 ^ 64
    → (add_all_request h r id u s).stream.sent
      ≡ s.stream.sent ++ initial_responses id 1 (map h (get_jobs h r u))
unfolding add_all_request send_initial_states on_add_request add_sequence
add_all_request-initial_responses h r id u s i n e f d b =
    let s' = on_add_request id s.stream in
    let reg : Registered id 1 s' = record {
      is_next = rw (on_add_request, add_sequence, f) (find-insert_self id 1 s.stream.sequences);
      is_distinct =
          rw (on_add_request, add_sequence, f) (distinct-insert id 1 s.stream.sequences d);
    } in
    let not_zero : nat_beq id 0 ≡ false = ground (arith, n) in
    rw (add_all_request, e, i, send_initial_states, not_zero, find-insert_self id u s.request_users)
      (send_jobs_to-initial_responses h id 1 (get_jobs h r u) s' reg b)
