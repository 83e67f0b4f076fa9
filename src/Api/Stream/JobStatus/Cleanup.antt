-- ===== src/Api/Stream/JobStatus/Cleanup.antt =====
-- The manager keeps no stream that has no request.
use rstudio_launcher_plugin.Base.{
  ℕ, ◌≡◌, refl, subst, ap, sym, ◌∙◌, inl, inr, arith, false, Option, none, some, [], String,
  string_key, nat_key, ◌==◌, Map, find, insert, erase, find-insert, find-erase, Bool-cases,
  Option-cases,
}
use rstudio_launcher_plugin.Api.User.{User, new_user, is_all_users}
use rstudio_launcher_plugin.Api.Messages.{StreamRequest}
use rstudio_launcher_plugin.Jobs.Repository.{Repository, Heap, JobPtr, get_job, may_see}
use rstudio_launcher_plugin.Jobs.Repository.Access.{get_job_lem}
use rstudio_launcher_plugin.Api.Stream.Sequences.{
  on_remove_request, on_add_request, is_empty_stream,
}
use rstudio_launcher_plugin.Api.Stream.JobStatus.{
  SingleStream, AllStream, StreamManager, add_all_request, add_all_jobs_stream, open_job_stream,
  add_job_stream, cancel_all_jobs_stream, cancel_job_stream, handle_stream_request, no_stream,
  remove_all_request,
}
use rstudio_launcher_plugin.Api.Stream.JobStatus.Requests.{
  HasRequest, on_add_request-HasRequest, add_all_request-HasRequest, initialize_all-HasRequest,
  add_single_request-GivesRequest, initialize_single_lem, filled-is_empty,
}

-- Every stream of the manager has a request, and a job's stream is filed under that job.
pub record IsTidy (m : StreamManager) : Type 0 where
  pub all_jobs : (s : AllStream) → m.all_jobs_stream ≡ some s → HasRequest s.stream
  pub single_jobs :
      (job_id : String) (s : SingleStream)
      → find job_id m.active_job_streams ≡ some s
      → HasRequest s.stream × (s.job_id ≡ job_id)

-- A stream that is put into the map, or taken out.
insert-single :
    (job_id : String) (s : SingleStream) (m : Map String SingleStream)
    → ((j : String) (t : SingleStream) → find j m ≡ some t → HasRequest t.stream × (t.job_id ≡ j))
    → HasRequest s.stream
    → s.job_id ≡ job_id
    → (j : String) (t : SingleStream) → find j (insert job_id s m) ≡ some t
    → HasRequest t.stream × (t.job_id ≡ j)
insert-single job_id s m all f same j t e = elim (Bool-cases (job_id == j)) [
  | inl g ↦
      let q : s ≡ t = ground (arith, e, find-insert job_id j s m, g) in
      (
        subst (λ x. HasRequest x.stream) q f,
        sym (ap (λ x. x.job_id) q) ∙ same ∙ (string_key.beq_iff job_id j).0 g,
      )
  | inr g ↦ all j t (sym (find-insert job_id j s m ∙ rw g refl) ∙ e)
]

erase-single :
    (job_id : String) (m : Map String SingleStream)
    → ((j : String) (t : SingleStream) → find j m ≡ some t → HasRequest t.stream × (t.job_id ≡ j))
    → (j : String) (t : SingleStream) → find j (erase job_id m) ≡ some t
    → HasRequest t.stream × (t.job_id ≡ j)
erase-single job_id m all j t e = elim (Bool-cases (job_id == j)) [
  | inl g ↦ absurd (ground (arith, e, find-erase job_id j m, g))
  | inr g ↦ all j t (sym (find-erase job_id j m ∙ rw g refl) ∙ e)
]

-- A job that some user finds is found by the manager's own user.
get_job_any :
    (h : Heap) (r : Repository) (id : String) (u : User) (p : JobPtr)
    → get_job h r id u ≡ some p
    → get_job h r id (new_user false) ≡ some p
unfolding may_see is_all_users new_user
get_job_any h r id u p e =
    (get_job_lem h r id (new_user false) p).1 (((get_job_lem h r id u p).0 e).0, refl)

the_same : {A : Type 0} {x y : A} → some x ≡ some y → x ≡ y
the_same e = ground arith

only : (s t : AllStream) → HasRequest s.stream → some s ≡ some t → HasRequest t.stream
only s t f e = subst (λ (x : AllStream). HasRequest x.stream) (the_same e) f

abbrev new_all : AllStream
new_all = record { is_initialized = false; handle = none; request_users = []; stream = no_stream }

-- The operation gives a tidy manager.
abbrev GivesTidy : Option StreamManager → Type 0
GivesTidy o = (m : StreamManager) × (o ≡ some m) × IsTidy m

cancel_all_jobs_stream-IsTidy :
    (id : ℕ) (m : StreamManager) → IsTidy m → IsTidy (cancel_all_jobs_stream id m)
unfolding cancel_all_jobs_stream
cancel_all_jobs_stream-IsTidy id m tidy = elim (Option-cases m.all_jobs_stream) [
  | inl e ↦ rw (cancel_all_jobs_stream, e) tidy
  | inr (s, e) ↦ elim (Bool-cases (is_empty_stream (remove_all_request id s).stream)) [
    | inl f ↦
        rw (cancel_all_jobs_stream, e, f)
          (record { all_jobs = λ t g. absurd (ground arith); single_jobs = tidy.single_jobs })
    | inr f ↦
        rw (cancel_all_jobs_stream, e, f)
          (record {
            all_jobs = λ t g.
                only (remove_all_request id s) t
                  (filled-is_empty (remove_all_request id s).stream f) g;
            single_jobs = tidy.single_jobs;
          })
  ]
]

cancel_job_stream-IsTidy :
    (id : ℕ) (job_id : String) (m : StreamManager)
    → IsTidy m
    → IsTidy (cancel_job_stream id job_id m)
unfolding cancel_job_stream
cancel_job_stream-IsTidy id job_id m tidy = elim (Option-cases (find job_id m.active_job_streams)) [
  | inl e ↦ rw (cancel_job_stream, e) tidy
  | inr (s, e) ↦ elim (Bool-cases (is_empty_stream (on_remove_request id s.stream))) [
    | inl f ↦
        rw (cancel_job_stream, e, f)
          (record {
            all_jobs = tidy.all_jobs;
            single_jobs = erase-single job_id m.active_job_streams tidy.single_jobs;
          })
    | inr f ↦
        rw (cancel_job_stream, e, f)
          (record {
            all_jobs = tidy.all_jobs;
            single_jobs =
                insert-single job_id (record s { stream = on_remove_request id s.stream })
                  m.active_job_streams tidy.single_jobs
                  (filled-is_empty (on_remove_request id s.stream) f)
                  (tidy.single_jobs job_id s e).1;
          })
  ]
]

add_all_jobs_stream-IsTidy :
    (h : Heap) (r : Repository) (id : ℕ) (u : User) (m : StreamManager)
    → IsTidy m
    → IsTidy (add_all_jobs_stream h r id u m)
unfolding add_all_jobs_stream
add_all_jobs_stream-IsTidy h r id u m tidy = elim (Option-cases m.all_jobs_stream) [
  | inl e ↦
      rw (add_all_jobs_stream, e)
        (record {
          all_jobs = λ t g.
              only _ t
                (initialize_all-HasRequest h r (add_all_request h r id u new_all) m.notifier
                  (add_all_request-HasRequest h r id u new_all))
                g;
          single_jobs = tidy.single_jobs;
        })
  | inr (s, e) ↦
      rw (add_all_jobs_stream, e)
        (record {
          all_jobs =
              λ t g. only (add_all_request h r id u s) t (add_all_request-HasRequest h r id u s) g;
          single_jobs = tidy.single_jobs;
        })
]

open_job_stream-GivesTidy :
    (h : Heap) (r : Repository) (id : ℕ) (job_id : String) (p : JobPtr) (m : StreamManager)
    → get_job h r job_id (new_user false) ≡ some p
    → IsTidy m
    → GivesTidy (open_job_stream h r id job_id m)
unfolding open_job_stream
open_job_stream-GivesTidy h r id job_id p m e tidy =
    let s : SingleStream = record {
      job_id = job_id;
      is_initialized = false;
      handle = none;
      stream = on_add_request id no_stream;
    } in
    let (s', n, q, f, same) =
      initialize_single_lem h r p s m.notifier e (on_add_request-HasRequest id no_stream) in
    rw (open_job_stream, q)
      (
        _,
        refl,
        record {
          all_jobs = tidy.all_jobs;
          single_jobs = insert-single job_id s' m.active_job_streams tidy.single_jobs f same;
        },
      )

add_job_stream-GivesTidy :
    (h : Heap) (r : Repository) (id : ℕ) (job_id : String) (u : User) (m : StreamManager)
    → IsTidy m
    → GivesTidy (add_job_stream h r id job_id u m)
unfolding add_job_stream
add_job_stream-GivesTidy h r id job_id u m tidy = elim (Option-cases (get_job h r job_id u)) [
  | inl e ↦
      rw (add_job_stream, e)
        (_, refl, record { all_jobs = tidy.all_jobs; single_jobs = tidy.single_jobs })
  | inr (p, e) ↦ elim (Option-cases (find job_id m.active_job_streams)) [
    | inl g ↦
        rw (add_job_stream, e, g)
          (open_job_stream-GivesTidy h r id job_id p m (get_job_any h r job_id u p e) tidy)
    | inr (s, g) ↦
        let (_, filed) = tidy.single_jobs job_id s g in
        let (s', q, f, same) = add_single_request-GivesRequest h r id p s (
          subst (λ x. get_job h r x (new_user false) ≡ some p) (sym filed)
            (get_job_any h r job_id u p e)) in
        rw (add_job_stream, e, g, q)
          (
            _,
            refl,
            record {
              all_jobs = tidy.all_jobs;
              single_jobs =
                  insert-single job_id s' m.active_job_streams tidy.single_jobs f (same ∙ filed);
            },
          )
  ]
]

-- `handleStreamRequest`, on a manager whose streams all have a request and are filed under their
-- jobs, never meets a null job, and leaves such a manager: a stream that loses its last request is
-- gone.
pub handle_stream_request-IsTidy :
    (h : Heap) (r : Repository) (q : StreamRequest) (m : StreamManager)
    → IsTidy m
    → (m' : StreamManager) × (handle_stream_request h r q m ≡ some m') × IsTidy m'
unfolding handle_stream_request
handle_stream_request-IsTidy h r q m tidy = elim (Bool-cases (q.job_id == "*")) [
  | inl e ↦ elim (Bool-cases q.is_cancel) [
    | inl f ↦ rw (handle_stream_request, e, f) (_, refl, cancel_all_jobs_stream-IsTidy q.id m tidy)
    | inr f ↦
        rw (handle_stream_request, e, f)
          (_, refl, add_all_jobs_stream-IsTidy h r q.id q.user m tidy)
  ]
  | inr e ↦ elim (Bool-cases q.is_cancel) [
    | inl f ↦
        rw (handle_stream_request, e, f) (_, refl, cancel_job_stream-IsTidy q.id q.job_id m tidy)
    | inr f ↦
        rw (handle_stream_request, e, f) (add_job_stream-GivesTidy h r q.id q.job_id q.user m tidy)
  ]
]
