-- ===== src/Local/JobRunner/Lifecycle.antt =====
-- A job's state as its process is watched and ends.
use rstudio_launcher_plugin.Base.{
  ℕ, ℤ, ◌≡◌, ◌<◌, ◌⊎◌, inl, inr, refl, arith, Bool, true, false, ◌||◌, none, some, List, [], ◌∷◌,
  string_key, nat_key, if◌then◌else◌, ltb, Bool-cases, ==_refl, Option-cases,
}
use rstudio_launcher_plugin.Api.Job.{
  Job, State, pending, killed, finished, running, state_eq, state_eq_iff,
}
use rstudio_launcher_plugin.Jobs.Repository.{Heap, JobPtr}
use rstudio_launcher_plugin.Jobs.Notifier.{Update, update_job, is_stale, write_update}
use rstudio_launcher_plugin.Local.JobRunner.{
  System, LocalState, on_process_watch, on_job_exit, notify, set_job,
}

-- A local job that is over.
abbrev pub has_ended : State → Bool
has_ended s = state_eq s killed || state_eq s finished

set_job_self : (p : JobPtr) (j : Job) (h : Heap) → set_job p j h p ≡ j
unfolding set_job
set_job_self p j h = rw (==_refl p) refl

module _ {W : Type 0} (sys : System W) where
  -- What `updateJob` makes of a job at a time.
  abbrev pub updated : State → ℕ → Job → Job
  updated status t j =
      let u : Update = record { new_status = status; message = ""; invocation_time = t } in
      if is_stale j u then j else write_update u j

  pub notify-updated :
      (p : JobPtr) (status : State) (h : Heap) (s : LocalState W)
      → (notify sys p status h s).0 p ≡ updated status (sys.time s.world).0 (h p)
  unfolding notify update_job
  notify-updated p status h s =
      let u : Update = record {
        new_status = status;
        message = "";
        invocation_time = (sys.time s.world).0;
      } in
      elim (Bool-cases (is_stale (h p) u)) [
        | inl e ↦ rw (e, update_job) (set_job_self p (h p) h)
        | inr e ↦ rw (e, update_job) (set_job_self p (write_update u (h p)) h)
      ]

  notify-world :
      (p : JobPtr) (status : State) (h : Heap) (s : LocalState W)
      → (notify sys p status h s).1.world ≡ (sys.time s.world).1
  unfolding notify update_job
  notify-world p status h s = ground arith

  -- The job is older than a time.
  abbrev pub is_before : Job → ℕ → Bool
  is_before j t = elim j.last_update_time [ none ↦ true | some u ↦ ltb u t ]

  abbrev exited : ℤ → JobPtr → Heap → Job
  exited exit_code p h = record (h p) { exit_code = some exit_code }

  on_job_exit-killed :
      (exit_code : ℤ) (p : JobPtr) (h : Heap) (s : LocalState W)
      → state_eq (h p).status killed ≡ true
      → (on_job_exit sys exit_code p h s).0 p
        ≡ record (exited exit_code p h) { last_update_time = some (sys.time s.world).0 }
  unfolding on_job_exit
  on_job_exit-killed exit_code p h s e =
      rw (e, set_job_self p (exited exit_code p h) h)
        (set_job_self p _ (set_job p (exited exit_code p h) h))

  on_job_exit-pending :
      (exit_code : ℤ) (p : JobPtr) (h : Heap) (s : LocalState W)
      → state_eq (h p).status killed ≡ false
      → state_eq (h p).status pending ≡ true
      → (on_job_exit sys exit_code p h s).0 p
        ≡ updated finished
            (sys.time (sys.time s.world).1).0
            (updated running (sys.time s.world).0 (exited exit_code p h))
  unfolding on_job_exit
  on_job_exit-pending exit_code p h s e f =
      let h' = set_job p (exited exit_code p h) h in
      rw (e, f)
        (rw
          (
            notify-updated p finished (notify sys p running h' s).0 (notify sys p running h' s).1,
            notify-world p running h' s,
            notify-updated p running h' s,
            set_job_self p (exited exit_code p h) h,
          )
          refl)

  on_job_exit-started :
      (exit_code : ℤ) (p : JobPtr) (h : Heap) (s : LocalState W)
      → state_eq (h p).status killed ≡ false
      → state_eq (h p).status pending ≡ false
      → (on_job_exit sys exit_code p h s).0 p
        ≡ updated finished (sys.time s.world).0 (exited exit_code p h)
  unfolding on_job_exit
  on_job_exit-started exit_code p h s e f =
      let h' = set_job p (exited exit_code p h) h in
      rw (e, f) (rw (notify-updated p finished h' s, set_job_self p (exited exit_code p h) h) refl)

  updated-later :
      (status : State) (t : ℕ) (j : Job)
      → is_before j t ≡ true
      → updated status t j
        ≡ record j { last_update_time = some t; status = status; status_message = "" }
  unfolding is_stale write_update
  updated-later status t j h = rw (fresh (Option-cases j.last_update_time)) refl
    where
      fresh :
          (j.last_update_time ≡ none) ⊎ ((u : ℕ) × (j.last_update_time ≡ some u))
          → is_stale j (record { new_status = status; message = ""; invocation_time = t }) ≡ false
      fresh (inl e) = rw e refl
      fresh (inr (u, e)) = rw e (ground (arith, rw e at h))

  -- What may still happen to a job that has ended.
  pub data Event : Type 0 where
    exit_event : ℤ → Event
    watch_event : ℕ → Event

  pub run_events : List Event → JobPtr → Heap → LocalState W → Heap × LocalState W
  run_events [] p h s = (h, s)
  run_events (exit_event exit_code ∷ events) p h s =
      let (h', s') = on_job_exit sys exit_code p h s in run_events events p h' s'
  run_events (watch_event count ∷ events) p h s =
      let (h', s') = on_process_watch sys count p h s in run_events events p h' s'

  on_process_watch-ended :
      (count : ℕ) (p : JobPtr) (h : Heap) (s : LocalState W)
      → has_ended (h p).status ≡ true
      → (on_process_watch sys count p h s).0 ≡ h
  unfolding on_process_watch
  on_process_watch-ended count p h s e = elim (Bool-cases (ltb 100 count)) [
    | inl f ↦ rw f refl
    | inr f ↦ rw (f, e) refl
  ]

  on_job_exit-ended :
      (exit_code : ℤ) (p : JobPtr) (h : Heap) (s : LocalState W)
      → has_ended (h p).status ≡ true
      → has_ended ((on_job_exit sys exit_code p h s).0 p).status ≡ true
  unfolding write_update
  on_job_exit-ended exit_code p h s e = elim (Bool-cases (state_eq (h p).status killed)) [
    | inl k ↦ rw (on_job_exit-killed exit_code p h s k) e
    | inr k ↦
        let f : (h p).status ≡ finished = (state_eq_iff (h p).status finished).0 (ground arith) in
        rw (on_job_exit-started exit_code p h s k (rw f refl)) (kept f)
  ]
    where
      kept :
          (h p).status ≡ finished
          → has_ended (updated finished (sys.time s.world).0 (exited exit_code p h)).status ≡ true
      kept f =
          let u : Update = record {
            new_status = finished;
            message = "";
            invocation_time = (sys.time s.world).0;
          } in
          elim (Bool-cases (is_stale (exited exit_code p h) u)) [
            | inl st ↦ rw st e
            | inr st ↦ rw st refl
          ]

  -- A local job that is killed or finished stays so, whatever exits and looks at its process follow.
  pub run_events-has_ended :
      (events : List Event) (p : JobPtr) (h : Heap) (s : LocalState W)
      → has_ended (h p).status ≡ true
      → has_ended ((run_events events p h s).0 p).status ≡ true
  unfolding run_events
  run_events-has_ended [] p h s e = e
  run_events-has_ended (exit_event exit_code ∷ events) p h s e =
      run_events-has_ended events p (on_job_exit sys exit_code p h s).0
        (on_job_exit sys exit_code p h s).1 (on_job_exit-ended exit_code p h s e)
  run_events-has_ended (watch_event count ∷ events) p h s e =
      run_events-has_ended events p (on_process_watch sys count p h s).0
        (on_process_watch sys count p h s).1 (rw (on_process_watch-ended count p h s e) e)

  -- When a job's process exits, by a clock that goes on from reading to reading, a job that was killed
  -- stays so, and any other ends as finished; the exit code is kept.
  pub on_job_exit-ends :
      (exit_code : ℤ) (p : JobPtr) (h : Heap) (s : LocalState W)
      → is_before (h p) (sys.time s.world).0 ≡ true
      → (sys.time s.world).0 < (sys.time (sys.time s.world).1).0
      → let j = (on_job_exit sys exit_code p h s).0 p in
        (j.status ≡ (if state_eq (h p).status killed then killed else finished))
        × (j.exit_code ≡ some exit_code)
  on_job_exit-ends exit_code p h s old later = elim (Bool-cases (state_eq (h p).status killed)) [
    | inl e ↦
        rw (on_job_exit-killed exit_code p h s e, e) ((state_eq_iff (h p).status killed).0 e, refl)
    | inr e ↦ elim (Bool-cases (state_eq (h p).status pending)) [
      | inl f ↦
          rw
            (
              on_job_exit-pending exit_code p h s e f,
              e,
              updated-later running (sys.time s.world).0 (exited exit_code p h) old,
              updated-later finished (sys.time (sys.time s.world).1).0
                  (record (exited exit_code p h) {
                    last_update_time = some (sys.time s.world).0;
                    status = running;
                    status_message = "";
                  })
                  (ground arith),
            )
            (refl, refl)
      | inr f ↦
          rw
            (
              on_job_exit-started exit_code p h s e f,
              e,
              updated-later finished (sys.time s.world).0 (exited exit_code p h) old,
            )
            (refl, refl)
    ]
  ]

  -- When the process of a pending job exits and the clock gives the same time twice, the job stays in
  -- the running state: the update that it has finished is dropped.
  pub on_job_exit-same_time :
      (exit_code : ℤ) (p : JobPtr) (h : Heap) (s : LocalState W)
      → (h p).status ≡ pending
      → is_before (h p) (sys.time s.world).0 ≡ true
      → (sys.time s.world).0 ≡ (sys.time (sys.time s.world).1).0
      → ((on_job_exit sys exit_code p h s).0 p).status ≡ running
  unfolding is_stale
  on_job_exit-same_time exit_code p h s waiting old same =
      rw
        (
          on_job_exit-pending exit_code p h s (rw waiting refl) (rw waiting refl),
          updated-later running (sys.time s.world).0 (exited exit_code p h) old,
        )
        (ground arith)
