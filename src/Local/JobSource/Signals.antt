-- ===== src/Local/JobSource/Signals.antt =====
-- What the operations do to a job and to the other jobs.
use rstudio_launcher_plugin.Base.{
  ℕ, ℤ, ◌≡◌, ◌⊎◌, inl, inr, refl, Bool, true, false, Option, none, some, String, nat_key, ◌==◌,
  Option-cases,
}
use rstudio_launcher_plugin.Api.Job.{Job, State}
use rstudio_launcher_plugin.Options.Errors.{Error}
use rstudio_launcher_plugin.Jobs.Repository.{Heap, JobPtr}
use rstudio_launcher_plugin.Local.JobRunner.{System, LocalState, Signal, notify, set_job}
use rstudio_launcher_plugin.Local.JobRunner.Lifecycle.{updated, notify-updated}
use rstudio_launcher_plugin.Local.JobSource.{signal_job, report, signal_and_notify}

module _ {W : Type 0} (sys : System W) where
  notify-others :
      (p q : JobPtr) (status : State) (h : Heap) (s : LocalState W)
      → (q == p) ≡ false
      → (notify sys p status h s).0 q ≡ h q
  unfolding notify set_job
  notify-others p q status h s d = rw d refl

  -- The job after an operation whose signal was sent when the clock shows a time.
  abbrev pub reported : Option State → ℕ → Job → Job
  reported none t j = j
  reported (some status) t j = updated sys status t j

  -- There is no process, or its signal failed.
  abbrev pub Unsent : Option ℤ → Signal → LocalState W → Type 0
  Unsent o signal s =
      (o ≡ none)
      ⊎ ((pid : ℤ) × (e : Error) × (o ≡ some pid)
          × ((sys.signal_process pid signal s.world).0 ≡ some e))

  signal_job-outcome :
      (id : String) (o : Option ℤ) (signal : Signal) (detail : String) (s : LocalState W)
      → let r = signal_job sys id o signal detail s in
        ((r.0.0 ≡ false) × Unsent o signal s)
        ⊎ ((pid : ℤ) × (o ≡ some pid)
            × ((sys.signal_process pid signal s.world).0 ≡ none)
            × (r.0.0 ≡ true)
            × (r.1.world ≡ (sys.signal_process pid signal s.world).1))
  unfolding signal_job
  signal_job-outcome id none signal detail s = inl (refl, inl refl)
  signal_job-outcome id (some pid) signal detail s =
      elim (Option-cases (sys.signal_process pid signal s.world).0) [
        | inl e ↦ inr (pid, refl, e, rw e refl, refl)
        | inr (err, e) ↦ inl (rw e refl, inr (pid, err, refl, e))
      ]

  report-reported :
      (status : Option State) (p : JobPtr) (h : Heap) (s : LocalState W)
      → (report sys true status p h s).0 p ≡ reported status (sys.time s.world).0 (h p)
  unfolding report
  report-reported none p h s = refl
  report-reported (some st) p h s = notify-updated sys p st h s

  report-others :
      (sent : Bool) (status : Option State) (p q : JobPtr) (h : Heap) (s : LocalState W)
      → (q == p) ≡ false
      → (report sys sent status p h s).0 q ≡ h q
  unfolding report
  report-others false status p q h s d = refl
  report-others true none p q h s d = refl
  report-others true (some st) p q h s d = notify-others p q st h s d

  -- An operation either is not complete and changes no job, and the job has no process ID or its
  -- signal failed; or it is complete, its signal was sent to the job's process, and the job is what the
  -- notifier makes of the reported state. The other jobs never change.
  pub signal_and_notify-outcome :
      (signal : Signal) (detail : String) (status : Option State) (p : JobPtr) (h : Heap)
      (s : LocalState W)
      → let c = signal_and_notify sys signal detail status p h s in
        (((c.complete ≡ false) × (c.heap ≡ h) × Unsent (h p).pid signal s)
          ⊎ ((pid : ℤ) × ((h p).pid ≡ some pid)
              × ((sys.signal_process pid signal s.world).0 ≡ none)
              × (c.complete ≡ true)
              × (c.heap p
                  ≡ reported status (sys.time (sys.signal_process pid signal s.world).1).0 (h p))))
        × ((q : JobPtr) → (q == p) ≡ false → c.heap q ≡ h q)
  unfolding signal_and_notify
  signal_and_notify-outcome signal detail status p h s =
      let r = signal_job sys (h p).id (h p).pid signal detail s in
      (
        elim (signal_job-outcome (h p).id (h p).pid signal detail s) [
          | inl (e, unsent) ↦ inl (e, rw (e, report) refl, unsent)
          | inr (pid, e, f, g, k) ↦
              inr (pid, e, f, g, rw (g, report-reported status p h r.1, k) refl)
        ],
        λ q d. report-others r.0.0 status p q h r.1 d,
      )
