-- ===== src/Local/JobRepository/Loading.antt =====
-- The jobs that the local plugin has after it has loaded them.
use rstudio_launcher_plugin.Base.{
  pos, ◌≡◌, inr, true, false, ◌&&◌, not, List, [], ◌∷◌, String, string_key, nat_key, ◌==◌,
}
use rstudio_launcher_plugin.Api.Platform.{Platform}
use rstudio_launcher_plugin.Api.Parse.{get_or}
use rstudio_launcher_plugin.Api.Job.{Job, pending, state_eq, is_completed}
use rstudio_launcher_plugin.Jobs.Repository.{Heap, JobPtr}
use rstudio_launcher_plugin.Local.JobRunner.{System}

module _ {W : Type 0} (sys : System W) where
  -- A job has ended, or its process was found; and if it is pending, the process was still the
  -- sandbox that starts it.
  pub data IsCurrent (j : Job) : Type 0 where
    ended : is_completed j ≡ true → IsCurrent j
    has_process :
        (w : W) (executable : String)
        → (sys.get_process_info (get_or j.pid (pos 0)) w).0 ≡ inr executable
        → (state_eq j.status pending && not (executable == "rsandbox")) ≡ false
        → IsCurrent j

  -- Each of the jobs is current.
  pub data AreCurrent (h : Heap) : List JobPtr → Type 0 where
    no_jobs : AreCurrent h []
    and_job :
        {p : JobPtr} {ps : List JobPtr} → IsCurrent (h p) → AreCurrent h ps → AreCurrent h (p ∷ ps)
