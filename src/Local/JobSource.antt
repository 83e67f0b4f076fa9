-- ===== src/Local/JobSource.antt =====
-- plugins/Local/src/LocalJobSource.cpp: the operations on a job's process, and what the plugin says of
-- its host.
pub mod Signals
use Prim.Native.String
use rstudio_launcher_plugin.Base.{
  ℕ, ℤ, ◌⊎◌, inl, inr, Bool, true, false, not, ◌&&◌, ◌||◌, Option, none, some, List, [], ◌∷◌, ◌++◌,
  String, string_key, ◌==◌, if◌then◌else◌, concat, keep_if,
}
use rstudio_launcher_plugin.Api.Parts.{JobConfig, string_type}
use rstudio_launcher_plugin.Api.Job.{Job, State, running, killed, suspended}
use rstudio_launcher_plugin.Api.Plugin.{Control}
use rstudio_launcher_plugin.Api.Responses.{JobSourceConfiguration}
use rstudio_launcher_plugin.Jobs.Repository.{Heap, JobPtr}
use rstudio_launcher_plugin.Options.Errors.{Error}
use rstudio_launcher_plugin.Local.JobRunner.{
  System, LocalState, Signal, sig_kill, sig_cont, sig_term, sig_stop, notify,
}

module _ {W : Type 0} (sys : System W) where
  -- `signalJob`: whether the signal was sent, and the message.
  unfoldable pub signal_job :
      String → Option ℤ → Signal → String → LocalState W → (Bool × String) × LocalState W
  signal_job id none signal detail s = (
    (false, concat ("Cannot " ∷ detail ∷ " job " ∷ id ∷ " because it does not have a PID." ∷ [])),
    s,
  )
  signal_job id (some pid) signal detail s =
      let (r, w) = sys.signal_process pid signal s.world in
      (
        elim r [
          | none ↦ (true, "")
          | some e ↦ (false, concat ("Failed to " ∷ detail ∷ " job " ∷ id ∷ []))
        ],
        record s { world = w },
      )

  -- The state that an operation reports once its signal was sent.
  unfoldable pub report : Bool → Option State → JobPtr → Heap → LocalState W → Heap × LocalState W
  report false status p h s = (h, s)
  report true none p h s = (h, s)
  report true (some status) p h s = notify sys p status h s

  -- An operation that sends a signal, and reports the state that the job then has.
  unfoldable pub signal_and_notify :
      Signal → String → Option State → JobPtr → Heap → LocalState W → Control (LocalState W)
  unfolding signal_job report
  signal_and_notify signal detail status p h s =
      let (sent, s') = signal_job (h p).id (h p).pid signal detail s in
      let (h', s'') = report sent.0 status p h s' in
      record { returned = true; complete = sent.0; message = sent.1; heap = h'; source = s'' }

  -- `killJob`, `resumeJob`, `stopJob`, `suspendJob` and `cancelJob`.
  unfoldable pub kill_job : JobPtr → Heap → LocalState W → Control (LocalState W)
  unfolding signal_and_notify
  kill_job = signal_and_notify sig_kill "kill" (some killed)

  unfoldable pub resume_job : JobPtr → Heap → LocalState W → Control (LocalState W)
  unfolding signal_and_notify
  resume_job = signal_and_notify sig_cont "resume" (some running)

  unfoldable pub stop_job : JobPtr → Heap → LocalState W → Control (LocalState W)
  unfolding signal_and_notify
  stop_job = signal_and_notify sig_term "stop" none

  unfoldable pub suspend_job : JobPtr → Heap → LocalState W → Control (LocalState W)
  unfolding signal_and_notify
  suspend_job = signal_and_notify sig_stop "suspend" (some suspended)

  unfoldable pub cancel_job : JobPtr → Heap → LocalState W → Control (LocalState W)
  cancel_job p h s = record {
    returned = false;
    complete = false;
    message = "The RStudio Local Launcher Plugin does not support canceling jobs.";
    heap = h;
    source = s;
  }
