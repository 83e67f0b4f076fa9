-- ===== src/Api/Dispatch/Control.antt =====
-- A message that asks for an operation on a job, from its text to the call of the job source.
use rstudio_launcher_plugin.Base.{◌≡◌, ◌⊎◌, true, some}
use rstudio_launcher_plugin.Api.Platform.{Platform}
use rstudio_launcher_plugin.Api.Messages.{Operation}
use rstudio_launcher_plugin.Api.Plugin.{Plugin, JobSource, Control}
use rstudio_launcher_plugin.Api.Plugin.Answers.{Answers, Calls}
use rstudio_launcher_plugin.Api.Request.{Request}
use rstudio_launcher_plugin.Api.Dispatch.{Api}
use rstudio_launcher_plugin.Jobs.Repository.{JobPtr, Heap, get_job}
use rstudio_launcher_plugin.Api.Job.{State, state_eq}

module _ {S Network Caps : Type 0} (p : Platform) (source : JobSource S Network Caps) where
  -- What becomes of a control request: one error response and no more, or the call of the job source's
  -- method for the operation, with a job that its user may see and whose status the operation needs.
  pub IsControlled : Request → Operation → Plugin S Network Caps → Plugin S Network Caps → Type 0
  IsControlled r op s s' =
      Answers r.id s s' × (s'.heap ≡ s.heap) × (s'.source ≡ s.source)
      ⊎ (j : JobPtr) × (status : State) × (method : (JobPtr → Heap → S → Control S)) × (get_job
            s.heap s.pruner.job_repo r.job_id r.user
          ≡ some j)
        × Calls p.texts source op status method
        × (state_eq (s.heap j).status status ≡ true)
        × (s'.heap ≡ (method j s.heap s.source).heap)
        × (s'.source ≡ (method j s.heap s.source).source)
        × (s'.sent ≡ s.sent)
