-- ===== src/Examples/Handlers.antt =====
-- sdk/src/api/AbstractPluginApi.cpp with a job source that counts calls.
use rstudio_launcher_plugin.Base.{
  ℕ, suc, ◌≡◌, ◌≢◌, ◌↔◌, inr, refl, true, false, ◌&&◌, none, some, List, [], ◌∷◌, String,
  string_key, nat_key, ◌==◌, pos, contains, if◌then◌else◌, find, values,
}
use rstudio_launcher_plugin.Api.User.{is_empty}
use rstudio_launcher_plugin.Api.Platform.{TextAlgorithms}
use rstudio_launcher_plugin.Api.Messages.{
  kill, BootstrapRequest, SubmitJobRequest, JobStateRequest, ControlJobRequest, JobIdRequest,
  UserRequest,
}
use rstudio_launcher_plugin.Api.Plugin.{
  Plugin, JobSource, Control, handle_bootstrap, handle_submit_job_request, handle_get_job_request,
  handle_get_network_request, handle_get_cluster_info, requested_jobs,
}
use rstudio_launcher_plugin.Api.Queries.{Filter, passes}
use rstudio_launcher_plugin.Api.Plugin.Answers.{Answers, handlers-Answers}
use rstudio_launcher_plugin.Api.Plugin.Access.{requested_jobs_lem, handle_submit_job_request-keeps}
use rstudio_launcher_plugin.Jobs.Repository.{Heap, JobPtr, may_see}
use rstudio_launcher_plugin.Examples.Jobs.{alice, heap, pruner}

abbrev controlled : JobPtr → Heap → ℕ → Control ℕ
controlled p h n = record {
  returned = true;
  complete = true;
  message = "";
  heap = h;
  source = suc n;
}

abbrev pub job_source : JobSource ℕ String ℕ
job_source = record {
  initialize = λ n. (none, suc n);
  on_initialize = λ n. (none, suc n);
  load_jobs = λ n h. (inr (0 ∷ 1 ∷ []), h, suc n);
  submit_job = λ p h n. ((none, false), h, (if is_empty (h p).user then suc n else n));
  kill_job = controlled;
  suspend_job = controlled;
  resume_job = controlled;
  stop_job = controlled;
  cancel_job = controlled;
  get_network_info = λ p h n. inr "node";
  get_configuration = λ u n. inr n;
}

abbrev texts : TextAlgorithms
texts = record {
  trim_copy = λ s. s;
  iequals = λ s t. ◌==◌ {A = String} s t;
  join = λ ss sep. sep;
  to_string = λ n. "3";
  parse_time = λ s. none;
}

abbrev pub plugin : Plugin ℕ String ℕ
plugin = record { pruner = pruner; heap = heap; source = 0; sent = [] }

abbrev bootstrap : BootstrapRequest
bootstrap = record { id = 1; major = pos 3; minor = pos 0; patch = pos 0 }

abbrev submission : SubmitJobRequest
submission = record { id = 2; user = alice; job = 0 }

abbrev query : JobStateRequest
query = record {
  id = 3;
  user = alice;
  job_id = "*";
  start_time = none;
  end_time = none;
  field_set = none;
  tag_set = some ("r" ∷ []);
  status_set = none;
}

abbrev killing : ControlJobRequest
killing = record { id = 4; user = alice; job_id = "a"; operation = kill }

abbrev network : JobIdRequest
network = record { id = 5; user = alice; job_id = "a" }

abbrev cluster : UserRequest
cluster = record { id = 6; user = alice }

handlers-Answers_example :
    Answers 1 plugin (handle_bootstrap texts job_source 50 bootstrap plugin)
    × Answers 2 plugin (handle_submit_job_request texts job_source submission plugin)
    × Answers 3 plugin (handle_get_job_request texts job_source query plugin)
    × Answers 5 plugin (handle_get_network_request texts job_source network plugin)
    × Answers 6 plugin (handle_get_cluster_info texts job_source cluster plugin)
handlers-Answers_example =
    handlers-Answers texts job_source 50 bootstrap submission query network cluster plugin

abbrev batch : Filter
batch = record { from = some 5; to = none; tags = some ("r" ∷ []); statuses = none }

requested_jobs_lem_example :
    (◌≡◌ {A = String} "*" "*"
      → (ps : List JobPtr) × (requested_jobs texts job_source query batch plugin ≡ some ps)
        × (contains ps 0 ≡ (
            contains (values pruner.job_repo.job_map) 0
            && may_see heap alice 0
            && passes batch (heap 0))))
    × (◌≢◌ {A = String} "*" "*"
        → (requested_jobs texts job_source query batch plugin ≡ some (0 ∷ []))
          ↔ ((find "*" pruner.job_repo.job_map ≡ some 0) × (may_see heap alice 0 ≡ true)))
requested_jobs_lem_example = requested_jobs_lem texts job_source query batch plugin 0

-- This source counts the submitted jobs that have no user.
no_empty_user :
    (p : JobPtr) (h : Heap) (n : ℕ)
    → is_empty (h p).user ≡ false
    → n ≡ 0
    → (job_source.submit_job p h n).2 ≡ 0
no_empty_user p h n e l = rw e l

handle_submit_job_request-keeps_example :
    (handle_submit_job_request texts job_source submission plugin).source ≡ 0
handle_submit_job_request-keeps_example =
    handle_submit_job_request-keeps texts job_source (λ n. n ≡ 0) no_empty_user submission plugin
      refl
