-- ===== src/Examples/Streams.antt =====
-- sdk/src/api/stream: streams with few requests.
use rstudio_launcher_plugin.Base.{
  ℕ, suc, nat_key, string_key, none, some, true, false, if◌then◌else◌, ◌≡◌, refl, arith, List, [],
  ◌∷◌, ◌++◌, String, find, distinct, has_key,
}
use rstudio_launcher_plugin.Api.Stream.Sequences.{MultiStream}
use rstudio_launcher_plugin.Api.Stream.Sequences.Numbers.{
  Call, add, remove, send_every, send_some, run, run-delivered,
}
use rstudio_launcher_plugin.Api.Stream.Sequences.Entries.{delivered, count_from}
use rstudio_launcher_plugin.Api.Job.{Job}
use rstudio_launcher_plugin.Api.Messages.{StreamRequest}
use rstudio_launcher_plugin.Api.Stream.Sequences.Numbers.{Registered}
use rstudio_launcher_plugin.Api.Stream.JobStatus.{
  AllStream, StreamManager, on_all_update, handle_stream_request,
}
use rstudio_launcher_plugin.Api.Stream.JobStatus.Visibility.{gets, on_all_update-delivered}
use rstudio_launcher_plugin.Api.Stream.JobStatus.Cleanup.{IsTidy, handle_stream_request-IsTidy}
use rstudio_launcher_plugin.Examples.Jobs.{alice, bob, heap, repository, notifier}
use rstudio_launcher_plugin.Api.Stream.Resource.{UtilData, ResourceStream, new_resource_stream}
use rstudio_launcher_plugin.Api.Stream.Resource.Reports.{Report, data_report, join}
use rstudio_launcher_plugin.Api.Stream.Output.{stdout, OutputSource, OutputManager, complete}
use rstudio_launcher_plugin.Api.Stream.Output.Callbacks as Callbacks
use rstudio_launcher_plugin.Api.Stream.Output.Ending.{on_complete_last}
use rstudio_launcher_plugin.Api.Stream.Output.Callbacks.{Event, on_output, on_complete, sent_for}
use rstudio_launcher_plugin.Api.Stream.ResourceManager.{
  ResourceSource, ActiveStream, ResourceManager,
}

abbrev stream : MultiStream String
stream = record { sequences = (3, 4) ∷ []; sent = [] }

abbrev calls : List (Call String)
calls =
    send_every "one"
    ∷ remove 3
    ∷ send_some (3 ∷ 7 ∷ []) refl "two"
    ∷ send_some (3 ∷ []) refl "none"
    ∷ []

run-delivered_example :
    (n : ℕ) × (delivered 7 (run (add 7 ∷ calls) stream).sent
      ≡ delivered {A = String} 7 [] ++ count_from 1 n)
unfolding find distinct has_key
run-delivered_example = run-delivered 7 calls stream refl refl refl (omega arith)

abbrev all_jobs : AllStream
all_jobs = record {
  is_initialized = true;
  handle = none;
  request_users = (7, alice) ∷ (8, bob) ∷ [];
  stream = record { sequences = (7, 1) ∷ (8, 4) ∷ []; sent = [] };
}

Registered-seven : Registered 7 1 all_jobs.stream
unfolding find distinct has_key
Registered-seven = record { is_next = refl; is_distinct = refl }

on_all_update-delivered_example :
    let s' = on_all_update heap 0 all_jobs in
    (delivered 7 s'.stream.sent
      ≡ delivered {A = Job} 7 [] ++ (if gets alice (heap 0) then 1 ∷ [] else []))
    × Registered 7 (if gets alice (heap 0) then 2 else 1) s'.stream
unfolding find distinct has_key
on_all_update-delivered_example =
    on_all_update-delivered heap 0 7 1 alice all_jobs refl refl Registered-seven (omega arith)

abbrev pub manager : StreamManager
manager = record {
  active_job_streams = [];
  all_jobs_stream = none;
  notifier = notifier;
  errors = [];
}

pub manager-IsTidy : IsTidy manager
unfolding find
manager-IsTidy = record {
  all_jobs = λ s e. absurd (ground arith);
  single_jobs = λ j s e. absurd (ground arith);
}

abbrev opening : StreamRequest
opening = record { id = 9; user = alice; job_id = "a"; is_cancel = false }

handle_stream_request-IsTidy_example :
    (m' : StreamManager) × (handle_stream_request heap repository opening manager ≡ some m')
    × IsTidy m'
handle_stream_request-IsTidy_example =
    handle_stream_request-IsTidy heap repository opening manager manager-IsTidy

abbrev measured : UtilData ℕ
measured = record {
  cpu_percent = some 50;
  cpu_seconds = none;
  resident_mem = some 9;
  virtual_mem = none;
}

abbrev reports : List (Report ℕ)
reports = join 1 ∷ data_report measured ∷ []

abbrev ended : ResourceStream ℕ
ended = record {
  is_complete = true;
  last_data = measured;
  stream = record { sequences = (1, 2) ∷ []; sent = [] };
}

abbrev pub output_source : OutputSource ℕ
output_source = record {
  create_output_stream = λ id type p n. ((none, true), suc n);
  start = λ id n. (none, suc n);
  stop = λ id n. suc n;
}

abbrev pub outputs : OutputManager ℕ
outputs = record {
  active_output_streams =
      (7, record { handle = record { job_id = "a"; connection = 1 }; is_started = true }) ∷ [];
  notifier = notifier;
  source = 0;
  sent = [];
}

on_complete_last_example :
    sent_for 7
      (Callbacks.run output_source
        (on_complete 7 3 ∷ on_output 7 4 "late" stdout ∷ [])
        outputs).sent
    ≡ elim (find 7 outputs.active_output_streams) [
      | none ↦ sent_for 7 []
      | some s ↦ sent_for 7 [] ++ complete 7 3 ∷ []
    ]
on_complete_last_example =
    on_complete_last output_source (on_output 7 4 "late" stdout ∷ []) 7 3 outputs

-- A job source that counts its calls.
abbrev pub resource_source : ResourceSource ℕ
resource_source = record {
  create_resource_stream = λ p n. (none, suc n);
  initialize = λ id n. (none, suc n);
}

abbrev watched : ActiveStream ℕ
watched = record {
  stream = new_resource_stream;
  sub_handle = record { job_id = "b"; connection = 1 };
  is_initialized = true;
}

abbrev pub resources : ResourceManager ℕ ℕ
resources = record {
  active_streams = ("b", watched) ∷ [];
  notifier = notifier;
  source = 0;
  closed = [];
  errors = [];
}
