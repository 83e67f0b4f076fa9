-- ===== src/Examples/Local.antt =====
-- A job of the local plugin, on a host whose world is its clock.
use rstudio_launcher_plugin.Base.{
  find, ℕ, ℤ, pos, ◌+◌, ◌≡◌, ◌⊎◌, inl, inr, refl, arith, true, false, none, some, [], ◌∷◌,
  string_key, nat_key, ◌==◌, if◌then◌else◌, text_less,
}
use rstudio_launcher_plugin.Json.Read.{insert_elements, insert_element}
use rstudio_launcher_plugin.Api.Parts.{string_type}
use rstudio_launcher_plugin.Api.Parts.RoundTrip.{
  container_fits, exposed_port_fits, job_config_fits, placement_constraint_fits,
  resource_limit_fits, source_fits,
}
use rstudio_launcher_plugin.Api.Platform.{in_int}
use rstudio_launcher_plugin.Api.Job.{Job, pending, running, killed, finished, state_eq}
use rstudio_launcher_plugin.Api.Job.ToJson.{job_to_json}
use rstudio_launcher_plugin.Api.Job.RoundTrip.Whole.{
  IsWritable, somebody, runs_one, job_from_json-job_to_json,
}
use rstudio_launcher_plugin.Jobs.Repository.{Heap, JobPtr}
use rstudio_launcher_plugin.Local.Processes.{
  Decryption, ProcessOptions, populate_process_options, get_job_config_value, decrypt_password,
  copy_mounts,
}
use rstudio_launcher_plugin.Local.Processes.Populated.{populate_process_options-password}
use rstudio_launcher_plugin.Local.JobRunner.{System, LocalState, on_job_exit, sig_kill}
use rstudio_launcher_plugin.Local.JobRunner.Watching.{watch, Ends, watch-Ends}
use rstudio_launcher_plugin.Local.JobRunner.Lifecycle.{
  has_ended, exit_event, watch_event, run_events, run_events-has_ended, on_job_exit-ends,
  on_job_exit-same_time,
}
use rstudio_launcher_plugin.Local.JobRepository.{Files, Paths, read_job_from_file}
use rstudio_launcher_plugin.Options.Errors.{error, success}
use rstudio_launcher_plugin.Local.JobSource.{signal_and_notify}
use rstudio_launcher_plugin.Local.JobSource.Signals.{Unsent, reported, signal_and_notify-outcome}
use rstudio_launcher_plugin.Examples.Jobs.{alice, job_of}
use rstudio_launcher_plugin.Examples.Requests.{platform, platform-IsDocumented, job}

abbrev local_job : Job
local_job = record job {
  mounts = [];
  config =
      record { name = "pamProfile"; value_type = some string_type; value = "login" }
      ∷ record { name = "encryptedPassword"; value_type = some string_type; value = "c2VjcmV0" }
      ∷ [];
}

local_job-IsWritable : IsWritable platform local_job
unfolding container_fits exposed_port_fits job_config_fits placement_constraint_fits
    resource_limit_fits source_fits runs_one insert_elements insert_element text_less in_int
local_job-IsWritable = record {
  runs = refl;
  named = somebody refl refl refl;
  queues_set = refl;
  tags_set = refl;
  exit_code_fits = refl;
  pid_fits = refl;
  container = refl;
  config = refl;
  ports = refl;
  mounts = refl;
  constraints = refl;
  limits = refl;
}

abbrev decryption : Decryption
decryption = record { decrypt_and_base64_decode = λ t key iv. inr t; write = λ v. "" }

abbrev process_options : ProcessOptions
process_options = record {
  pam_profile = "login";
  password = "";
  mounts = [];
  arguments = "-x" ∷ [];
  environment = ("LANG", "C") ∷ [];
  is_shell_command = false;
  executable = "/bin/R";
  run_as_user = alice;
  standard_input = "";
  standard_error_file = "/tmp/err";
  standard_output_file = "/tmp/out";
  working_directory = "/home/alice";
}

populated : populate_process_options decryption local_job "key" ≡ inr process_options
unfolding populate_process_options get_job_config_value decrypt_password copy_mounts
populated = refl

populate_process_options-password_example : process_options.password ≡ ""
unfolding get_job_config_value
populate_process_options-password_example =
    populate_process_options-password decryption local_job "key" "c2VjcmV0" process_options refl
      populated

-- A host whose clock goes on by the given step, and whose processes are ready at once.
abbrev host_of : ℕ → System ℕ
host_of step = record {
  decryption = decryption;
  time = λ w. (w, w + step);
  random_base64 = λ w. (inr "AAAA/w==", w);
  ensure_user_directory = λ directory u w. (none, w);
  complete_child_path = λ directory name. name;
  run_async_process = λ options w. (inr (some (pos 42)), w);
  signal_process = λ pid signal w. (none, w);
  get_process_info = λ pid w. (inr "R", w);
}

abbrev state : LocalState ℕ
state = record {
  world = 100;
  notifier = record { all_jobs_signal = []; job_signal_map = []; next_connection = 0 };
  called = [];
  watch_events = [];
  started = [];
  saved = [];
  hostname = "node";
  key = "key";
  save_unspecified_output = false;
  output_root = "";
}

abbrev waiting : Heap
waiting p = job_of "a" alice pending (some 10)

abbrev over : Heap
over p = job_of "a" alice finished (some 10)

signal_and_notify-outcome_example :
    let c = signal_and_notify (host_of 1) sig_kill "kill" (some killed) 0 waiting state in
    (((c.complete ≡ false) × (c.heap ≡ waiting) × Unsent (host_of 1) (waiting 0).pid sig_kill state)
      ⊎ ((pid : ℤ) × ((waiting 0).pid ≡ some pid)
          × (((host_of 1).signal_process pid sig_kill 100).0 ≡ none)
          × (c.complete ≡ true)
          × (c.heap 0
              ≡ reported
                  (host_of 1)
                  (some killed)
                  ((host_of 1).time ((host_of 1).signal_process pid sig_kill 100).1).0
                  (waiting 0))))
    × ((q : JobPtr) → (q == 0) ≡ false → c.heap q ≡ waiting q)
signal_and_notify-outcome_example =
    signal_and_notify-outcome (host_of 1) sig_kill "kill" (some killed) 0 waiting state

run_events-has_ended_example :
    has_ended
      ((run_events (host_of 1) (watch_event 1 ∷ exit_event (pos 0) ∷ []) 0 over state).0 0).status
    ≡ true
run_events-has_ended_example =
    run_events-has_ended (host_of 1) (watch_event 1 ∷ exit_event (pos 0) ∷ []) 0 over state refl

on_job_exit-ends_example :
    let j = (on_job_exit (host_of 1) (pos 3) 0 waiting state).0 0 in
    (j.status ≡ (if state_eq pending killed then killed else finished))
    × (j.exit_code ≡ some (pos 3))
on_job_exit-ends_example = on_job_exit-ends (host_of 1) (pos 3) 0 waiting state refl (omega arith)

on_job_exit-same_time_example :
    ((on_job_exit (host_of 0) (pos 3) 0 waiting state).0 0).status ≡ running
on_job_exit-same_time_example =
    on_job_exit-same_time (host_of 0) (pos 3) 0 waiting state refl refl refl

abbrev watched : LocalState ℕ
watched = record state { watch_events = ("a", (1, 100000)) ∷ []; started = ("a", 1) ∷ [] }

watch-Ends_example : Ends (host_of 1) "a" waiting (watch (host_of 1) 101 0 "a" waiting watched)
unfolding find
watch-Ends_example = watch-Ends (host_of 1) 101 1 0 waiting watched refl (omega arith) (omega arith)

-- A host whose processes are gone, with one file of a job.
abbrev restarted : System ℕ
restarted = record (host_of 1) {
  get_process_info = λ pid w. (inl (error "SystemError" 2 "" [] success), w);
}

abbrev job_files : Files ℕ
job_files = record {
  ensure_directory = λ directory w. (none, w);
  change_file_mode = λ directory mode w. (none, w);
  get_children = λ directory w. (inr ("notes" ∷ "a.job" ∷ []), w);
  get_extension = λ file. if file == "a.job" then ".job" else "";
  is_within = λ file directory. false;
  read_file_into_string = λ file w. (inr "{}", w);
  parse = λ text. inr (job_to_json platform local_job);
  remove_if_exists = λ file w. (none, w);
  run_remove = λ u file w. w;
}

abbrev paths : Paths
paths = record { jobs_root = "jobs"; jobs = "jobs/node"; output_root = "output" }

read_a_job : read_job_from_file restarted job_files platform "a.job" 100 ≡ (some local_job, 101)
unfolding read_job_from_file
read_a_job =
    rw (job_from_json-job_to_json platform platform-IsDocumented 100 local_job local_job-IsWritable)
      refl
