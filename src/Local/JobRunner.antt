-- ===== src/Local/JobRunner.antt =====
-- plugins/Local/src/LocalJobRunner.cpp: how a job's process is started, watched and seen to end. The
-- system is a record of functions on a world of its own; a timer is the entry of its job.
pub mod Watching
pub mod Lifecycle
use Prim.Native.Char.{code}
use Prim.Native.String
use rstudio_launcher_plugin.Base.{
  ℕ, ℤ, pos, ◌+◌, ◌*◌, ◌^◌, ◌⊎◌, inl, inr, Bool, true, false, not, ◌&&◌, ◌||◌, Option, none, some,
  List, [], ◌∷◌, ◌++◌, String, string_key, ◌==◌, if◌then◌else◌, ltb, nat_beq, concat, Map, insert,
  erase, nat_key,
}
use rstudio_launcher_plugin.Api.User.{User}
use rstudio_launcher_plugin.Api.Parse.{get_or}
use rstudio_launcher_plugin.Api.Job.{Job, State, pending, running, finished, killed, state_eq}
use rstudio_launcher_plugin.Jobs.Repository.{Heap, JobPtr}
use rstudio_launcher_plugin.Jobs.Notifier.{Notifier, Update, update_job}
use rstudio_launcher_plugin.Options.Errors.{Error, success}
use rstudio_launcher_plugin.Local.Errors.{create_error, job_launch_error}
use rstudio_launcher_plugin.Local.Processes.{Decryption, ProcessOptions, populate_process_options}

pub data Signal : Type 0 where
  sig_kill sig_cont sig_term sig_stop : Signal

-- The clock, 16 random bytes in base 64, the directory of a user's output, the paths in a directory,
-- and processes: their start, which gives a process ID if there is a process, their signals, and the
-- executable that one runs.
pub record System (W : Type 0) : Type 0 where
  pub decryption : Decryption
  pub time : W → ℕ × W
  pub random_base64 : W → (Error ⊎ String) × W
  pub ensure_user_directory : String → User → W → Option Error × W
  pub complete_child_path : String → String → String
  pub run_async_process : ProcessOptions → W → (Error ⊎ Option ℤ) × W
  pub signal_process : ℤ → Signal → W → Option Error × W
  pub get_process_info : ℤ → W → (Error ⊎ String) × W

-- `LocalJobRunner` with its repository and notifier: the calls of listeners, the events that watch
-- jobs, with the count that each calls back with and its wait in microseconds, those of them that were
-- started and have not fired, with their counts, and the jobs that were written to their files.
pub record LocalState (W : Type 0) : Type 0 where
  pub world : W
  pub notifier : Notifier
  pub called : List (JobPtr × List ℕ)
  pub watch_events : Map String (ℕ × ℕ)
  pub started : Map String ℕ
  pub saved : List JobPtr
  pub hostname : String
  pub key : String
  pub save_unspecified_output : Bool
  pub output_root : String

unfoldable pub set_job : JobPtr → Job → Heap → Heap
set_job p j h q = if q == p then j else h q

-- `boost::replace_all_copy(id, "/", "-")`.
unfoldable pub replace_slashes : String → String
replace_slashes String.[] = ""
replace_slashes (String.◌∷◌ c s) =
    String.◌∷◌ (if nat_beq (code c) 47 then "-" else c) (replace_slashes s)

module _ {W : Type 0} (sys : System W) where
  -- `updateJob(io_job, in_newStatus)`, at the time of the call.
  unfoldable pub notify : JobPtr → State → Heap → LocalState W → Heap × LocalState W
  unfolding set_job
  notify p status h s =
      let (t, w) = sys.time s.world in
      let (j, listeners) =
        update_job s.notifier (record { new_status = status; message = ""; invocation_time = t })
          (h p) in
      (set_job p j h, record s { world = w; called = s.called ++ (p, listeners) ∷ [] })

  -- `LocalJobRepository::saveJob`.
  unfoldable pub save_job : JobPtr → Heap → LocalState W → LocalState W
  save_job p h s = if s.hostname == (h p).host then record s { saved = s.saved ++ p ∷ [] } else s

  -- `LocalJobRepository::setJobOutputPaths`.
  unfoldable pub set_job_output_paths : Job → LocalState W → (Error ⊎ Job) × LocalState W
  set_job_output_paths j s =
      let output_dir = sys.complete_child_path s.output_root j.user.name in
      let path = λ (file extension : String).
        if file == ""
        then sys.complete_child_path output_dir (concat (j.id ∷ extension ∷ []))
        else file in
      if s.save_unspecified_output && (j.standard_out_file == "" || j.standard_err_file == "")
      then (let (failure, w) = sys.ensure_user_directory output_dir j.user s.world in
          (
            elim failure [
              | some e ↦ inl e
              | none ↦ inr (record j {
                standard_out_file = path j.standard_out_file ".stdout";
                standard_err_file = path j.standard_err_file ".stderr";
              })
            ],
            record s { world = w },
          ))
      else (inr j, s)

  -- The wait before a job is looked at again, in microseconds.
  unfoldable pub wait_time : ℕ → ℕ
  wait_time count = if ltb 5 count then 5000000 else 2 ^ count * 100000

  -- `removeWatchEvent`: the event that goes is cancelled.
  unfoldable pub remove_watch_event : String → LocalState W → LocalState W
  remove_watch_event id s = record s {
    watch_events = erase id s.watch_events;
    started = erase id s.started;
  }

  -- `addProcessWatchEvent`: an event that is replaced is cancelled.
  unfoldable pub add_watch_event : String → ℕ → ℕ → LocalState W → LocalState W
  add_watch_event id count wait s = record s {
    watch_events = insert id (count, wait) s.watch_events;
    started = erase id s.started;
  }

  -- `jobWatchEvent->start()`, of the event with a count.
  unfoldable pub start_watch_event : String → ℕ → LocalState W → LocalState W
  start_watch_event id count s = record s { started = insert id count s.started }

  -- `onProcessWatchDeadline`.
  unfoldable pub on_process_watch : ℕ → JobPtr → Heap → LocalState W → Heap × LocalState W
  unfolding wait_time remove_watch_event add_watch_event start_watch_event
  on_process_watch count p h s =
      if ltb 100 count
      then (h, s)
      else (if state_eq (h p).status killed || state_eq (h p).status finished
          then (h, remove_watch_event (h p).id s)
          else (let (info, w) = sys.get_process_info (get_or (h p).pid (pos 0)) s.world in
              let s' : LocalState W = record s { world = w } in
              elim info [
                | inl e ↦ (h, remove_watch_event (h p).id s')
                | inr executable ↦
                    if executable == "rsandbox"
                    then (
                      h,
                      start_watch_event (h p).id (count + 1)
                          (add_watch_event (h p).id (count + 1) (wait_time count) s'),
                    )
                    else (let (h', s'') = notify p running h s' in
                        (h', remove_watch_event (h p).id s''))
              ]))

  -- `onJobExitCallback`.
  unfoldable pub on_job_exit : ℤ → JobPtr → Heap → LocalState W → Heap × LocalState W
  on_job_exit exit_code p h s =
      let h' = set_job p (record (h p) { exit_code = some exit_code }) h in
      if state_eq (h p).status killed
      then (let (t, w) = sys.time s.world in
          let h'' = set_job p (record (h' p) { last_update_time = some t }) h' in
          (h'', save_job p h'' (record s { world = w })))
      else (let (h'', s') : Heap × LocalState W =
            if state_eq (h p).status pending then notify p running h' s else (h', s) in
          notify p finished h'' s')

  -- `generateJobId`.
  unfoldable pub generate_job_id : LocalState W → (Error ⊎ String) × LocalState W
  unfolding replace_slashes
  generate_job_id s =
      let (r, w) = sys.random_base64 s.world in
      (elim r [ inl e ↦ inl e | inr id ↦ inr (replace_slashes id) ], record s { world = w })

  -- `runJob` once the job has its ID: the error and whether the job was invalid.
  unfoldable pub start_job :
      JobPtr → Heap → LocalState W → (Option Error × Bool) × Heap × LocalState W
  unfolding add_watch_event start_watch_event notify set_job
  start_job p h s = elim (populate_process_options sys.decryption (h p) s.key) [
    | inl e ↦ ((some e, true), h, s)
    | inr options ↦
        let (r, w) = sys.run_async_process options s.world in
        let s' : LocalState W = record s { world = w } in
        let launch_error = λ (cause : Error).
          create_error job_launch_error
            (concat ("Could not launch process for job " ∷ (h p).id ∷ [])) cause in
        elim r [
          | inl e ↦ ((some (launch_error e), false), h, s')
          | inr none ↦ ((some (launch_error success), false), h, s')
          | inr (some pid) ↦
              let (h', s'') = notify p pending (set_job p (record (h p) { pid = some pid }) h) s' in
              (
                (none, false),
                h',
                start_watch_event (h' p).id 1 (add_watch_event (h' p).id 1 100000 s''),
              )
        ]
  ]

  -- `runJob`.
  unfoldable pub run_job :
      JobPtr → Heap → LocalState W → (Option Error × Bool) × Heap × LocalState W
  unfolding generate_job_id set_job set_job_output_paths start_job
  run_job p h s =
      let (id, s1) = generate_job_id s in
      elim id [
        | inl e ↦ ((some e, false), h, s1)
        | inr job_id ↦
            let (t, w) = sys.time s1.world in
            let j = record (h p) { id = job_id; submission_time = t; host = s.hostname } in
            let (r, s2) = set_job_output_paths j (record s1 { world = w }) in
            elim r [
              | inl e ↦ ((some e, false), set_job p j h, s2)
              | inr j' ↦ start_job p (set_job p j' h) s2
            ]
      ]
