-- ===== src/Local/JobRepository.antt =====
-- plugins/Local/src/LocalJobRepository.cpp: the files of a host's jobs, from which the plugin takes its
-- jobs when it starts.
pub mod Loading
use rstudio_launcher_plugin.Base.{
  ℕ, ℤ, pos, ◌+◌, ◌⊎◌, inl, inr, Bool, true, false, not, ◌&&◌, Option, none, some, List, [], ◌∷◌,
  ◌++◌, String, string_key, nat_key, ◌==◌, if◌then◌else◌, concat,
}
use rstudio_launcher_plugin.Json.{Object}
use rstudio_launcher_plugin.Api.User.{User}
use rstudio_launcher_plugin.Api.Platform.{Platform}
use rstudio_launcher_plugin.Api.Parse.{get_or}
use rstudio_launcher_plugin.Api.Job.{
  Job, State, pending, running, finished, failed, state_eq, is_completed,
}
use rstudio_launcher_plugin.Api.Job.FromJson.{job_from_json}
use rstudio_launcher_plugin.Jobs.Repository.{Heap, JobPtr}
use rstudio_launcher_plugin.Options.Errors.{Error, error, success, same_error}
use rstudio_launcher_plugin.Local.JobRunner.{System, LocalState, set_job, save_job}

-- What the repository asks of files: `ensureDirectory` with a mode in octal digits, the paths in a
-- directory, a path's extension, whether a path lies in a directory, a file's text, its JSON, and the
-- removal of a file, as the plugin or, by a process of its own, as a user.
pub record Files (W : Type 0) : Type 0 where
  pub ensure_directory : String → W → Option Error × W
  pub change_file_mode : String → ℕ → W → Option Error × W
  pub get_children : String → W → (Error ⊎ List String) × W
  pub get_extension : String → String
  pub is_within : String → String → Bool
  pub read_file_into_string : String → W → (Error ⊎ String) × W
  pub parse : String → Error ⊎ Object
  pub remove_if_exists : String → W → Option Error × W
  pub run_remove : User → String → W → W

-- The directories of the repository.
pub record Paths : Type 0 where
  pub jobs_root : String
  pub jobs : String
  pub output_root : String

module _ {W : Type 0} (sys : System W) (files : Files W) (platform : Platform) where
  -- `isFileNotFoundError`.
  unfoldable pub is_file_not_found_error : Error → Bool
  is_file_not_found_error e = same_error e (error "SystemError" 2 "" [] success)

  -- `getJobFilePath`.
  unfoldable pub get_job_file_path : String → Paths → String
  get_job_file_path id paths = sys.complete_child_path paths.jobs (concat (id ∷ ".job" ∷ []))

  -- `readJobFromFile`, into a job that was made at the time of the call. Its errors are only logged.
  unfoldable pub read_job_from_file : String → W → Option Job × W
  read_job_from_file file w =
      let (no_time, w1) = sys.time w in
      let (text, w2) = files.read_file_into_string file w1 in
      (
        elim text [
          | inl e ↦ none
          | inr t ↦ elim (files.parse t) [
            | inl e ↦ none
            | inr o ↦ elim (job_from_json platform no_time o) [ inl e ↦ none | inr j ↦ some j ]
          ]
        ],
        w2,
      )

  -- A job's state, as the repository sets it on loading the job, which is then saved.
  unfoldable pub set_status : State → JobPtr → Heap → LocalState W → Heap × LocalState W
  unfolding set_job save_job
  set_status status p h s =
      let (t, w) = sys.time s.world in
      let h' = set_job p (record (h p) { status = status; last_update_time = some t }) h in
      (h', save_job sys p h' (record s { world = w }))

  -- What `loadJobs` does with a job that it has read.
  unfoldable pub update_on_load : JobPtr → Heap → LocalState W → Heap × LocalState W
  unfolding set_status is_file_not_found_error
  update_on_load p h s =
      if is_completed (h p)
      then (h, s)
      else (let (info, w) = sys.get_process_info (get_or (h p).pid (pos 0)) s.world in
          let s' : LocalState W = record s { world = w } in
          elim info [
            | inl e ↦ set_status (if is_file_not_found_error e then finished else failed) p h s'
            | inr executable ↦
                if state_eq (h p).status pending && not (executable == "rsandbox")
                then set_status running p h s'
                else (h, s')
          ])

  -- The loop of `loadJobs`: the pointers are taken from the given one on.
  unfoldable pub load_files :
      List String → JobPtr → Heap → LocalState W → List JobPtr × Heap × LocalState W
  unfolding read_job_from_file update_on_load set_job
  load_files [] p h s = ([], h, s)
  load_files (file ∷ rest) p h s =
      if files.get_extension file == ".job"
      then (let (read, w) = read_job_from_file file s.world in
          elim read [
            | none ↦ load_files rest p h (record s { world = w })
            | some j ↦
                let (h1, s1) = update_on_load p (set_job p j h) (record s { world = w }) in
                let (ps, h2, s2) = load_files rest (p + 1) h1 s1 in (p ∷ ps, h2, s2)
          ])
      else load_files rest p h s

  -- `loadJobs`.
  unfoldable pub load_jobs :
      Paths → JobPtr → Heap → LocalState W → (Error ⊎ List JobPtr) × Heap × LocalState W
  unfolding load_files
  load_jobs paths p h s =
      let (children, w) = files.get_children paths.jobs s.world in
      elim children [
        | inl e ↦ (inl e, h, record s { world = w })
        | inr names ↦
            let (ps, h', s') = load_files names p h (record s { world = w }) in (inr ps, h', s')
      ]

  -- `deleteFileAsUser`.
  unfoldable pub delete_file_as_user : User → String → W → W
  delete_file_as_user user file w = if file == "" then w else files.run_remove user file w

  -- `onJobRemoved`.
  unfoldable pub on_job_removed : Paths → Job → LocalState W → LocalState W
  unfolding get_job_file_path delete_file_as_user
  on_job_removed paths j s =
      let delete = λ (file : String) (w : W).
        if files.is_within file paths.output_root then delete_file_as_user j.user file w else w in
      if not (j.host == s.hostname)
      then s
      else (let w = (files.remove_if_exists (get_job_file_path j.id paths) s.world).1 in
          record s { world = delete j.standard_err_file (delete j.standard_out_file w) })

  -- The `ensureDirectory` of the file, with the mode of the directory.
  unfoldable pub ensure_directory : String → ℕ → W → Option Error × W
  ensure_directory directory mode w =
      let (r, w') = files.ensure_directory directory w in
      elim r [ some e ↦ (some e, w') | none ↦ files.change_file_mode directory mode w' ]

  -- `onInitialize`.
  unfoldable pub on_initialize : Paths → W → Option Error × W
  unfolding ensure_directory
  on_initialize paths w =
      let (r1, w1) = ensure_directory paths.jobs_root 700 w in
      elim r1 [
        | some e ↦ (some e, w1)
        | none ↦
            let (r2, w2) = ensure_directory paths.jobs 700 w1 in
            elim r2 [ some e ↦ (some e, w2) | none ↦ ensure_directory paths.output_root 777 w2 ]
      ]
