-- ===== src/Local/Processes/Populated.antt =====
-- What the process of a job runs, and for whom.
use rstudio_launcher_plugin.Base.{◌≡◌, inr, arith, Bool, some, List, String, all_of}
use rstudio_launcher_plugin.Api.Parts.{Mount}
use rstudio_launcher_plugin.Api.Job.{Job}
use rstudio_launcher_plugin.Local.Processes.{
  Decryption, ProcessOptions, get_job_config_value, decrypt_password, is_host,
  populate_process_options,
}
use rstudio_launcher_plugin.Api.Platform.{Platform}

abbrev pub all_host : List Mount → Bool
all_host = all_of (λ m. is_host m.source.source_type)

-- A password that a job is submitted with never reaches its process: whatever the key and the
-- initialization vector, a process that is made has an empty password.
pub populate_process_options-password :
    (d : Decryption) (j : Job) (key encrypted : String) (options : ProcessOptions)
    → get_job_config_value "encryptedPassword" j.config ≡ some encrypted
    → populate_process_options d j key ≡ inr options
    → options.password ≡ ""
unfolding populate_process_options decrypt_password
populate_process_options-password d j key encrypted options given e = ground arith
