-- ===== src/Local/Processes.antt =====
-- plugins/Local/src/LocalJobRunner.cpp: what a job's process is started with.
pub mod Populated
use Prim.Native.Char.{code}
use Prim.Native.String
use rstudio_launcher_plugin.Base.{
  ℕ, ℤ, ◌+◌, ◌⊎◌, inl, inr, Bool, true, false, not, Option, none, some, List, [], ◌∷◌, ◌++◌, String,
  string_key, ◌==◌, if◌then◌else◌, ltb, concat,
}
use rstudio_launcher_plugin.Json.{object_value, Value}
use rstudio_launcher_plugin.Api.User.{User}
use rstudio_launcher_plugin.Api.Platform.{
  MountType, azure_file, ceph_fs, gluster_fs, host, nfs, passthrough,
}
use rstudio_launcher_plugin.Api.Parse.{get_or}
use rstudio_launcher_plugin.Api.Parts.{JobConfig, Mount}
use rstudio_launcher_plugin.Api.Parts.ToJson.{mount_to_json}
use rstudio_launcher_plugin.Api.Job.{Job}
use rstudio_launcher_plugin.Options.Errors.{Error, success, Outcome, ◌>>=◌}
use rstudio_launcher_plugin.Local.Errors.{create_error, invalid_job_config, invalid_mount_type}

-- `Job::getJobConfigValue`.
unfoldable pub get_job_config_value : String → List JobConfig → Option String
get_job_config_value name [] = none
get_job_config_value name (c ∷ config) =
    let others = get_job_config_value name config in if c.name == name then some c.value else others

-- The bytes of a text.
unfoldable pub size : String → ℕ
size String.[] = 0
size (String.◌∷◌ c s) =
    (if ltb (code c) 128
      then 1
      else (if ltb (code c) 2048 then 2 else (if ltb (code c) 65536 then 3 else 4)))
    + size s

-- What is used of `ProcessOptions`.
pub record ProcessOptions : Type 0 where
  pub pam_profile : String
  pub password : String
  pub mounts : List Mount
  pub arguments : List String
  pub environment : List (String × String)
  pub is_shell_command : Bool
  pub executable : String
  pub run_as_user : User
  pub standard_input : String
  pub standard_error_file : String
  pub standard_output_file : String
  pub working_directory : String

-- The crypto library, on a text, a key and an initialization vector, and a value's text.
pub record Decryption : Type 0 where
  pub decrypt_and_base64_decode : String → String → String → Error ⊎ String
  pub write : Value → String

-- `isHostMountSource`.
abbrev pub is_host : MountType → Bool
is_host host = true
is_host azure_file = false
is_host ceph_fs = false
is_host gluster_fs = false
is_host nfs = false
is_host passthrough = false

module _ (d : Decryption) where
  -- `decryptPassword`: the password, which was empty before.
  unfoldable pub decrypt_password : Job → String → Outcome String
  unfolding get_job_config_value size
  decrypt_password j key = elim (get_job_config_value "encryptedPassword" j.config) [
    | some encrypted ↦ inr ""
    | none ↦ elim (get_job_config_value "initializationVector" j.config) [
      | none ↦
          inl (
            create_error invalid_job_config "required field 'initializationVector' missing" success)
      | some iv ↦
          if ltb (size iv) 8
          then inl (
              create_error invalid_job_config
                "required field 'initializationVector' is too short - must be at least 8 bytes"
                success)
          else elim (d.decrypt_and_base64_decode "" key iv) [
            | inl e ↦ inl (
                create_error invalid_job_config
                  "'encryptedPassword' field or 'initializationVector' field has invalid format" e)
            | inr password ↦ inr password
          ]
    ]
  ]

  -- The loop over the mounts.
  unfoldable pub copy_mounts : List Mount → List Mount → Outcome (List Mount)
  copy_mounts [] copied = inr copied
  copy_mounts (m ∷ ms) copied =
      let rest = copy_mounts ms (copied ++ m ∷ []) in
      if is_host m.source.source_type
      then rest
      else inl (
          create_error invalid_mount_type
            (concat (
              "Invalid mount: "
              ∷ d.write (object_value (mount_to_json m))
              ∷ " - only host mount types are supported."
              ∷ []))
            success)

  -- `populateProcessOptions`.
  unfoldable pub populate_process_options : Job → String → Outcome ProcessOptions
  unfolding decrypt_password copy_mounts get_job_config_value
  populate_process_options j key =
      let profile = get_or (get_job_config_value "pamProfile" j.config) "" in
      (if profile == "" then inr "" else decrypt_password j key) >>= λ password.
      copy_mounts j.mounts [] >>= λ mounts. inr (record {
        pam_profile = profile;
        password = password;
        mounts = mounts;
        arguments = j.arguments;
        environment = j.environment;
        is_shell_command = not (j.command == "");
        executable = if j.command == "" then j.exe else j.command;
        run_as_user = j.user;
        standard_input = j.standard_in;
        standard_error_file = j.standard_err_file;
        standard_output_file = j.standard_out_file;
        working_directory = j.working_directory;
      })
