-- ===== src/Api/Job/RoundTrip/Status.antt =====
-- The states of a job are read from the texts that they are written as.
use rstudio_launcher_plugin.Base.{
  ◌≡◌, refl, true, Option, none, some, String, string_key, ◌==◌, not, if◌then◌else◌,
}
use rstudio_launcher_plugin.Api.Platform.{
  Platform, IsDocumented, is_plain, is_ascii, same_letters, to_upper,
}
use rstudio_launcher_plugin.Api.Job.{
  State, canceled, failed, finished, killed, pending, running, suspended, unknown, state_to_string,
  state_from_string,
}

module _ (p : Platform) (documented : IsDocumented p) where
  -- The state of a text without white space.
  state_of_letters : String → Option State
  state_of_letters s =
      if same_letters s "Canceled"
      then some canceled
      else (if same_letters s "Failed"
          then some failed
          else (if same_letters s "Finished"
              then some finished
              else (if same_letters s "Killed"
                  then some killed
                  else (if same_letters s "Pending"
                      then some pending
                      else (if same_letters s "Running"
                          then some running
                          else (if same_letters s "Suspended"
                              then some suspended
                              else (if not (s == "") then none else some unknown)))))))

  state_from_string-letters :
      (s : String)
      → is_plain s ≡ true
      → is_ascii s ≡ true
      → state_from_string p.texts s ≡ state_of_letters s
  unfolding state_from_string state_of_letters is_ascii
  state_from_string-letters s a b =
      rw
        (
          documented.trim_plain s a,
          documented.iequals_ascii s "Canceled" b refl,
          documented.iequals_ascii s "Failed" b refl,
          documented.iequals_ascii s "Finished" b refl,
          documented.iequals_ascii s "Killed" b refl,
          documented.iequals_ascii s "Pending" b refl,
          documented.iequals_ascii s "Running" b refl,
          documented.iequals_ascii s "Suspended" b refl,
        )
        refl

  -- A state is read back from the text that it is written as.
  pub state_round_trip : (s : State) → state_from_string p.texts (state_to_string s) ≡ some s
  unfolding state_to_string state_of_letters is_plain is_ascii same_letters to_upper
  state_round_trip canceled = state_from_string-letters "Canceled" refl refl
  state_round_trip failed = state_from_string-letters "Failed" refl refl
  state_round_trip finished = state_from_string-letters "Finished" refl refl
  state_round_trip killed = state_from_string-letters "Killed" refl refl
  state_round_trip pending = state_from_string-letters "Pending" refl refl
  state_round_trip running = state_from_string-letters "Running" refl refl
  state_round_trip suspended = state_from_string-letters "Suspended" refl refl
  state_round_trip unknown = state_from_string-letters "" refl refl
