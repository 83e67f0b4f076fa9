-- ===== src/Api/Job/Accepted.antt =====
-- What a job that was read is sure to have.
use rstudio_launcher_plugin.Base.{
  ℕ, ◌≡◌, refl, ◌⊎◌, inl, inr, Bool-cases, true, false, not, Option, none, some, String, string_key,
  ◌==◌, arith,
}
use rstudio_launcher_plugin.Json.{Object}
use rstudio_launcher_plugin.Json.Read.{read_optional, as_string}
use rstudio_launcher_plugin.Api.User.{User, new_user}
use rstudio_launcher_plugin.Api.Platform.{Platform}
use rstudio_launcher_plugin.Api.Parse.{Result, ◌>>=◌, get_or}
use rstudio_launcher_plugin.Api.Parts.{Container}
use rstudio_launcher_plugin.Api.Parts.FromJson.{container_from_json}
use rstudio_launcher_plugin.Api.Job.{Job}
use rstudio_launcher_plugin.Api.Job.FromJson.{
  Members, read_members, job_of_members, job_from_json, check_command, parse_user, parse_container,
  is_set, has_container,
}
use rstudio_launcher_plugin.Api.Job.RoundTrip.Whole.{runs_one, is_some}

bind-eq-inr :
    {A B : Type 0} (m : Result A) (f : A → Result B) {b : B}
    → (m >>= f) ≡ inr b
    → (a : A) × (m ≡ inr a) × (f a ≡ inr b)
bind-eq-inr (inl e) f h = absurd (ground arith)
bind-eq-inr (inr a) f h = (a, refl, h)

module _ (p : Platform) where
  job_of_members-inr :
      (t : ℕ) (m : Members) {j : Job}
      → job_of_members p t m ≡ inr j
      → (check_command m ≡ inr tt)
        × (parse_user p m.user ≡ inr j.user)
        × (parse_container p m.container ≡ inr j.container_details)
        × (j.command ≡ get_or m.command "")
        × (j.exe ≡ get_or m.exe "")
  unfolding job_of_members
  job_of_members-inr t m h = (ground arith, ground arith, ground arith, ground arith, ground arith)

  parse_container-is_some :
      (c : Option Object) {d : Option Container}
      → parse_container p c ≡ inr d
      → has_container c ≡ true
      → is_some d ≡ true
  unfolding parse_container
  parse_container-is_some none h e = absurd (ground arith)
  parse_container-is_some (some o) h e =
      let (c, q, same) = bind-eq-inr (container_from_json p o) (λ c. inr (some c)) h in
      ground (arith, same)

  -- Who may be the user of a job with this text in its JSON.
  pub Names : Option String → User → Type 0
  Names name u =
      (u ≡ new_user true) × ((get_or name "" == "") ≡ true)
      ⊎ (u ≡ new_user false) × ((get_or name "" == "*") ≡ true)
      ⊎ (p.get_user (get_or name "") ≡ some u)

  parse_user-Names : (name : Option String) {u : User} → parse_user p name ≡ inr u → Names name u
  unfolding parse_user Names
  parse_user-Names name h = elim (Bool-cases (get_or name "" == "")) [
    | inl empty ↦ inl (ground arith, empty)
    | inr text ↦ elim (Bool-cases (get_or name "" == "*")) [
      | inl star ↦ inr (inl (ground arith, star))
      | inr named ↦ inr (inr (ground arith))
    ]
  ]

  is_set-get_or : (o : Option String) → is_set o ≡ not (get_or o "" == "")
  is_set-get_or none = refl
  is_set-get_or (some s) = refl

  check_command-runs :
      (m : Members) (j : Job)
      → check_command m ≡ inr tt
      → j.command ≡ get_or m.command ""
      → j.exe ≡ get_or m.exe ""
      → (has_container m.container ≡ true → is_some j.container_details ≡ true)
      → runs_one j ≡ true
  unfolding check_command runs_one
  check_command-runs m j h c e k =
      rw (c, e, ← is_set-get_or m.command, ← is_set-get_or m.exe) (ground (arith, h, k))

  -- A job that was read has one of a command, a program and a container to run, and not both a command
  -- and a program.
  pub job_from_json-runs_one :
      (t : ℕ) (o : Object) {j : Job} → job_from_json p t o ≡ inr j → runs_one j ≡ true
  unfolding job_from_json
  job_from_json-runs_one t o {j} h =
      let (m, q, rest) = bind-eq-inr (read_members p o) (job_of_members p t) h in
      let (checked, user, container, command, exe) = job_of_members-inr t m rest in
      check_command-runs m j checked command exe (parse_container-is_some m.container container)

  read_members-user :
      (o : Object) (m : Members)
      → read_members p o ≡ inr m
      → read_optional as_string "user" o ≡ inr m.user
  unfolding read_members
  read_members-user o m h = ground arith

  -- The user of a job that was read is nobody, all users or one that the system has, as its JSON says.
  pub job_from_json-user :
      (t : ℕ) (o : Object) {j : Job}
      → job_from_json p t o ≡ inr j
      → (name : Option String) × (read_optional as_string "user" o ≡ inr name) × Names name j.user
  unfolding job_from_json
  job_from_json-user t o h =
      let (m, q, rest) = bind-eq-inr (read_members p o) (job_of_members p t) h in
      (m.user, read_members-user o m q, parse_user-Names m.user (job_of_members-inr t m rest).1)
