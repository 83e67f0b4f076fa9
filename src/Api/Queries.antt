-- ===== src/Api/Queries.antt =====
-- sdk/src/api/Request.cpp, sdk/src/api/AbstractPluginApi.cpp: the filters of a request for jobs, as they
-- are read, and the jobs that pass them.
use rstudio_launcher_plugin.Base.{
  ℕ, ◌⊎◌, inl, inr, Bool, false, not, ◌||◌, Option, none, some, List, [], ◌∷◌, String, concat,
  string_key, nat_key, ltb,
}
use rstudio_launcher_plugin.Api.Platform.{TextAlgorithms}
use rstudio_launcher_plugin.Api.Job.{Job, State, state_eq, matches_tags, state_from_string}

-- `JobStateRequest::getStatusSet` on one status after the other: the states, and the texts that
-- name none.
unfoldable pub read_states : TextAlgorithms → List String → List State × List String
read_states t [] = ([], [])
read_states t (s ∷ ss) =
    let (states, invalid) = read_states t ss in
    elim (state_from_string t s) [
      | none ↦ (states, s ∷ invalid)
      | some state ↦ (state ∷ states, invalid)
    ]

-- `JobStateRequest::getStatusSet`; an error is its message.
unfoldable pub get_status_set : TextAlgorithms → Option (List String) → String ⊎ Option (List State)
get_status_set t none = inr none
get_status_set t (some ss) =
    let (states, invalid) = read_states t ss in
    elim invalid [
      | [] ↦ inr (some states)
      | i ∷ is ↦ inl (concat ("Invalid input received: " ∷ t.join (i ∷ is) "," ∷ "." ∷ []))
    ]

-- `getStartTime` and `getEndTime`.
unfoldable pub get_time : TextAlgorithms → Option String → Option (Option ℕ)
get_time t none = some none
get_time t (some s) = elim (t.parse_time s) [ none ↦ none | some time ↦ some (some time) ]

abbrev pub one_of : List State → State → Bool
one_of [] s = false
one_of (t ∷ ts) s = state_eq t s || one_of ts s

-- The filters of a request for all jobs.
pub record Filter : Type 0 where
  pub from : Option ℕ
  pub to : Option ℕ
  pub tags : Option (List String)
  pub statuses : Option (List State)

-- Whether a job passes the filters: the negation of the test by which it is erased.
unfoldable pub passes : Filter → Job → Bool
passes f j = not (
    elim f.from [ none ↦ false | some t ↦ ltb j.submission_time t ]
    || elim f.to [ none ↦ false | some t ↦ ltb t j.submission_time ]
    || elim f.tags [ none ↦ false | some ts ↦ not (matches_tags j ts) ]
    || elim f.statuses [ none ↦ false | some ss ↦ not (one_of ss j.status) ])
