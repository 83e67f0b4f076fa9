-- ===== src/Api/Plugin/Access.antt =====
-- Which jobs the handlers show, and which they hand to the job source.
use rstudio_launcher_plugin.Base.{
  ◌≤◌, ◌≡◌, ◌≢◌, ◌↔◌, refl, inl, inr, arith, Bool, true, false, not, ◌&&◌, Option, none, some, List,
  [], ◌∷◌, String, suc, Bool-cases, Option-cases, if◌then◌else◌, string_key, nat_key, ◌==◌,
  contains, keep_if, values, find, length, all_of,
}
use rstudio_launcher_plugin.Api.User.{is_empty}
use rstudio_launcher_plugin.Api.Platform.{TextAlgorithms}
use rstudio_launcher_plugin.Api.Job.{Job, matches_tags}
use rstudio_launcher_plugin.Api.Messages.{SubmitJobRequest, JobStateRequest}
use rstudio_launcher_plugin.Jobs.Repository.{Heap, JobPtr, get_job, get_jobs, may_see}
use rstudio_launcher_plugin.Jobs.Repository.Access.{get_jobs_lem, get_job_lem, contains-keep_if}
use rstudio_launcher_plugin.Api.Plugin.{
  Plugin, JobSource, requested_jobs, handle_submit_job_request, set_user, send, send_error,
}
use rstudio_launcher_plugin.Api.Queries.{Filter, passes}

single :
    (o : Option JobPtr) (p : JobPtr)
    → elim o [ none ↦ none | some q ↦ some (q ∷ []) ] ≡ some (p ∷ [])
    → o ≡ some p
single none p e = absurd (ground arith)
single (some q) p e = ground arith

module _ {S Network Caps : Type 0} (t : TextAlgorithms) (source : JobSource S Network Caps) where
  -- A request for "*" gives exactly the stored jobs that its user may see and that pass its filters.
  -- A request for one job gives that job, whatever the filters, if its user may see it, and
  -- otherwise nothing.
  pub requested_jobs_lem :
      (r : JobStateRequest) (f : Filter) (s : Plugin S Network Caps) (p : JobPtr)
      → (r.job_id ≡ "*"
          → (ps : List JobPtr) × (requested_jobs t source r f s ≡ some ps)
            × (contains ps p ≡ (
                contains (values s.pruner.job_repo.job_map) p
                && may_see s.heap r.user p
                && passes f (s.heap p))))
        × (r.job_id ≢ "*"
            → (requested_jobs t source r f s ≡ some (p ∷ [])) ↔ (
                (find r.job_id s.pruner.job_repo.job_map ≡ some p)
                × (may_see s.heap r.user p ≡ true)))
  unfolding requested_jobs
  requested_jobs_lem r f s p = (
    (λ e. rw (requested_jobs, (string_key.beq_iff r.job_id "*").1 e) (_, refl, all_jobs)),
    (λ n. rw (requested_jobs, no_star n) one_job),
  )
    where
      all_jobs :
          contains (keep_if (λ q. passes f (s.heap q)) (get_jobs s.heap s.pruner.job_repo r.user)) p
          ≡ (contains (values s.pruner.job_repo.job_map) p
              && may_see s.heap r.user p
              && passes f (s.heap p))
      all_jobs =
          rw
            (
              contains-keep_if (λ q. passes f (s.heap q)) (get_jobs s.heap s.pruner.job_repo r.user)
                  p,
              get_jobs_lem s.heap s.pruner.job_repo r.user p,
            )
            (ground arith)

      no_star : r.job_id ≢ "*" → (r.job_id == "*") ≡ false
      no_star n = ground (arith, string_key.beq_iff r.job_id "*")

      one_job :
          (elim (get_job s.heap s.pruner.job_repo r.job_id r.user) [
            | none ↦ none
            | some q ↦ some (q ∷ [])
          ]
            ≡ some (p ∷ []))
          ↔ ((find r.job_id s.pruner.job_repo.job_map ≡ some p) × (may_see s.heap r.user p ≡ true))
      one_job =
          let (there, back) = get_job_lem s.heap s.pruner.job_repo r.job_id r.user p in
          (
            (λ e. there (single (get_job s.heap s.pruner.job_repo r.job_id r.user) p e)),
            (λ e. rw (back e) refl),
          )

  -- The job source only gets jobs that have a user: what holds of its state and stays true under
  -- `submitJob` of such jobs stays true under the handler.
  pub handle_submit_job_request-keeps :
      (P : S → Type 0)
      → ((p : JobPtr) (h : Heap) (src : S)
          → is_empty (h p).user ≡ false
          → P src
          → P (source.submit_job p h src).2)
      → (r : SubmitJobRequest) (s : Plugin S Network Caps) → P s.source
      → P (handle_submit_job_request t source r s).source
  unfolding handle_submit_job_request send_error send
  handle_submit_job_request-keeps P k r s holds =
      elim (Bool-cases (is_empty (set_user t source r s.heap r.job).user)) [
        | inl e ↦ rw (handle_submit_job_request, e) holds
        | inr e ↦
            elim (Option-cases
              (source.submit_job r.job (set_user t source r s.heap) s.source).0.0) [
                | inl f ↦ rw (handle_submit_job_request, e, f) (k r.job _ s.source e holds)
                | inr (x, f) ↦ rw (handle_submit_job_request, e, f) (k r.job _ s.source e holds)
              ]
      ]

-- The tags without one of them.
abbrev remove_one : String → List String → List String
remove_one x [] = []
remove_one x (y ∷ ys) = if y == x then ys else y ∷ remove_one x ys

-- No tag twice, as in a `std::set`.
abbrev pub no_repeats : List String → Bool
no_repeats [] = true
no_repeats (x ∷ xs) = not (contains xs x) && no_repeats xs

length-remove_one :
    (x : String) (ys : List String)
    → contains ys x ≡ true
    → length ys ≡ suc (length (remove_one x ys))
length-remove_one x [] e = absurd (ground arith)
length-remove_one x (y ∷ ys) e = ground (arith, length-remove_one x ys)

contains-remove_one :
    (x z : String) (ys : List String)
    → contains ys z ≡ true
    → (x == z) ≡ false
    → contains (remove_one x ys) z ≡ true
contains-remove_one x z [] e n = absurd (ground arith)
contains-remove_one x z (y ∷ ys) e n = ground (
  arith,
  contains-remove_one x z ys,
  string_key.beq_iff y x,
  string_key.beq_iff y z,
  string_key.beq_iff x z,
)

all-remove_one :
    (x : String) (xs ys : List String)
    → contains xs x ≡ false
    → all_of (λ z. contains ys z) xs ≡ true
    → all_of (λ z. contains (remove_one x ys) z) xs ≡ true
all-remove_one x [] ys n a = refl
all-remove_one x (z ∷ xs) ys n a = ground (
  arith,
  all-remove_one x xs ys,
  contains-remove_one x z ys,
  string_key.beq_iff x z,
  string_key.beq_iff z x,
)

-- A set of tags that are all among others has no more elements than these.
length_all :
    (xs ys : List String)
    → no_repeats xs ≡ true
    → all_of (λ z. contains ys z) xs ≡ true
    → length xs ≤ length ys
length_all [] ys n a = omega arith
length_all (x ∷ xs) ys n a =
    ground (arith, length_all xs (remove_one x ys), length-remove_one x ys, all-remove_one x xs ys)

-- `matchesTags` on a set is the test that the job has each tag of the set: the comparison of the
-- numbers of tags with which it begins never changes the answer.
pub matches_tags_lem :
    (j : Job) (wanted : List String)
    → no_repeats wanted ≡ true
    → matches_tags j wanted ≡ all_of (λ tag. contains j.tags tag) wanted
unfolding matches_tags
matches_tags_lem j wanted n = elim (Bool-cases (all_of (λ tag. contains j.tags tag) wanted)) [
  | inl e ↦ ground (arith, length_all wanted j.tags)
  | inr e ↦ ground arith
]
