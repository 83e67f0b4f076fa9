-- ===== src/Jobs/Notifier/Updates.antt =====
-- What a sequence of calls of `updateJob` makes of a job, and what its listeners see of it.
use rstudio_launcher_plugin.Base.{
  ℕ, ◌<◌, ◌≡◌, ◌≢◌, refl, ap, ◌∙◌, inl, inr, true, false, Option, none, some, List, [], ◌∷◌, String,
  string_key, nat_key, ◌==◌, arith, leb, Bool-cases, contains, subst, sym, if◌then◌else◌,
}
use rstudio_launcher_plugin.Api.Job.{Job, State, state_eq_iff}
use rstudio_launcher_plugin.Jobs.Notifier.{
  Notifier, Update, update_job, is_stale, is_news, listeners, write_update,
}

-- The job after a sequence of updates.
pub run_updates : Notifier → List Update → Job → Job
run_updates n [] j = j
run_updates n (u ∷ us) j = run_updates n us (update_job n u j).0

-- The same updates in another order, where two of one time keep theirs.
pub data Reordered : List Update → List Update → Type 0 where
  done : Reordered [] []
  skip : (u : Update) {us vs : List Update} → Reordered us vs → Reordered (u ∷ us) (u ∷ vs)
  swap :
      (u v : Update) {us vs : List Update}
      → u.invocation_time ≢ v.invocation_time
      → Reordered us vs
      → Reordered (u ∷ (v ∷ us)) (v ∷ (u ∷ vs))
  via : {us vs ws : List Update} → Reordered us vs → Reordered vs ws → Reordered us ws

stale_write :
    (j : Job) (u v : Update)
    → is_stale (write_update u j) v ≡ leb v.invocation_time u.invocation_time
unfolding is_stale write_update
stale_write j u v = refl

write_twice : (j : Job) (u v : Update) → write_update v (write_update u j) ≡ write_update v j
unfolding write_update
write_twice j u v = refl

-- An update that the job has passed is older than one that it has not.
stale_before :
    (t : Option ℕ) (j : Job) (u v : Update)
    → j.last_update_time ≡ t
    → is_stale j u ≡ true
    → is_stale j v ≡ false
    → u.invocation_time < v.invocation_time
unfolding is_stale
stale_before none j u v e p q = absurd (ground arith)
stale_before (some t) j u v e p q = ground arith

after_update :
    (n : Notifier) (u : Update) (j : Job)
    → (update_job n u j).0 ≡ (if is_stale j u then j else write_update u j)
unfolding update_job
after_update n u j = elim (Bool-cases (is_stale j u)) [ inl e ↦ rw e refl | inr e ↦ rw e refl ]

update_job_swap :
    (n : Notifier) (u v : Update) (j : Job)
    → u.invocation_time ≢ v.invocation_time
    → (update_job n v (update_job n u j).0).0 ≡ (update_job n u (update_job n v j).0).0
update_job_swap n u v j h = elim (Bool-cases (is_stale j u)) [
  | inl p ↦ elim (Bool-cases (is_stale j v)) [
    | inl q ↦ simp (after_update, p, q) refl
    | inr q ↦
        simp (after_update, p, q, stale_write)
          (ground (arith, stale_before j.last_update_time j u v refl p q))
  ]
  | inr p ↦ elim (Bool-cases (is_stale j v)) [
    | inl q ↦
        simp (after_update, p, q, stale_write)
          (ground (arith, stale_before j.last_update_time j v u refl q p))
    | inr q ↦ simp (after_update, p, q, stale_write, write_twice) (ground arith)
  ]
]

-- The order in which updates of different times arrive does not matter to the job.
pub run_updates_order :
    (n : Notifier) {us vs : List Update}
    → Reordered us vs
    → (j : Job) → run_updates n us j ≡ run_updates n vs j
unfolding run_updates
run_updates_order n done j = refl
run_updates_order n (skip u r) j = run_updates_order n r (update_job n u j).0
run_updates_order n (swap u v {us = us} h r) j =
    ap (run_updates n us) (update_job_swap n u v j h) ∙ run_updates_order n r _
run_updates_order n (via r s) j = run_updates_order n r j ∙ run_updates_order n s j

-- What a listener knows: what it knew, or the status of the job that it is called with.
abbrev pub hear : ℕ → State × String → Job → List ℕ → State × String
hear listener known j [] = known
hear listener known j (c ∷ cs) =
    let rest = hear listener known j cs in
    if c == listener then (j.status, j.status_message) else rest

-- The job, and what a listener knows of it, after a sequence of updates.
pub follow_updates : Notifier → ℕ → List Update → Job → State × String → Job × (State × String)
follow_updates n listener [] j known = (j, known)
follow_updates n listener (u ∷ us) j known =
    let (j', called) = update_job n u j in
    follow_updates n listener us j' (hear listener known j' called)

hear_called :
    (c : ℕ) (known : State × String) (j : Job) (cs : List ℕ)
    → contains cs c ≡ true
    → hear c known j cs ≡ (j.status, j.status_message)
hear_called c known j [] e = cc
hear_called c known j (d ∷ cs) e = elim (Bool-cases (d == c)) [
  | inl f ↦ rw f refl
  | inr f ↦ rw f (hear_called c known j cs (let g : contains cs c ≡ true = rw f at e in g))
]

-- What is no news is what the job says.
no_news :
    (j : Job) (u : Update)
    → is_news j u ≡ false
    → (j.status ≡ u.new_status) × (j.status_message ≡ u.message)
unfolding is_news
no_news j u e =
    ground
      (arith, state_eq_iff j.status u.new_status, string_key.beq_iff j.status_message u.message)

follow_one :
    (n : Notifier) (c : ℕ) (u : Update) (j : Job)
    → contains (listeners n j.id) c ≡ true
    → let (j', called) = update_job n u j in
      (hear c (j.status, j.status_message) j' called ≡ (j'.status, j'.status_message))
      × (j'.id ≡ j.id)
unfolding update_job write_update
follow_one n c u j e = elim (Bool-cases (is_stale j u)) [
  | inl p ↦ rw p (refl, refl)
  | inr p ↦ elim (Bool-cases (is_news j u)) [
    | inl q ↦ rw (p, q) (hear_called c _ (write_update u j) (listeners n j.id) e, refl)
    | inr q ↦ let (s, m) = no_news j u q in rw (p, q) (cc (s, m), refl)
  ]
]

-- A listener that is connected to the job, and knows its status, knows it after any sequence of
-- updates, though it is called for some of them only.
pub follow_updates_known :
    (n : Notifier) (c : ℕ) (us : List Update) (j : Job)
    → contains (listeners n j.id) c ≡ true
    → let (j', known) = follow_updates n c us j (j.status, j.status_message) in
      (known ≡ (j'.status, j'.status_message)) × (j' ≡ run_updates n us j)
unfolding follow_updates run_updates
follow_updates_known n c [] j e = (refl, refl)
follow_updates_known n c (u ∷ us) j e =
    let (k, i) = follow_one n c u j e in
    rw (follow_updates, k)
      (follow_updates_known n c us (update_job n u j).0
        (subst (λ x. contains (listeners n x) c ≡ true) (sym i) e))
