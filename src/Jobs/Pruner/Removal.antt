-- ===== src/Jobs/Pruner/Removal.antt =====
-- Which jobs the pruner removes, and when.
use rstudio_launcher_plugin.Base.{
  ℕ, ◌≡◌, refl, ◌||◌, inl, inr, arith, Bool, true, false, ◌&&◌, Option, none, some, List, [], ◌∷◌,
  String, string_key, ◌==◌, find, insert, leb, if◌then◌else◌, find-insert, find-erase,
  find-insert_self, find-erase_self, Bool-cases, Option-cases, ◌∙◌,
}
use rstudio_launcher_plugin.Api.User.{User, new_user, is_all_users}
use rstudio_launcher_plugin.Api.Job.{is_completed}
use rstudio_launcher_plugin.Jobs.Repository.{
  Repository, Heap, JobPtr, Hook, store_jobs, get_job, remove_job, may_see,
}
use rstudio_launcher_plugin.Jobs.Pruner.{
  Pruner, prune_job, prune_found, expiry_of, start_prune_timer, prune_jobs, initialize,
}

sees_all : (h : Heap) (p : JobPtr) → may_see h (new_user false) p ≡ true
unfolding may_see is_all_users new_user
sees_all h p = refl

-- The pruner's own user finds every job.
get_job_admin :
    (h : Heap) (r : Repository) (id : String) → get_job h r id (new_user false) ≡ find id r.job_map
unfolding get_job
get_job_admin h r id = elim (Option-cases (find id r.job_map)) [
  | inl e ↦ rw (e, get_job) refl
  | inr (p, e) ↦ rw (e, get_job, sees_all h p) refl
]

missing :
    (h : Heap) (now : ℕ) (id : String) (s : Pruner)
    → find id s.job_repo.job_map ≡ none
    → prune_job h now id s ≡ (s, false)
unfolding prune_job
missing h now id s e = rw (prune_job, get_job_admin h s.job_repo id, e) refl

found :
    (h : Heap) (now : ℕ) (id : String) (p : JobPtr) (s : Pruner)
    → find id s.job_repo.job_map ≡ some p
    → prune_job h now id s ≡ prune_found h now id p s
unfolding prune_job
found h now id p s e = rw (prune_job, get_job_admin h s.job_repo id, e) refl

find-remove_job :
    (id j : String) (r : Repository)
    → find j (remove_job id r).job_map ≡ (if id == j then none else find j r.job_map)
unfolding remove_job
find-remove_job id j r = elim (Option-cases (find id r.job_map)) [
  | inl e ↦ rw (e, remove_job) (ground (arith, string_key.beq_iff id j))
  | inr (p, e) ↦ rw (e, remove_job) (find-erase id j r.job_map)
]

-- A stored job has ended, and its time is over.
pub is_expired : Heap → ℕ → ℕ → Option JobPtr → Bool
is_expired h now job_expiry_time none = false
is_expired h now job_expiry_time (some p) =
    is_completed (h p) && leb (expiry_of job_expiry_time (h p)) now

-- A call of `pruneJob` removes the job of its ID if that job has ended and its time is over, which
-- is what it returns. It removes no other job; a job that has ended and stays gets a timer for the
-- moment at which it expires, and a job that goes has no timer left.
pub prune_job_lem :
    (h : Heap) (now : ℕ) (id : String) (s : Pruner)
    → let (s', removed) = prune_job h now id s in
      let was = find id s.job_repo.job_map in
      (removed ≡ is_expired h now s.job_expiry_time was)
      × ((j : String)
          → find j s'.job_repo.job_map
            ≡ (if removed && id == j then none else find j s.job_repo.job_map))
      × (removed ≡ true → find id s'.active_prune_tasks ≡ none)
      × ((p : JobPtr)
          → was ≡ some p
          → is_completed (h p) ≡ true
          → removed ≡ false
          → find id s'.active_prune_tasks ≡ some (expiry_of s.job_expiry_time (h p)))
      × (s'.job_expiry_time ≡ s.job_expiry_time)
unfolding is_expired prune_found start_prune_timer
prune_job_lem h now id s = elim (Option-cases (find id s.job_repo.job_map)) [
  | inl e ↦
      rw (missing h now id s e, e)
        (refl, (λ j. refl), (λ f. absurd (ground arith)), (λ p f. absurd (ground arith)), refl)
  | inr (p, e) ↦ rw (found h now id p s e, e) (of_found p e)
]
  where
    of_found :
        (p : JobPtr)
        → find id s.job_repo.job_map ≡ some p
        → let (s', removed) = prune_found h now id p s in
          (removed ≡ is_expired h now s.job_expiry_time (some p))
          × ((j : String)
              → find j s'.job_repo.job_map
                ≡ (if removed && id == j then none else find j s.job_repo.job_map))
          × (removed ≡ true → find id s'.active_prune_tasks ≡ none)
          × ((q : JobPtr)
              → some p ≡ some q
              → is_completed (h q) ≡ true
              → removed ≡ false
              → find id s'.active_prune_tasks ≡ some (expiry_of s.job_expiry_time (h q)))
          × (s'.job_expiry_time ≡ s.job_expiry_time)
    of_found p e = elim (Bool-cases (is_completed (h p))) [
      | inr c ↦
          rw c (
            refl,
            (λ j. refl),
            (λ f. absurd (ground arith)),
            (λ q f g. absurd (ground arith)),
            refl,
          )
      | inl c ↦ elim (Bool-cases (leb (expiry_of s.job_expiry_time (h p)) now)) [
        | inl l ↦
            rw (c, l)
              (
                refl,
                (λ j. find-remove_job id j s.job_repo),
                (λ f. find-erase_self id s.active_prune_tasks),
                (λ q f g k. absurd (ground arith)),
                refl,
              )
        | inr l ↦
            rw (c, l)
              (
                refl,
                (λ j. refl),
                (λ f. absurd (ground arith)),
                (λ q f g k.
                    rw
                      (find-insert_self id (expiry_of s.job_expiry_time (h p)) s.active_prune_tasks)
                      (ground arith)),
                refl,
              )
      ]
    ]

after_prune :
    (h : Heap) (now : ℕ) (id j : String) (s : Pruner)
    → find j (prune_job h now id s).0.job_repo.job_map ≡ (
        if id == j && is_expired h now s.job_expiry_time (find j s.job_repo.job_map)
        then none
        else find j s.job_repo.job_map)
after_prune h now id j s =
    let (removed, kept, without, timer, same) = prune_job_lem h now id s in
    rw (kept j, removed)
      (elim (Bool-cases (id == j)) [
        | inl e ↦ rw (e, (string_key.beq_iff id j).0 e) (ground arith)
        | inr e ↦ rw e (ground arith)
      ])

expiry_kept :
    (h : Heap) (now : ℕ) (id : String) (s : Pruner)
    → (prune_job h now id s).0.job_expiry_time ≡ s.job_expiry_time
expiry_kept h now id s =
    let (removed, kept, without, timer, same) = prune_job_lem h now id s in same

pub has_id : Heap → List JobPtr → String → Bool
has_id h [] j = false
has_id h (p ∷ ps) j = (h p).id == j || has_id h ps j

after_prunes :
    (h : Heap) (now : ℕ) (j : String) (ps : List JobPtr) (s : Pruner)
    → find j (prune_jobs h now ps s).job_repo.job_map ≡ (
        if has_id h ps j && is_expired h now s.job_expiry_time (find j s.job_repo.job_map)
        then none
        else find j s.job_repo.job_map)
unfolding prune_jobs has_id
after_prunes h now j [] s = refl
after_prunes h now j (p ∷ ps) s =
    rw
      (
        prune_jobs,
        after_prunes h now j ps (prune_job h now (h p).id s).0,
        expiry_kept h now (h p).id s,
        after_prune h now (h p).id j s,
      )
      (two_passes ((h p).id == j) (has_id h ps j) (find j s.job_repo.job_map))
  where
    no_job : is_expired h now s.job_expiry_time none ≡ false
    no_job = unfold is_expired in refl

    two_passes :
        (a b : Bool) (o : Option JobPtr)
        → (if b
              && is_expired h now s.job_expiry_time
                  (if a && is_expired h now s.job_expiry_time o then none else o)
            then none
            else (if a && is_expired h now s.job_expiry_time o then none else o))
          ≡ (if (a || b) && is_expired h now s.job_expiry_time o then none else o)
    two_passes a b o = ground (arith, no_job)

find-store_jobs_none :
    (h : Heap) (ps : List JobPtr) (j : String) (r : Repository)
    → has_id h ps j ≡ false
    → find j (store_jobs h ps r).job_map ≡ find j r.job_map
unfolding store_jobs has_id
find-store_jobs_none h [] j r e = refl
find-store_jobs_none h (p ∷ ps) j r e =
    find-store_jobs_none h ps j (record r { job_map = insert (h p).id p r.job_map }) (ground arith)
    ∙ ground (arith, find-insert (h p).id j p r.job_map)

-- `initialize` of an empty repository ends with the loaded jobs less those that have ended and whose
-- time is over, each under its ID.
pub find-initialize :
    (h : Heap) (now job_expiry_time : ℕ) (ps : List JobPtr) (hooks : List Hook) (j : String)
    → let loaded = find j (store_jobs h ps (record { job_map = []; hooks = hooks })).job_map in
      find j
        (initialize h now job_expiry_time ps
          (record { job_map = []; hooks = hooks })).job_repo.job_map
      ≡ (if is_expired h now job_expiry_time loaded then none else loaded)
unfolding initialize
find-initialize h now job_expiry_time ps hooks j =
    rw (initialize, after_prunes)
      (elim (Bool-cases (has_id h ps j)) [
        | inl e ↦ rw e refl
        | inr e ↦
            rw (e, find-store_jobs_none h ps j (record { job_map = []; hooks = hooks }) e)
              (unfold is_expired find in refl)
      ])
