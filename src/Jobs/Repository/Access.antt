-- ===== src/Jobs/Repository/Access.antt =====
-- Which jobs `getJob` and `getJobs` give to which user.
use rstudio_launcher_plugin.Base.{
  ◌≡◌, ◌↔◌, refl, inl, inr, arith, Bool, true, false, ◌&&◌, none, some, List, [], ◌∷◌, String,
  string_key, nat_key, ◌==◌, Map, find, values, has_key, distinct, distinct-insert, distinct-erase,
  find-insert, find-erase, if◌then◌else◌, keep_if, contains, Bool-cases, Option-cases,
}
use rstudio_launcher_plugin.Api.User.{User, same_user}
use rstudio_launcher_plugin.Jobs.Repository.{
  Repository, Heap, JobPtr, add_job, get_job, get_jobs, remove_job, may_see, store_jobs,
}

-- The calls that change the repository.
pub data Call : Type 0 where
  add : Heap → JobPtr → Call
  remove : String → Call
  store : Heap → List JobPtr → Call

pub run : List Call → Repository → Repository
run [] r = r
run (add h p ∷ cs) r = run cs (add_job h p r)
run (remove id ∷ cs) r = run cs (remove_job id r)
run (store h ps ∷ cs) r = run cs (store_jobs h ps r)

distinct-add :
    (h : Heap) (p : JobPtr) (r : Repository)
    → distinct r.job_map ≡ true
    → distinct (add_job h p r).job_map ≡ true
unfolding add_job
distinct-add h p r d = elim (Option-cases (find (h p).id r.job_map)) [
  | inl e ↦ rw (e, add_job) (distinct-insert (h p).id p r.job_map d)
  | inr (q, e) ↦ rw (e, add_job) d
]

distinct-remove :
    (id : String) (r : Repository)
    → distinct r.job_map ≡ true
    → distinct (remove_job id r).job_map ≡ true
unfolding remove_job
distinct-remove id r d = elim (Option-cases (find id r.job_map)) [
  | inl e ↦ rw (e, remove_job) d
  | inr (q, e) ↦ rw (e, remove_job) (distinct-erase id r.job_map d)
]

distinct-store :
    (h : Heap) (ps : List JobPtr) (r : Repository)
    → distinct r.job_map ≡ true
    → distinct (store_jobs h ps r).job_map ≡ true
unfolding store_jobs
distinct-store h [] r d = d
distinct-store h (p ∷ ps) r d = distinct-store h ps _ (distinct-insert (h p).id p r.job_map d)

pub distinct-run :
    (cs : List Call) (r : Repository)
    → distinct r.job_map ≡ true
    → distinct (run cs r).job_map ≡ true
unfolding run
distinct-run [] r d = d
distinct-run (add h p ∷ cs) r d = distinct-run cs _ (distinct-add h p r d)
distinct-run (remove id ∷ cs) r d = distinct-run cs _ (distinct-remove id r d)
distinct-run (store h ps ∷ cs) r d = distinct-run cs _ (distinct-store h ps r d)

find-has_key : (k : String) (m : Map String JobPtr) → has_key k m ≡ false → find k m ≡ none
unfolding find has_key
find-has_key k [] e = refl
find-has_key k ((j, v) ∷ m) e = ground (arith, find-has_key k m)

contains-values :
    (k : String) (p : JobPtr) (m : Map String JobPtr)
    → find k m ≡ some p
    → contains (values m) p ≡ true
unfolding find values
contains-values k p [] e = absurd (ground arith)
contains-values k p ((j, v) ∷ m) e = ground (arith, contains-values k p m)

-- A value of a map without double keys is what its key finds.
values-find :
    (p : JobPtr) (m : Map String JobPtr)
    → distinct m ≡ true
    → contains (values m) p ≡ true
    → (k : String) × (find k m ≡ some p)
unfolding find values distinct
values-find p [] d e = absurd (ground arith)
values-find p ((j, v) ∷ m) d e = elim (Bool-cases (v == p)) [
  | inl f ↦ (j, ground (arith, string_key.beq_iff j j))
  | inr f ↦
      let (k, q) = values-find p m (ground arith) (ground arith) in
      (k, ground (arith, string_key.beq_iff j k, find-has_key k m))
]

pub contains-keep_if :
    (t : JobPtr → Bool) (ps : List JobPtr) (p : JobPtr)
    → contains (keep_if t ps) p ≡ (contains ps p && t p)
contains-keep_if t [] p = refl
contains-keep_if t (q ∷ ps) p = ground (arith, nat_key.beq_iff q p, contains-keep_if t ps p)

pub get_jobs_lem :
    (h : Heap) (r : Repository) (u : User) (p : JobPtr)
    → contains (get_jobs h r u) p ≡ (contains (values r.job_map) p && may_see h u p)
unfolding get_jobs may_see
get_jobs_lem h r u p =
    ground (arith, contains-keep_if (λ q. same_user (h q).user u) (values r.job_map) p)

pub get_job_lem :
    (h : Heap) (r : Repository) (id : String) (u : User) (p : JobPtr)
    → (get_job h r id u ≡ some p) ↔ ((find id r.job_map ≡ some p) × (may_see h u p ≡ true))
unfolding get_job
get_job_lem h r id u p = elim (Option-cases (find id r.job_map)) [
  | inl e ↦ rw (e, get_job) (ground arith)
  | inr (q, e) ↦ rw (e, get_job) (ground arith)
]

-- After any calls on an empty repository, a user's jobs as `getJobs` lists them are the jobs that
-- `getJob` gives to that user for some ID, and the user may see each of them.
pub get_jobs-get_job :
    (cs : List Call) (h : Heap) (u : User) (p : JobPtr)
    → let r = run cs (record { job_map = []; hooks = [] }) in
      ((contains (get_jobs h r u) p ≡ true) ↔ ((id : String) × (get_job h r id u ≡ some p)))
      × (contains (get_jobs h r u) p ≡ true → may_see h u p ≡ true)
unfolding distinct
get_jobs-get_job cs h u p =
    let r = run cs (record { job_map = []; hooks = [] }) in
    let d : distinct r.job_map ≡ true =
      distinct-run cs (record { job_map = []; hooks = [] }) refl in
    (
      (
        (λ e.
            let both : (contains (values r.job_map) p && may_see h u p) ≡ true =
              cc (e, get_jobs_lem h r u p) in
            let (id, f) = values-find p r.job_map d (ground (arith, both)) in
            (id, (get_job_lem h r id u p).1 (f, ground (arith, both)))),
        (λ (id, e).
            let (f, g) = (get_job_lem h r id u p).0 e in
            ground (arith, get_jobs_lem h r u p, contains-values id p r.job_map f)),
      ),
      (λ e. ground (arith, get_jobs_lem h r u p)),
    )

-- `addJob` keeps a job that is there and else adds the new one; `removeJob` takes the job of the ID
-- away; neither touches another ID. Each calls its hook when it changes the map, and only then.
pub get_job-add_job-remove_job :
    (h : Heap) (r : Repository) (p : JobPtr) (id : String) (u : User)
    → (get_job h (add_job h p r) id u ≡ (
        if (h p).id == id
        then elim (find id r.job_map) [
          | none ↦ if may_see h u p then some p else none
          | some q ↦ get_job h r id u
        ]
        else get_job h r id u))
      × (get_job h (remove_job (h p).id r) id u
          ≡ (if (h p).id == id then none else get_job h r id u))
unfolding add_job get_job remove_job
get_job-add_job-remove_job h r p id u = (added, removed)
  where
    added : get_job h (add_job h p r) id u ≡ (
        if (h p).id == id
        then elim (find id r.job_map) [
          | none ↦ if may_see h u p then some p else none
          | some q ↦ get_job h r id u
        ]
        else get_job h r id u)
    added = elim (Option-cases (find (h p).id r.job_map)) [
      | inl e ↦
          rw (e, add_job)
            (ground (arith, find-insert (h p).id id p r.job_map, string_key.beq_iff (h p).id id))
      | inr (q, e) ↦ rw (e, add_job) (ground (arith, string_key.beq_iff (h p).id id))
    ]

    removed :
        get_job h (remove_job (h p).id r) id u ≡ (if (h p).id == id then none else get_job h r id u)
    removed = elim (Option-cases (find (h p).id r.job_map)) [
      | inl e ↦ rw (e, remove_job) (ground (arith, string_key.beq_iff (h p).id id))
      | inr (q, e) ↦
          rw (e, remove_job)
            (ground (arith, find-erase (h p).id id r.job_map, string_key.beq_iff (h p).id id))
    ]
