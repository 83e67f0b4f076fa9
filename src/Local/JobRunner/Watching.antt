-- ===== src/Local/JobRunner/Watching.antt =====
-- The timer that watches a job's process.
use rstudio_launcher_plugin.Base.{
  ℕ, zero, suc, ◌+◌, ◌≡◌, ◌<◌, ◌⊎◌, inl, inr, refl, arith, ◌||◌, Option, none, some, String,
  string_key, ◌==◌, ltb, pos, find, find-insert_self, erase, find-erase_self, Bool-cases, Sum-cases,
  nat_key, ◌^◌, ◌*◌, Option-cases,
}
use rstudio_launcher_plugin.Api.Parse.{get_or}
use rstudio_launcher_plugin.Api.Job.{killed, finished, running, state_eq}
use rstudio_launcher_plugin.Jobs.Repository.{Heap, JobPtr}
use rstudio_launcher_plugin.Local.Processes.{populate_process_options}
use rstudio_launcher_plugin.Local.JobRunner.{
  System, LocalState, on_process_watch, wait_time, notify, remove_watch_event, add_watch_event,
  start_watch_event, start_job,
}

module _ {W : Type 0} (sys : System W) where
  -- What a callback may do, when its event is no longer among those that will fire: it gives up, or
  -- takes the event away, or starts the next one.
  pub data Round (count : ℕ) (p : JobPtr) (h : Heap) (s : LocalState W)
      : Heap × LocalState W → Type 0 where
    gives_up : 100 < count → Round count p h s (h, s)
    stops :
        {h' : Heap} {s' : LocalState W}
        → find (h p).id s'.watch_events ≡ none
        → find (h p).id s'.started ≡ none
        → Round count p h s (h', s')
    waits :
        {s' : LocalState W}
        → (wait : ℕ) → find (h p).id s'.watch_events ≡ some (count + 1, wait)
        → wait < 5000001
        → find (h p).id s'.started ≡ some (count + 1)
        → count < 101
        → Round count p h s (h, s')

  wait_time-lt : (count : ℕ) → wait_time sys count < 5000001
  unfolding wait_time
  wait_time-lt count = elim (Bool-cases (ltb 5 count)) [
    | inl e ↦ rw e (omega arith)
    | inr e ↦ rw e (small count (ground arith))
  ]
    where
      small : (n : ℕ) → n < 6 → 2 ^ n * 100000 < 5000001
      small zero h = omega arith
      small (suc zero) h = omega arith
      small (suc (suc zero)) h = omega arith
      small (suc (suc (suc zero))) h = omega arith
      small (suc (suc (suc (suc zero)))) h = omega arith
      small (suc (suc (suc (suc (suc zero))))) h = omega arith
      small (suc (suc (suc (suc (suc (suc n)))))) h = absurd (omega arith)

  on_process_watch-Round :
      (count : ℕ) (p : JobPtr) (h : Heap) (s : LocalState W)
      → Round count p h s (on_process_watch sys count p h s)
  unfolding on_process_watch remove_watch_event add_watch_event start_watch_event
  on_process_watch-Round count p h s = elim (Bool-cases (ltb 100 count)) [
    | inl e ↦ rw e (gives_up (ground arith))
    | inr e ↦ elim (Bool-cases (state_eq (h p).status killed || state_eq (h p).status finished)) [
      | inl f ↦
          rw (e, f)
            (stops (find-erase_self (h p).id s.watch_events) (find-erase_self (h p).id s.started))
      | inr f ↦
          let (info, w) = sys.get_process_info (get_or (h p).pid (pos 0)) s.world in
          elim (Sum-cases info) [
            | inl (err, g) ↦
                rw (e, f, g)
                  (stops (find-erase_self (h p).id s.watch_events)
                    (find-erase_self (h p).id s.started))
            | inr (executable, g) ↦ elim (Bool-cases (executable == "rsandbox")) [
              | inl k ↦
                  rw (e, f, g, k)
                    (waits (wait_time sys count)
                      (find-insert_self (h p).id (count + 1, wait_time sys count) s.watch_events)
                      (wait_time-lt count)
                      (find-insert_self (h p).id (count + 1) (erase (h p).id s.started))
                      (ground arith))
              | inr k ↦
                  let seen = (notify sys p running h (record s { world = w })).1 in
                  rw (e, f, g, k)
                    (stops (find-erase_self (h p).id seen.watch_events)
                      (find-erase_self (h p).id seen.started))
            ]
          ]
    ]
  ]

  -- The event of a job fires: it is no longer among those that will, and its work is done.
  abbrev fired : ℕ → JobPtr → String → Heap → LocalState W → Heap × LocalState W
  fired count p id h s = on_process_watch sys count p h (record s { started = erase id s.started })

  -- The events of a job fire, as long as there is one; `none` is fuel that ran out before.
  pub watch : ℕ → JobPtr → String → Heap → LocalState W → Option (Heap × LocalState W)
  watch zero p id h s = elim (find id s.started) [ none ↦ some (h, s) | some count ↦ none ]
  watch (suc fuel) p id h s = elim (find id s.started) [
    | none ↦ some (h, s)
    | some count ↦ let (h', s') = fired count p id h s in watch fuel p id h' s'
  ]

  -- A watch that is over: no event of the job will fire, and the job has no event left or is as it was.
  abbrev pub Ends : String → Heap → Option (Heap × LocalState W) → Type 0
  Ends id h o =
      (h' : Heap) × (s' : LocalState W) × (o ≡ some (h', s'))
      × (find id s'.started ≡ none)
      × ((find id s'.watch_events ≡ none) ⊎ (h' ≡ h))

  watch_over :
      (fuel : ℕ) (p : JobPtr) (id : String) (h : Heap) (s : LocalState W)
      → find id s.started ≡ none
      → watch fuel p id h s ≡ some (h, s)
  unfolding watch
  watch_over zero p id h s e = rw (watch, e) refl
  watch_over (suc fuel) p id h s e = rw (watch, e) refl

  Round-Ends :
      (fuel count : ℕ) (p : JobPtr) (h : Heap) (s : LocalState W) (r : Heap × LocalState W)
      → find (h p).id s.started ≡ none
      → ((s' : LocalState W)
          → find (h p).id s'.started ≡ some (count + 1)
          → count < 101
          → Ends (h p).id h (watch fuel p (h p).id h s'))
      → Round count p h s r
      → Ends (h p).id h (watch fuel p (h p).id r.0 r.1)
  Round-Ends fuel count p h s r idle later (gives_up l) =
      (h, s, watch_over fuel p (h p).id h s idle, idle, inr refl)
  Round-Ends fuel count p h s r idle later (stops {h'} {s'} e f) =
      (h', s', watch_over fuel p (h p).id h' s' f, f, inl e)
  Round-Ends fuel count p h s r idle later (waits {s'} wait e l f few) = later s' f few

-- The watch of a local job ends after the firing of at most 101 events from the first one, whatever
-- is seen of its process: then no event of the job will fire, and the job has no event left, or is as
-- it was.
pub watch-Ends :
    {W : Type 0} (sys : System W) (fuel count : ℕ) (p : JobPtr) (h : Heap) (s : LocalState W)
    → find (h p).id s.started ≡ some count
    → 101 < fuel + count
    → count < 102
    → Ends sys (h p).id h (watch sys fuel p (h p).id h s)
unfolding watch
watch-Ends sys zero count p h s e enough small = absurd (omega arith)
watch-Ends sys (suc fuel) count p h s e enough small =
    let s' = record s { started = erase (h p).id s.started } in
    rw (watch, e)
      (Round-Ends sys fuel count p h s' (on_process_watch sys count p h s')
        (find-erase_self (h p).id s.started)
        (λ s'' f few. watch-Ends sys fuel (count + 1) p h s'' f (omega arith) (omega arith))
        (on_process_watch-Round sys count p h s'))

-- A job whose process `runJob` has started is watched, from the first count on.
start_job-started :
    {W : Type 0} (sys : System W) (p : JobPtr) (h : Heap) (s : LocalState W)
    → (start_job sys p h s).0.0 ≡ none
    → let (result, h', s') = start_job sys p h s in find (h' p).id s'.started ≡ some 1
unfolding start_job start_watch_event
start_job-started sys p h s e =
    elim (Sum-cases (populate_process_options sys.decryption (h p) s.key)) [
      | inl (err, f) ↦ absurd (ground (arith, rw (start_job, f) at e))
      | inr (options, f) ↦ elim (Sum-cases (sys.run_async_process options s.world).0) [
        | inl (err, g) ↦ absurd (ground (arith, rw (start_job, f, g) at e))
        | inr (process, g) ↦ elim (Option-cases process) [
          | inl k ↦ absurd (ground (arith, rw (start_job, f, g, k) at e))
          | inr (pid, k) ↦ rw (start_job, f, g, k) (find-insert_self _ 1 _)
        ]
      ]
    ]
