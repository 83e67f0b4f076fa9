-- ===== src/Jobs/Notifier/Subscriptions.antt =====
-- Who is called for which job, as subscriptions come and go.
use rstudio_launcher_plugin.Base.{
  ℕ, suc, ◌≡◌, refl, inl, inr, Bool, true, false, ◌&&◌, ◌||◌, none, some, List, [], ◌∷◌, ◌++◌,
  String, string_key, nat_key, ◌==◌, arith, Bool-cases, Option-cases, contains, find, insert, erase,
  find-insert, find-erase, if◌then◌else◌, Map,
}
use rstudio_launcher_plugin.Jobs.Notifier.{
  Notifier, Signal, subscribe, listeners, disconnect, drop_signal, is_nil,
}

pub contains-append :
    (xs ys : List ℕ) (d : ℕ) → contains (xs ++ ys) d ≡ (contains xs d || contains ys d)
contains-append [] ys d = refl
contains-append (x ∷ xs) ys d = ground (arith, contains-append xs ys d)

-- A number that is no connection is not in the signal once it is disconnected, and was not before.
disconnect_last : (c : ℕ) (s : Signal) → contains s c ≡ false → disconnect c (s ++ c ∷ []) ≡ s
unfolding disconnect
disconnect_last c [] e = ground arith
disconnect_last c (d ∷ s) e = ground (arith, disconnect_last c s)

-- The signal of a job.
pub signal_of : Map String Signal → String → Signal
signal_of m id = elim (find id m) [ none ↦ [] | some s ↦ s ]

signal_of-insert :
    (id j : String) (s : Signal) (m : Map String Signal)
    → signal_of (insert id s m) j ≡ (if id == j then s else signal_of m j)
unfolding signal_of
signal_of-insert id j s m = ground (arith, find-insert id j s m)

signal_of-erase :
    (id j : String) (m : Map String Signal)
    → signal_of (erase id m) j ≡ (if id == j then [] else signal_of m j)
unfolding signal_of
signal_of-erase id j m = ground (arith, find-erase id j m)

listeners_lem :
    (n : Notifier) (j : String) → listeners n j ≡ n.all_jobs_signal ++ signal_of n.job_signal_map j
unfolding listeners signal_of
listeners_lem n j = refl

signal_of-drop :
    (id j : String) (c : ℕ) (m : Map String Signal)
    → signal_of (drop_signal id c m) j
      ≡ (if id == j then disconnect c (signal_of m j) else signal_of m j)
unfolding drop_signal
signal_of-drop id j c m = elim (Option-cases (find id m)) [
  | inl e ↦ rw (e, drop_signal) (no_signal e)
  | inr (s, e) ↦ elim (Bool-cases (is_nil (disconnect c s))) [
    | inl f ↦ rw (e, drop_signal, f, signal_of-erase id j m) (emptied s e f)
    | inr f ↦ rw (e, drop_signal, f, signal_of-insert id j (disconnect c s) m) (shortened s e)
  ]
]
  where
    no_signal :
        find id m ≡ none
        → signal_of m j ≡ (if id == j then disconnect c (signal_of m j) else signal_of m j)
    no_signal e = unfold signal_of disconnect in ground (arith, string_key.beq_iff id j)

    emptied :
        (s : Signal)
        → find id m ≡ some s
        → is_nil (disconnect c s) ≡ true
        → (if id == j then [] else signal_of m j)
          ≡ (if id == j then disconnect c (signal_of m j) else signal_of m j)
    emptied s e f = unfold signal_of in ground (arith, string_key.beq_iff id j)

    shortened :
        (s : Signal)
        → find id m ≡ some s
        → (if id == j then disconnect c s else signal_of m j)
          ≡ (if id == j then disconnect c (signal_of m j) else signal_of m j)
    shortened s e = unfold signal_of in ground (arith, string_key.beq_iff id j)

-- Which jobs a subscription is for: all of them, or one.
abbrev pub wants : String → String → Bool
wants id j = (id == "" || id == "*") || id == j

-- `subscribe` adds its new connection to the listeners of the jobs that it names, and of no other;
-- what else listens stays.
pub listeners-subscribe :
    (n : Notifier) (id j : String) (c : ℕ)
    → let (n', s) = subscribe id n in
      contains (listeners n' j) c
      ≡ (contains (listeners n j) c || (n.next_connection == c && wants id j))
listeners-subscribe n id j c = elim (Bool-cases (id == "" || id == "*")) [
  | inl e ↦ all_jobs e
  | inr e ↦ one_job e
]
  where
    all_jobs :
        (id == "" || id == "*") ≡ true
        → contains (listeners (subscribe id n).0 j) c
          ≡ (contains (listeners n j) c || (n.next_connection == c && wants id j))
    all_jobs e =
        unfold subscribe in
        rw
          (e, listeners_lem n j, contains-append n.all_jobs_signal (signal_of n.job_signal_map j) c)
          (ground (
            arith,
            listeners_lem
                (record n {
                  all_jobs_signal = n.all_jobs_signal ++ n.next_connection ∷ [];
                  next_connection = suc n.next_connection;
                })
                j,
            contains-append (n.all_jobs_signal ++ n.next_connection ∷ [])
                (signal_of n.job_signal_map j) c,
            contains-append n.all_jobs_signal (n.next_connection ∷ []) c,
          ))

    one_job :
        (id == "" || id == "*") ≡ false
        → contains (listeners (subscribe id n).0 j) c
          ≡ (contains (listeners n j) c || (n.next_connection == c && wants id j))
    one_job e =
        unfold subscribe signal_of in
        rw
          (e, listeners_lem n j, contains-append n.all_jobs_signal (signal_of n.job_signal_map j) c)
          (ground (
            arith,
            string_key.beq_iff id j,
            listeners_lem
                (record n {
                  job_signal_map =
                      insert id (signal_of n.job_signal_map id ++ n.next_connection ∷ [])
                        n.job_signal_map;
                  next_connection = suc n.next_connection;
                })
                j,
            signal_of-insert id j (signal_of n.job_signal_map id ++ n.next_connection ∷ [])
                n.job_signal_map,
            contains-append n.all_jobs_signal
                (signal_of
                  (insert id (signal_of n.job_signal_map id ++ n.next_connection ∷ [])
                    n.job_signal_map)
                  j)
                c,
            contains-append (signal_of n.job_signal_map id) (n.next_connection ∷ []) c,
          ))
