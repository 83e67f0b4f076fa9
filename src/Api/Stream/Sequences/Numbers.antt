-- ===== src/Api/Stream/Sequences/Numbers.antt =====
-- The numbers of the responses that a request gets.
use rstudio_launcher_plugin.Base.{
  ℕ, suc, ◌+◌, ◌^◌, ◌<◌, ◌≡◌, refl, ap, subst, ◌∙◌, find-insert_self, inl, inr, arith, none, some,
  List, [], ◌∷◌, ◌++◌, append_assoc, append-nil, Bool, true, false, not, ◌&&◌, nat_key, ◌==◌, Map,
  find, distinct, find-insert, find-erase, distinct-insert, distinct-erase, contains, length,
  Bool-cases, Option-cases,
}
use rstudio_launcher_plugin.Api.Stream.Sequences.{
  StreamSequences, MultiStream, add_sequence, increment, all_sequences, some_sequences,
  remove_sequence, on_add_request, on_remove_request, send_to, send_response_all, send_response,
}
use rstudio_launcher_plugin.Api.Stream.Sequences.Entries.{
  numbers_for, delivered, count_from, no_repeats, number, distinct-all, next_number, find-all,
  numbers-all, distinct-some, some_lem,
}

-- The calls of a stream.
pub data Call (A : Type 0) : Type 0 where
  add remove : ℕ → Call A
  send_every : A → Call A
  send_some : (ids : List ℕ) → no_repeats ids ≡ true → A → Call A

pub run : {A : Type 0} → List (Call A) → MultiStream A → MultiStream A
run [] s = s
run (add id ∷ cs) s = run cs (on_add_request id s)
run (remove id ∷ cs) s = run cs (on_remove_request id s)
run (send_every a ∷ cs) s = run cs (send_response_all a s)
run (send_some ids n a ∷ cs) s = run cs (send_response ids a s)

-- No call removes the request.
abbrev pub stays : {A : Type 0} → ℕ → List (Call A) → Bool
stays id [] = true
stays id (remove j ∷ cs) = not (j == id) && stays id cs
stays id (add j ∷ cs) = stays id cs
stays id (send_every a ∷ cs) = stays id cs
stays id (send_some ids n a ∷ cs) = stays id cs

delivered-append :
    {A : Type 0} (id : ℕ) (xs ys : List (StreamSequences × A))
    → delivered id (xs ++ ys) ≡ delivered id xs ++ delivered id ys
unfolding delivered
delivered-append id [] ys = refl
delivered-append id ((qs, a) ∷ xs) ys = rw (delivered-append id xs ys, append_assoc) refl

delivered-send_to :
    {A : Type 0} (id : ℕ) (qm : StreamSequences × Map ℕ ℕ) (a : A) (s : MultiStream A)
    → (delivered id (send_to qm a s).sent ≡ delivered id s.sent ++ numbers_for id qm.0)
      × ((send_to qm a s).sequences ≡ qm.1)
unfolding send_to numbers_for delivered
delivered-send_to id ([], m) a s = (rw (append-nil (delivered id s.sent)) refl, refl)
delivered-send_to id (q ∷ qs, m) a s = (
  rw (delivered-append id s.sent ((q ∷ qs, a) ∷ []), append-nil (numbers_for id (q ∷ qs))) refl,
  refl,
)

-- A registered request's next number, and what one call does with it.
pub record Registered {A : Type 0} (id k : ℕ) (s : MultiStream A) : Type 0 where
  pub is_next : find id s.sequences ≡ some k
  pub is_distinct : distinct s.sequences ≡ true

increment_lem : (k : ℕ) → k + 1 < 2 ^ 64 → increment k ≡ suc k
unfolding increment
increment_lem k h = ground arith

module _ {A : Type 0} (id k : ℕ) where
  -- What a run gives from a state in which the request's next number is `k`.
  Numbered : MultiStream A → MultiStream A → Type 0
  Numbered s f =
      (n : ℕ) × (delivered id f.sent ≡ delivered id s.sent ++ count_from k n)
      × Registered id (k + n) f

  Registered-add :
      (j : ℕ) (s : MultiStream A) → Registered id k s → Registered id k (on_add_request j s)
  unfolding on_add_request add_sequence
  Registered-add j s reg = elim (Option-cases (find j s.sequences)) [
    | inl e ↦ record {
      is_next =
          rw (on_add_request, add_sequence, e)
            (ground (arith, reg.is_next, find-insert j id 1 s.sequences));
      is_distinct =
          rw (on_add_request, add_sequence, e) (distinct-insert j 1 s.sequences reg.is_distinct);
    }
    | inr (l, e) ↦ record {
      is_next = rw (on_add_request, add_sequence, e) reg.is_next;
      is_distinct = rw (on_add_request, add_sequence, e) reg.is_distinct;
    }
  ]

  Registered-remove :
      (j : ℕ) (s : MultiStream A)
      → (j == id) ≡ false
      → Registered id k s
      → Registered id k (on_remove_request j s)
  unfolding on_remove_request remove_sequence
  Registered-remove j s f reg = elim (Option-cases (find j s.sequences)) [
    | inl e ↦ record {
      is_next = rw (on_remove_request, remove_sequence, e) reg.is_next;
      is_distinct = rw (on_remove_request, remove_sequence, e) reg.is_distinct;
    }
    | inr (l, e) ↦ record {
      is_next =
          rw (on_remove_request, remove_sequence, e)
            (ground (arith, reg.is_next, find-erase j id s.sequences));
      is_distinct =
          rw (on_remove_request, remove_sequence, e) (distinct-erase j s.sequences reg.is_distinct);
    }
  ]

  same_sent_add : (j : ℕ) (s : MultiStream A) → (on_add_request j s).sent ≡ s.sent
  unfolding on_add_request
  same_sent_add j s = refl

  same_sent_remove : (j : ℕ) (s : MultiStream A) → (on_remove_request j s).sent ≡ s.sent
  unfolding on_remove_request
  same_sent_remove j s = refl

  every_lem :
      (a : A) (s : MultiStream A)
      → Registered id k s
      → k + 1 < 2 ^ 64
      → (delivered id (send_response_all a s).sent ≡ delivered id s.sent ++ k ∷ [])
        × Registered id (suc k) (send_response_all a s)
  unfolding send_response_all number next_number
  every_lem a s reg b =
      let (d, q) = delivered-send_to id (all_sequences s.sequences) a s in
      let n : numbers_for id (all_sequences s.sequences).0 ≡ k ∷ [] =
        numbers-all id s.sequences reg.is_distinct ∙ ap number reg.is_next in
      let g : find id (all_sequences s.sequences).1 ≡ some (suc k) =
        find-all id s.sequences ∙ ap next_number reg.is_next ∙ ap some (increment_lem k b) in
      (
        d ∙ ap (λ x. delivered id s.sent ++ x) n,
        record {
          is_next = ap (find id) q ∙ g;
          is_distinct = ap distinct q ∙ distinct-all s.sequences reg.is_distinct;
        },
      )

  pub some_in :
      (ids : List ℕ) (a : A) (s : MultiStream A)
      → no_repeats ids ≡ true
      → contains ids id ≡ true
      → Registered id k s
      → k + 1 < 2 ^ 64
      → (delivered id (send_response ids a s).sent ≡ delivered id s.sent ++ k ∷ [])
        × Registered id (suc k) (send_response ids a s)
  unfolding send_response number next_number
  some_in ids a s u c reg b =
      let (d, q) = delivered-send_to id (some_sequences ids s.sequences) a s in
      let (h, g) = some_lem id ids s.sequences u in
      let n : numbers_for id (some_sequences ids s.sequences).0 ≡ k ∷ [] =
        h ∙ rw c (ap number reg.is_next) in
      let f : find id (some_sequences ids s.sequences).1 ≡ some (suc k) =
        g ∙ rw c (ap next_number reg.is_next ∙ ap some (increment_lem k b)) in
      (
        d ∙ ap (λ x. delivered id s.sent ++ x) n,
        record {
          is_next = ap (find id) q ∙ f;
          is_distinct = ap distinct q ∙ distinct-some ids s.sequences reg.is_distinct;
        },
      )

  pub some_out :
      (ids : List ℕ) (a : A) (s : MultiStream A)
      → no_repeats ids ≡ true
      → contains ids id ≡ false
      → Registered id k s
      → (delivered id (send_response ids a s).sent ≡ delivered id s.sent)
        × Registered id k (send_response ids a s)
  unfolding send_response
  some_out ids a s u c reg =
      let (d, q) = delivered-send_to id (some_sequences ids s.sequences) a s in
      let (h, g) = some_lem id ids s.sequences u in
      let n : numbers_for id (some_sequences ids s.sequences).0 ≡ [] = h ∙ rw c refl in
      let f : find id (some_sequences ids s.sequences).1 ≡ some k = g ∙ rw c reg.is_next in
      (
        d ∙ rw (n, append-nil (delivered id s.sent)) refl,
        record {
          is_next = ap (find id) q ∙ f;
          is_distinct = ap distinct q ∙ distinct-some ids s.sequences reg.is_distinct;
        },
      )

  quiet :
      (s s' f : MultiStream A)
      → delivered id s'.sent ≡ delivered id s.sent
      → Numbered s' f
      → Numbered s f
  unfolding Numbered
  quiet s s' f d (n, e, r) = (n, e ∙ ap (λ x. x ++ count_from k n) d, r)

one_more :
    {A : Type 0} (id k : ℕ) (s s' f : MultiStream A)
    → delivered id s'.sent ≡ delivered id s.sent ++ k ∷ []
    → Numbered id (suc k) s' f
    → Numbered id k s f
unfolding Numbered
one_more id k s s' f d (n, e, r) = (
  suc n,
  e
      ∙ ap (λ x. x ++ count_from (suc k) n) d
      ∙ append_assoc (delivered id s.sent) (k ∷ []) (count_from (suc k) n),
  subst (λ x. Registered id x f) (omega arith) r,
)

run-Numbered :
    {A : Type 0} (id k : ℕ) (cs : List (Call A)) (s : MultiStream A)
    → Registered id k s
    → stays id cs ≡ true
    → k + length cs < 2 ^ 64
    → Numbered id k s (run cs s)
unfolding run
run-Numbered id k [] s reg st b =
    unfold Numbered in
    (
      0,
      rw (append-nil (delivered id s.sent)) refl,
      subst (λ x. Registered id x s) (omega arith) reg,
    )
run-Numbered id k (add j ∷ cs) s reg st b =
    quiet id k s (on_add_request j s) (run cs (on_add_request j s))
      (ap (delivered id) (same_sent_add id k j s))
      (run-Numbered id k cs (on_add_request j s) (Registered-add id k j s reg) st
        (omega (arith, b)))
run-Numbered id k (remove j ∷ cs) s reg st b =
    quiet id k s (on_remove_request j s) (run cs (on_remove_request j s))
      (ap (delivered id) (same_sent_remove id k j s))
      (run-Numbered id k cs (on_remove_request j s)
        (Registered-remove id k j s (ground (arith, st)) reg) (ground (arith, st))
        (omega (arith, b)))
run-Numbered id k (send_every a ∷ cs) s reg st b =
    let (d, r) = every_lem id k a s reg (omega (arith, b)) in
    one_more id k s (send_response_all a s) (run cs (send_response_all a s)) d
      (run-Numbered id (suc k) cs (send_response_all a s) r st (omega (arith, b)))
run-Numbered id k (send_some ids n a ∷ cs) s reg st b = elim (Bool-cases (contains ids id)) [
  | inl c ↦
      let (d, r) = some_in id k ids a s n c reg (omega (arith, b)) in
      one_more id k s (send_response ids a s) (run cs (send_response ids a s)) d
        (run-Numbered id (suc k) cs (send_response ids a s) r st (omega (arith, b)))
  | inr c ↦
      let (d, r) = some_out id k ids a s n c reg in
      quiet id k s (send_response ids a s) (run cs (send_response ids a s)) d
        (run-Numbered id k cs (send_response ids a s) r st (omega (arith, b)))
]

-- A request that is added to a stream that does not have it, and that then stays while fewer than
-- 2 ^ 64 - 1 calls are made, gets responses numbered 1, 2 and so on, with no number left out and
-- none twice.
pub run-delivered :
    {A : Type 0} (id : ℕ) (cs : List (Call A)) (s : MultiStream A)
    → find id s.sequences ≡ none
    → distinct s.sequences ≡ true
    → stays id cs ≡ true
    → 1 + length cs < 2 ^ 64
    → (n : ℕ) × (delivered id (run (add id ∷ cs) s).sent ≡ delivered id s.sent ++ count_from 1 n)
unfolding run Numbered on_add_request add_sequence
run-delivered id cs s e d st b =
    let s' = on_add_request id s in
    let reg : Registered id 1 s' = record {
      is_next = rw (on_add_request, add_sequence, e) (find-insert_self id 1 s.sequences);
      is_distinct = rw (on_add_request, add_sequence, e) (distinct-insert id 1 s.sequences d);
    } in
    let (n, p, r) = run-Numbered id 1 cs s' reg st b in (n, p)
