-- ===== src/Comms/MessageHandler/Ending.antt =====
-- The loop of `processBytes` ends: the model's fuel is never used up, so that more changes nothing.
use rstudio_launcher_plugin.Base.{
  ℕ, zero, suc, ◌<◌, ◌≤◌, Option, ◌≡◌, refl, inl, inr, List, [], ◌∷◌, length, arith,
}
use rstudio_launcher_plugin.Comms.MessageHandler.{
  ByteOrder, MessageHandler, Status, success, prepend, Round, return, next, process_round,
  process_loop, process_bytes,
}
use rstudio_launcher_plugin.Comms.MessageHandler.Safety.{IsValid, IsSound, process_round-IsSound}

-- Two amounts of fuel, each more than the bytes.
process_loop_round-fuel :
    (o : ByteOrder) (max f g : ℕ) (h : MessageHandler) (d : List ℕ)
    → ((h' : MessageHandler) (d' : List ℕ)
        → length d' < f
        → length d' < g
        → IsValid max h'
        → process_loop o f h' d' ≡ process_loop o g h' d')
    → length d < suc f
    → length d < suc g
    → (r : Round) → process_round o h d ≡ r
    → IsSound max d r
    → process_loop o (suc f) h d ≡ process_loop o (suc g) h d
unfolding process_loop
process_loop_round-fuel o max f g h d ih few few' (return h' st) e s = rw (e, process_loop) refl
process_loop_round-fuel o max f g h d ih few few' (next h' m []) e s = rw (e, process_loop) refl
process_loop_round-fuel o max f g h d ih few few' (next h' m (b ∷ r)) e s =
    let shorter : length (b ∷ r) < length d = elim s.1 [ inl x ↦ cc | inr x ↦ x ] in
    rw (e, process_loop, ih h' (b ∷ r) (omega arith) (omega arith) s.0) refl

process_loop-fuels :
    (o : ByteOrder) (max f g : ℕ) (h : MessageHandler) (d : List ℕ)
    → length d < f
    → length d < g
    → IsValid max h
    → process_loop o f h d ≡ process_loop o g h d
process_loop-fuels o max zero g h d few few' v = absurd (omega arith)
process_loop-fuels o max (suc f) zero h d few few' v = absurd (omega arith)
process_loop-fuels o max (suc f) (suc g) h d few few' v =
    process_loop_round-fuel o max f g h d
      (λ h' d' m n v'. process_loop-fuels o max f g h' d' m n v') few few' (process_round o h d)
      refl (process_round-IsSound o max h d v)

process_loop-process_bytes :
    (o : ByteOrder) (max f : ℕ) (h : MessageHandler) (d : List ℕ)
    → length d < f
    → IsValid max h
    → process_loop o f h d ≡ process_bytes o h d
unfolding process_bytes
process_loop-process_bytes o max f h d few v =
    process_loop-fuels o max f (suc (length d)) h d few (omega arith) v

-- The loop without fuel: it leaves after a number of rounds, with a result.
pub data Runs (o : ByteOrder)
    : ℕ → MessageHandler → List ℕ → MessageHandler × List (List ℕ) × Status → Type 0 where
  returns :
      {h h' : MessageHandler} {d : List ℕ} {st : Status}
      → process_round o h d ≡ return h' st
      → Runs o 1 h d (h', [], st)
  takes_all :
      {h h' : MessageHandler} {d : List ℕ} {m : Option (List ℕ)}
      → process_round o h d ≡ next h' m []
      → Runs o 1 h d (prepend m (h', [], success))
  goes_on :
      {n b : ℕ} {h h' : MessageHandler} {d rest : List ℕ} {m : Option (List ℕ)}
      {r : MessageHandler × List (List ℕ) × Status}
      → process_round o h d ≡ next h' m (b ∷ rest)
      → Runs o n h' (b ∷ rest) r
      → Runs o (suc n) h d (prepend m r)

-- The loop leaves after at most a number of rounds, as the model says with this fuel.
abbrev pub RunsWithin : ByteOrder → ℕ → ℕ → MessageHandler → List ℕ → Type 0
RunsWithin o most f h d = (n : ℕ) × (n ≤ most) × Runs o n h d (process_loop o f h d)

process_loop_round-Runs :
    (o : ByteOrder) (max f : ℕ) (h : MessageHandler) (d : List ℕ)
    → ((h' : MessageHandler) (d' : List ℕ)
        → length d' < f
        → IsValid max h'
        → RunsWithin o (suc (length d')) f h' d')
    → length d < suc f
    → (r : Round) → process_round o h d ≡ r
    → IsSound max d r
    → RunsWithin o (suc (length d)) (suc f) h d
unfolding process_loop
process_loop_round-Runs o max f h d ih few (return h' st) e s =
    (1, omega arith, rw (process_loop, e) (returns e))
process_loop_round-Runs o max f h d ih few (next h' m []) e s =
    (1, omega arith, rw (process_loop, e) (takes_all e))
process_loop_round-Runs o max f h d ih few (next h' m (b ∷ r)) e s =
    let shorter : length (b ∷ r) < length d = elim s.1 [ inl x ↦ cc | inr x ↦ x ] in
    let (n, small, runs) = ih h' (b ∷ r) (omega arith) s.0 in
    (suc n, omega arith, rw (process_loop, e) (goes_on e runs))

process_loop-Runs :
    (o : ByteOrder) (max f : ℕ) (h : MessageHandler) (d : List ℕ)
    → length d < f
    → IsValid max h
    → RunsWithin o (suc (length d)) f h d
process_loop-Runs o max zero h d few v = absurd (omega arith)
process_loop-Runs o max (suc f) h d few v =
    process_loop_round-Runs o max f h d (λ h' d' k w. process_loop-Runs o max f h' d' k w) few
      (process_round o h d) refl (process_round-IsSound o max h d v)

-- On any bytes, from a valid handler, the loop of `processBytes` leaves by a return or with no bytes
-- left after at most one round more than there are bytes, with what `process_bytes` says, and any
-- larger fuel says the same.
pub process_bytes-Runs :
    (o : ByteOrder) (max f : ℕ) (h : MessageHandler) (d : List ℕ)
    → length d < f
    → IsValid max h
    → ((n : ℕ) × (n ≤ suc (length d)) × Runs o n h d (process_bytes o h d))
      × (process_loop o f h d ≡ process_bytes o h d)
unfolding process_bytes
process_bytes-Runs o max f h d few v = (
  process_loop-Runs o max (suc (length d)) h d (omega arith) v,
  process_loop-process_bytes o max f h d few v,
)
