-- ===== src/Comms/MessageHandler/Decoding.antt =====
-- `processBytes` takes a stream of formatted messages apart, whatever chunks it arrives in.
use rstudio_launcher_plugin.Base.{
  ℕ, zero, suc, ◌+◌, ◌-◌, ◌≤◌, ◌<◌, ◌≡◌, ◌⊎◌, inl, inr, refl, sym, ap, subst, ◌∙◌, min, true, false,
  List, [], ◌∷◌, ◌++◌, arith, length, length-append, append_assoc, append-nil, drop-length-append,
  append_common, ltb, leb, nat_beq,
}
use rstudio_launcher_plugin.Comms.MessageHandler.{
  ByteOrder, MessageHandler, Round, return, process_round, process_header, read_header, success,
  Status, process_loop,
}
use rstudio_launcher_plugin.Comms.MessageHandler.Header.{header_of, header_of_lem, header_size}
use rstudio_launcher_plugin.Comms.MessageHandler.Payload.{Holds}
use rstudio_launcher_plugin.Comms.MessageHandler.Stream.{
  stream, Fits, AllFit, Place, idle, in_header, in_payload, Decodes,
}
use rstudio_launcher_plugin.Comms.MessageHandler.Rounds.{
  Advances, process_header_lem, payload_round, check_header-Advances, waits, moves, emits,
}

-- A round inside a header, of which `w` is at hand, with what follows it.
header_round :
    {o : ByteOrder} {max : ℕ} (h : MessageHandler) (m done : List ℕ) (later : List (List ℕ))
    (w r rest s : List ℕ)
    → 4 ≤ max
    → h.max_message_size ≡ max
    → Fits max m
    → header_of o (length m) ≡ done ++ (w ++ rest)
    → r ++ s ≡ rest ++ (m ++ stream o later)
    → (rest ≡ []) ⊎ (r ≡ [])
    → length done < 4
    → h.bytes_read ≡ length done
    → h.current_payload_size ≡ header_size 0 0 done
    → Advances o max (m ∷ later) (w ++ r) s (process_round o h (w ++ r))
unfolding process_round
header_round {o} h m done later w r [] s four limit fits cut e one below read size =
    rw
      (
        opened,
        process_header_lem h done w r [] (omega arith) read size below lengths one,
        full,
        drop-length-append w r,
      )
      (check_header-Advances _ m later r (w ++ r) s limit fits whole
        (ap (header_size 0 0) (sym (cut ∙ ap (◌++◌ done) (append-nil w)))) e
        (omega (arith, length-append w r, lengths)))
  where
    opened : ltb h.bytes_read 4 ≡ true
    opened = ground (arith, read, below)

    lengths : length done + (length w + 0) ≡ 4
    lengths = omega (
      arith,
      ap length (header_of_lem o (length m) fits.1),
      ap length cut,
      length-append done (w ++ []),
      length-append w [],
    )

    whole : length (done ++ w) ≡ 4
    whole = omega (arith, lengths, length-append done w)

    full : nat_beq (length (done ++ w)) 4 ≡ true
    full = ground (arith, whole)
header_round {o} h m done later w r (b ∷ rest) s four limit fits cut e one below read size =
    rw
      (
        opened,
        process_header_lem h done w r (b ∷ rest) (omega arith) read size below lengths one,
        part,
      )
      (waits _ (record {
        limit = limit;
        place =
            in_header m later (done ++ w) (b ∷ rest) refl
              (cut ∙ sym (append_assoc done w (b ∷ rest))) ended
              (omega (arith, lengths, length-append done w)) refl refl;
      }))
  where
    opened : ltb h.bytes_read 4 ≡ true
    opened = ground (arith, read, below)

    lengths : length done + (length w + suc (length rest)) ≡ 4
    lengths = omega (
      arith,
      ap length (header_of_lem o (length m) fits.1),
      ap length cut,
      length-append done (w ++ b ∷ rest),
      length-append w (b ∷ rest),
    )

    part : nat_beq (length (done ++ w)) 4 ≡ false
    part = ground (arith, lengths, length-append done w)

    none_left : r ≡ []
    none_left = elim one [ inl f ↦ cc | inr f ↦ f ]

    ended : s ≡ (b ∷ rest) ++ (m ++ stream o later)
    ended = rw none_left at e

-- With nothing to read, a handler between messages waits.
idle_round :
    (o : ByteOrder) (h : MessageHandler)
    → 4 ≤ h.max_message_size
    → h.bytes_read ≡ 0
    → process_round o h [] ≡ return h success
unfolding process_round process_header read_header
idle_round o h four e =
    let closed : leb h.max_message_size h.bytes_read ≡ false = ground (arith, four, e) in
    let nothing : min (4 - h.bytes_read) 0 ≡ 0 = omega arith in
    let opened : ltb h.bytes_read 4 ≡ true = ground (arith, e) in
    let part : nat_beq h.bytes_read 4 ≡ false = ground (arith, e) in
    rw (opened, closed, nothing, part) refl

payload_place :
    {o : ByteOrder} {max : ℕ} {h : MessageHandler} (m done : List ℕ) (later : List (List ℕ))
    (rest d s : List ℕ)
    → Holds max h m done
    → Fits max m
    → m ≡ done ++ rest
    → d ++ s ≡ rest ++ stream o later
    → length done < length m
    → Advances o max (m ∷ later) d s (process_round o h d)
unfolding process_round
payload_place {h = h} m done later rest d s holds fits cut e below =
    let behind : ltb h.bytes_read 4 ≡ false = ground (arith, holds.read) in
    rw behind (
      payload_round m done later rest d d s holds fits cut e
        (omega (arith, ap length cut, length-append done rest)))

-- A round at any place of a stream.
round-Advances :
    {o : ByteOrder} {max : ℕ} {h : MessageHandler} (ms : List (List ℕ)) (d s : List ℕ)
    → 4 ≤ max
    → AllFit max ms
    → h.max_message_size ≡ max
    → Place o h ms (d ++ s)
    → Advances o max ms d s (process_round o h d)
round-Advances {o} {max} {h} ms [] s four fits limit (idle e f b c) =
    rw (idle_round o h (omega arith) b) (waits h (record { limit = limit; place = idle e f b c }))
round-Advances ms (x ∷ d) s four fits limit (idle e f b c) = cc
round-Advances {o} {max} {h} ms d s four fits limit
      (in_header m later done rest e cut f below b c) =
    let (w, left, rest', p, q, e', one) = append_common d s rest (m ++ stream o later) f in
    let all_fit = subst (AllFit max) e fits in
    let swapped : (rest' ≡ []) ⊎ (left ≡ []) = elim one [ inl g ↦ inr g | inr g ↦ inl g ] in
    subst (λ x. Advances o max x d s (process_round o h d)) (sym e)
      (subst (λ x. Advances o max (m ∷ later) x s (process_round o h x)) (sym p)
        (header_round h m done later w left rest' s four limit all_fit.0 (cut ∙ ap (◌++◌ done) q) e'
          swapped below b c))
round-Advances {o} {max} {h} ms d s four fits limit
      (in_payload m later done rest e cut f below b c w) =
    let all_fit = subst (AllFit max) e fits in
    subst (λ x. Advances o max x d s (process_round o h d)) (sym e)
      (payload_place m done later rest d s
        (record { limit = limit; read = b; size = c; written = w }) all_fit.0 cut f below)

-- What a call, or a run of calls, makes of a stream: it succeeds, gives the messages that end in
-- its data, and is ready for those that do not.
pub record Delivers (o : ByteOrder) (max : ℕ) (ms : List (List ℕ)) (s : List ℕ)
    (r : MessageHandler × List (List ℕ) × Status) : Type 0 where
  pub ended : r.2 ≡ success
  pub later : List (List ℕ)
  pub given : ms ≡ r.1 ++ later
  pub ready : Decodes o max r.0 later s

-- A round, and the loop behind it by induction on its fuel.
process_loop_round :
    {o : ByteOrder} {max : ℕ} (fuel : ℕ) (h : MessageHandler) (ms : List (List ℕ)) (d s : List ℕ)
    → ((h' : MessageHandler) (ms' : List (List ℕ)) (d' : List ℕ)
        → AllFit max ms'
        → length d' < fuel
        → Decodes o max h' ms' (d' ++ s)
        → Delivers o max ms' s (process_loop o fuel h' d'))
    → AllFit max ms
    → length d < suc fuel
    → (r : Round) → process_round o h d ≡ r
    → Advances o max ms d s r
    → Delivers o max ms s (process_loop o (suc fuel) h d)
unfolding process_loop
process_loop_round fuel h ms d s ih fits enough _ e (waits h' at) =
    rw (e, process_loop) (record { ended = refl; later = ms; given = refl; ready = at })
process_loop_round fuel h ms d s ih fits enough _ e (moves h' at) =
    rw (e, process_loop) (record { ended = refl; later = ms; given = refl; ready = at })
process_loop_round fuel h ms d s ih fits enough _ e (emits h' m later [] split at less) =
    rw (e, process_loop) (record { ended = refl; later = later; given = split; ready = at })
process_loop_round {o} {max} fuel h ms d s ih fits enough _ e
      (emits h' m later (b ∷ r) split at less) =
    let shorter : length (b ∷ r) < length d = elim less [ inl f ↦ cc | inr f ↦ f ] in
    let all_fit = subst (AllFit max) split fits in
    let rest = ih h' later (b ∷ r) all_fit.1 (omega arith) at in
    rw (e, process_loop)
      (record {
        ended = rest.ended;
        later = rest.later;
        given = split ∙ ap (◌∷◌ m) rest.given;
        ready = rest.ready;
      })

pub process_loop-Delivers :
    {o : ByteOrder} {max : ℕ} (fuel : ℕ) (h : MessageHandler) (ms : List (List ℕ)) (d s : List ℕ)
    → 4 ≤ max
    → AllFit max ms
    → length d < fuel
    → Decodes o max h ms (d ++ s)
    → Delivers o max ms s (process_loop o fuel h d)
process_loop-Delivers zero h ms d s four fits enough at = absurd (omega arith)
process_loop-Delivers {o} {max} (suc fuel) h ms d s four fits enough at =
    process_loop_round fuel h ms d s
      (λ h' ms' d' fits' enough' at'. process_loop-Delivers fuel h' ms' d' s four fits' enough' at')
      fits enough (process_round o h d) refl (round-Advances ms d s four fits at.limit at.place)
