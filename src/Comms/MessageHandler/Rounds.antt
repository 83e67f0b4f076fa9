-- ===== src/Comms/MessageHandler/Rounds.antt =====
-- What one round of the loop of processBytes does, from a place in a stream of messages.
use native.Mathlib.Nat.{zero-add}
use rstudio_launcher_plugin.Base.{
  ℕ, suc, ◌+◌, ◌-◌, ◌≤◌, ◌<◌, ◌≡◌, ◌⊎◌, inl, inr, refl, sym, ap, subst, ◌∙◌, min, true, false, none,
  some, List, [], ◌∷◌, ◌++◌, arith, length, take, length-append, append_assoc, append-nil,
  take-length-append, append_common, ltb, leb, nat_beq,
}
use rstudio_launcher_plugin.Comms.MessageHandler.{
  ByteOrder, u32, MessageHandler, Round, return, next, complete_message, process_payload,
  check_header, process_header, success,
}
use rstudio_launcher_plugin.Comms.MessageHandler.Header.{
  header_of, header_of_read, header_size, header_size-append, read_header_lem,
}
use rstudio_launcher_plugin.Comms.MessageHandler.Payload.{Holds, process_payload-Holds}
use rstudio_launcher_plugin.Comms.MessageHandler.Stream.{
  stream, stream-cons, Fits, idle, in_header, in_payload, Decodes,
}

-- What one round makes of the data `d` of a stream, of which `s` is still to come: it waits for
-- more, or goes on with a rest of `d`, with a message or without.
pub data Advances (o : ByteOrder) (max : ℕ) (ms : List (List ℕ)) (d s : List ℕ)
    : Round → Type 0 where
  waits : (h : MessageHandler) → Decodes o max h ms s → Advances o max ms d s (return h success)
  moves : (h : MessageHandler) → Decodes o max h ms s → Advances o max ms d s (next h none [])
  emits :
      (h : MessageHandler) (m : List ℕ) (later : List (List ℕ)) (r : List ℕ)
      → ms ≡ m ∷ later
      → Decodes o max h later (r ++ s)
      → (r ≡ []) ⊎ (length r < length d)
      → Advances o max ms d s (next h (some m) r)

-- Between messages the handler is at the start of the next header, if there is one.
pub between :
    (o : ByteOrder) {max : ℕ} {h : MessageHandler} (ms : List (List ℕ)) (s : List ℕ)
    → h.max_message_size ≡ max
    → h.bytes_read ≡ 0
    → h.current_payload_size ≡ 0
    → s ≡ stream o ms
    → Decodes o max h ms s
unfolding header_size
between o [] s l b c e = record { limit = l; place = idle refl e b c }
between o (m ∷ ms) s l b c e = record {
  limit = l;
  place =
      in_header m ms [] (header_of o (length m)) refl refl (e ∙ stream-cons o m ms) (omega arith) b
        c;
}

module _ {o : ByteOrder} {max : ℕ} {h : MessageHandler} (m done : List ℕ) (later : List (List ℕ))
    (holds : Holds max h m done) where
  -- A payload that is complete is passed on; one that is not waits for the next call.
  complete_message-Advances :
      (rest r d s : List ℕ)
      → m ≡ done ++ rest
      → r ++ s ≡ rest ++ stream o later
      → (rest ≡ []) ⊎ (r ≡ [])
      → (r ≡ []) ⊎ (length r < length d)
      → Advances o max (m ∷ later) d s (complete_message h r)
  unfolding complete_message
  complete_message-Advances [] r d s cut e one less =
      rw (full, message)
        (emits _ m later r refl (between o later (r ++ s) holds.limit refl refl e) less)
    where
      sizes : length m ≡ length done
      sizes = ap length (cut ∙ append-nil done)

      full : nat_beq h.bytes_read (h.current_payload_size + 4) ≡ true
      full = ground (arith, holds.read, holds.size, sizes)

      message : take h.current_payload_size h.message_buffer ≡ m
      message = rw (holds.size, sizes) (holds.written ∙ sym (cut ∙ append-nil done))
  complete_message-Advances (b ∷ rest) r d s cut e one less =
      rw (more, none_left)
        (moves h (record {
          limit = holds.limit;
          place =
              in_payload m later done (b ∷ rest) refl cut
                (let f : s ≡ (b ∷ rest) ++ stream o later = rw none_left at e in f)
                (omega (arith, sizes)) holds.read holds.size holds.written;
        }))
    where
      sizes : length m ≡ length done + suc (length rest)
      sizes = ap length cut ∙ length-append done (b ∷ rest)

      more : nat_beq h.bytes_read (h.current_payload_size + 4) ≡ false
      more = ground (arith, holds.read, holds.size, sizes)

      none_left : r ≡ []
      none_left = elim one [ inl f ↦ cc | inr f ↦ f ]

-- A round inside a payload, of which `w` is at hand, with what follows it.
process_payload-Advances :
    {o : ByteOrder} {max : ℕ} {h : MessageHandler} (m done : List ℕ) (later : List (List ℕ))
    (w r rest d s : List ℕ)
    → Holds max h m done
    → Fits max m
    → m ≡ done ++ (w ++ rest)
    → r ++ s ≡ rest ++ stream o later
    → (rest ≡ []) ⊎ (r ≡ [])
    → (r ≡ []) ⊎ (length r < length d)
    → Advances o max (m ∷ later) d s (process_payload h (w ++ r))
process_payload-Advances m done later w r rest d s holds fits cut e one less =
    let (h', stored, holds') = process_payload-Holds m done w rest r holds fits cut one in
    rw stored (
      complete_message-Advances m (done ++ w) later holds' rest r d s
        (cut ∙ sym (append_assoc done w rest)) e one less)

-- The header's bytes `w` are taken in.
pub process_header_lem :
    (h : MessageHandler) (done w r rest : List ℕ)
    → 4 ≤ h.max_message_size
    → h.bytes_read ≡ length done
    → h.current_payload_size ≡ header_size 0 0 done
    → length done < 4
    → length done + (length w + length rest) ≡ 4
    → (rest ≡ []) ⊎ (r ≡ [])
    → process_header h (w ++ r) ≡ (
      record h {
        current_payload_size = header_size 0 0 (done ++ w);
        bytes_read = length (done ++ w);
      },
      length w,
    )
unfolding process_header
process_header_lem h done w r rest limit read size below four one =
    rw
      (
        open_header,
        taken,
        read_header_lem (length w) (w ++ r) h (omega (arith, length-append w r)),
        take-length-append w r,
        read,
        size,
        length-append done w,
        header_size-append 0 0 done w,
        zero-add (length done),
      )
      refl
  where
    open_header : leb h.max_message_size h.bytes_read ≡ false
    open_header = ground (arith, limit, read, below)

    one_empty : (length rest ≡ 0) ⊎ (length r ≡ 0)
    one_empty = elim one [ inl e ↦ inl (ap length e) | inr e ↦ inr (ap length e) ]

    taken : min (4 - h.bytes_read) (length (w ++ r)) ≡ length w
    taken = omega (arith, read, four, one_empty, length-append w r)

-- A round inside a payload, on what is left of the round's data `d`.
pub payload_round :
    {o : ByteOrder} {max : ℕ} {h : MessageHandler} (m done : List ℕ) (later : List (List ℕ))
    (rest d' d s : List ℕ)
    → Holds max h m done
    → Fits max m
    → m ≡ done ++ rest
    → d' ++ s ≡ rest ++ stream o later
    → length d' < length d + length rest
    → Advances o max (m ∷ later) d s (process_payload h d')
payload_round {o} {max} {h} m done later rest d' d s holds fits cut e less =
    let (w, left, rest', p, q, e', one) = append_common d' s rest (stream o later) e in
    let shorter : length rest' ≡ 0 → length left < length d = λ none_left.
      omega (arith, ap length p, length-append w left, ap length q, length-append w rest') in
    subst (λ x. Advances o max (m ∷ later) d s (process_payload h x)) (sym p)
      (process_payload-Advances m done later w left rest' d s holds fits (cut ∙ ap (◌++◌ done) q) e'
        (elim one [ inl none_left ↦ inr none_left | inr none_left ↦ inl none_left ])
        (elim one [
          | inl none_left ↦ inl none_left
          | inr none_left ↦ inr (shorter (ap length none_left))
        ]))

-- A header that is complete gives the payload's size, which the handler accepts.
pub check_header-Advances :
    {o : ByteOrder} {max : ℕ} (h : MessageHandler) (m : List ℕ) (later : List (List ℕ))
    (r d s : List ℕ)
    → h.max_message_size ≡ max
    → Fits max m
    → h.bytes_read ≡ 4
    → h.current_payload_size ≡ header_size 0 0 (header_of o (length m))
    → r ++ s ≡ m ++ stream o later
    → length r < length d
    → Advances o max (m ∷ later) d s (check_header o h r)
unfolding check_header
check_header-Advances {o} h m later r d s limit fits read size e less =
    rw (payload, accepted)
      (payload_round m [] later m r d s
        (record { limit = limit; read = read; size = refl; written = refl }) fits refl e
        (omega arith))
  where
    payload : o.network_to_host_long (u32 h.current_payload_size) ≡ length m
    payload = rw size (header_of_read o (length m) fits.1)

    accepted : ltb h.max_message_size (length m) ≡ false
    accepted = ground (arith, limit, fits.0)
