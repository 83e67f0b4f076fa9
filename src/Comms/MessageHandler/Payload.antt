-- ===== src/Comms/MessageHandler/Payload.antt =====
-- One round of `processBytes` inside a payload.
use rstudio_launcher_plugin.Base.{
  ℕ, suc, ◌+◌, ◌-◌, ◌≡◌, ◌⊎◌, inl, inr, refl, ap, ◌∙◌, false, List, [], ◌∷◌, ◌++◌, arith, length,
  take, length-append, append-nil, take-length-append, drop-length-append, ltb, lt→ltb,
}
use rstudio_launcher_plugin.Comms.MessageHandler.{
  MessageHandler, write_at, complete_message, process_payload, bytes_to_write, write_payload,
  written_message_bytes,
}
use rstudio_launcher_plugin.Comms.MessageHandler.Stream.{Fits}

-- The handler has `done` of the payload `m` in its buffer.
pub record Holds (max : ℕ) (h : MessageHandler) (m done : List ℕ) : Type 0 where
  pub limit : h.max_message_size ≡ max
  pub read : h.bytes_read ≡ 4 + length done
  pub size : h.current_payload_size ≡ length m
  pub written : take (length done) h.message_buffer ≡ done

take-write_at :
    (buffer done w : List ℕ)
    → take (length done) buffer ≡ done
    → take (length (done ++ w)) (write_at buffer (length done) w) ≡ done ++ w
unfolding write_at
take-write_at buffer done w e = rw e (take-length-append (done ++ w) _)

module _ {max : ℕ} {h : MessageHandler} (m done w rest r : List ℕ) (holds : Holds max h m done)
    (fits : Fits max m) (cut : m ≡ done ++ (w ++ rest)) (one : (rest ≡ []) ⊎ (r ≡ [])) where
  length-cut : length m ≡ length done + (length w + length rest)
  length-cut =
      ap length cut
      ∙ length-append done (w ++ rest)
      ∙ ap (λ k. length done + k) (length-append w rest)

  one_empty : (length rest ≡ 0) ⊎ (length r ≡ 0)
  one_empty = elim one [ inl e ↦ inl (ap length e) | inr e ↦ inr (ap length e) ]

  bytes_to_write-length : bytes_to_write h (w ++ r) ≡ length w
  unfolding bytes_to_write
  bytes_to_write-length =
      omega (arith, length-cut, one_empty, length-append w r, holds.read, holds.size, fits.1)

  write_payload-Holds : Holds max (write_payload h w) m (done ++ w)
  unfolding write_payload
  write_payload-Holds = record {
    limit = holds.limit;
    read = omega (arith, holds.read, length-append done w);
    size = holds.size;
    written =
        let at : h.bytes_read - 4 ≡ length done = omega (arith, holds.read) in
        rw at (take-write_at h.message_buffer done w holds.written);
  }

  -- The write stays inside the buffer.
  within_limit : ltb h.max_message_size (written_message_bytes h + length w) ≡ false
  unfolding written_message_bytes
  within_limit = ground (arith, holds.read, holds.limit, length-cut, fits.0)

-- The bytes `w`, which still belong to the payload, go to the buffer behind `done`.
pub process_payload-Holds :
    {max : ℕ} {h : MessageHandler} (m done w rest r : List ℕ)
    → Holds max h m done
    → Fits max m
    → m ≡ done ++ (w ++ rest)
    → (rest ≡ []) ⊎ (r ≡ [])
    → (h' : MessageHandler) × (process_payload h (w ++ r) ≡ complete_message h' r)
      × Holds max h' m (done ++ w)
unfolding process_payload
process_payload-Holds {h} m done [] rest r holds fits cut one = (
  h,
  rw (bytes_to_write-length m done [] rest r holds fits cut one) refl,
  rw (append-nil done) holds,
)
process_payload-Holds {h} m done (b ∷ v) rest r holds fits cut one = (
  write_payload h (b ∷ v),
  rw
      (
        bytes_to_write-length m done (b ∷ v) rest r holds fits cut one,
        lt→ltb 0 (suc (length v)) (omega arith),
        within_limit m done (b ∷ v) rest r holds fits cut one,
        take-length-append v r,
        drop-length-append v r,
      )
      refl,
  write_payload-Holds m done (b ∷ v) rest r holds fits cut one,
)
