-- ===== src/Comms/MessageHandler/Oversized.antt =====
-- A message above the limit: it is refused, and what a handler does that is used afterwards.
use rstudio_launcher_plugin.Base.{
  ℕ, ◌+◌, ◌≤◌, ◌<◌, ◌≡◌, refl, ap, min, inl, true, List, [], ◌++◌, arith, length, ltb, lt→ltb,
}
use rstudio_launcher_plugin.Comms.MessageHandler.{
  ByteOrder, MessageHandler, return, process_payload, process_round, check_header, overrun,
  protocol_error, process_loop, process_bytes, new_handler, format_message, bytes_to_write,
}
use rstudio_launcher_plugin.Comms.MessageHandler.Header.{
  header_size, header_of, header_of_lem, header_of_read,
}
use rstudio_launcher_plugin.Comms.MessageHandler.Rounds.{process_header_lem}

-- The handler as the refusal leaves it: behind the header, with the size that it refused.
abbrev refused : ℕ → List ℕ → ℕ → MessageHandler
refused max buffer n = record {
  max_message_size = max;
  current_payload_size = n;
  bytes_read = 4;
  message_buffer = buffer;
}

refusing_round :
    (o : ByteOrder) (max : ℕ) (buffer m : List ℕ)
    → 4 ≤ max
    → max < length m
    → length m < 4294967296
    → process_round o (new_handler max buffer) (header_of o (length m) ++ m)
      ≡ return (refused max buffer (length m)) (protocol_error (length m))
unfolding process_round check_header new_handler
refusing_round o max buffer m four above word =
    let four_bytes : length (header_of o (length m)) ≡ 4 =
      ap length (header_of_lem o (length m) word) in
    let header =
      process_header_lem (new_handler max buffer) [] (header_of o (length m)) m [] four refl
        (unfold header_size in refl) (omega arith) (omega (arith, four_bytes)) (inl refl) in
    rw (header, four_bytes, header_of_read o (length m) word, lt→ltb max (length m) above) refl

formatted : (o : ByteOrder) (m : List ℕ) → format_message o m ≡ header_of o (length m) ++ m
unfolding format_message header_of
formatted o m = refl

-- A message above the limit is refused as soon as its header is read, and none of it is stored.
process_bytes_oversized :
    (o : ByteOrder) (max : ℕ) (buffer m : List ℕ)
    → 4 ≤ max
    → max < length m
    → length m < 4294967296
    → process_bytes o (new_handler max buffer) (format_message o m)
      ≡ (refused max buffer (length m), [], protocol_error (length m))
unfolding process_bytes process_loop
process_bytes_oversized o max buffer m four above word =
    rw (formatted o m, refusing_round o max buffer m four above word, process_loop) refl

overrunning_round :
    (o : ByteOrder) (max n : ℕ) (buffer d : List ℕ)
    → max < n
    → n < 18446744073709551616
    → max < length d
    → process_round o (refused max buffer n) d ≡ return (refused max buffer n) overrun
unfolding process_round process_payload
overrunning_round o max n buffer d above word long =
    let amount : bytes_to_write (refused max buffer n) d ≡ min n (length d) = omega arith in
    let some_left : ltb 0 (min n (length d)) ≡ true = ground arith in
    let outside : ltb max (0 + min n (length d)) ≡ true = ground arith in
    rw (amount, some_left, outside) refl

-- The handler has forgotten that it refused. When it is used again, a read longer than its limit is
-- written past the end of the buffer.
pub overrun_after_error :
    (o : ByteOrder) (max : ℕ) (buffer m d : List ℕ)
    → 4 ≤ max
    → max < length m
    → length m < 4294967296
    → max < length d
    → let (h, given, status) = process_bytes o (new_handler max buffer) (format_message o m) in
      (status ≡ protocol_error (length m)) × (given ≡ []) × ((process_bytes o h d).2 ≡ overrun)
unfolding process_bytes process_loop
overrun_after_error o max buffer m d four above word long =
    let first = process_bytes_oversized o max buffer m four above word in
    rw (first, overrunning_round o max (length m) buffer d above (omega arith) long, process_loop)
      (refl, refl, refl)
