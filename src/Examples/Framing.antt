-- ===== src/Examples/Framing.antt =====
-- sdk/src/comms/MessageHandler.cpp on short messages.
use rstudio_launcher_plugin.Base.{ℕ, ◌/◌, ◌%◌, ◌<◌, ◌≤◌, ◌≡◌, refl, List, [], ◌∷◌, arith}
use rstudio_launcher_plugin.Comms.MessageHandler.{
  process_loop, ByteOrder, of_bytes, success, protocol_error, overrun, new_handler, process_bytes,
  process_chunks, format_message, bytes_in_memory,
}
use rstudio_launcher_plugin.Comms.MessageHandler.Stream.{AllFit}
use rstudio_launcher_plugin.Comms.MessageHandler.RoundTrip.{process_chunks-format}
use rstudio_launcher_plugin.Comms.MessageHandler.Safety.{
  IsSafe, process_bytes-IsSafe, new_handler-IsValid,
}
use rstudio_launcher_plugin.Comms.MessageHandler.Ending.{Runs, process_bytes-Runs}
use rstudio_launcher_plugin.Comms.MessageHandler.Oversized.{overrun_after_error}

-- Four bytes in the other order.
abbrev swap : ℕ → ℕ
swap n = of_bytes (n / 16777216 % 256) (n / 65536 % 256) (n / 256 % 256) (n % 256)

swap_bytes :
    (b0 b1 b2 b3 : ℕ)
    → b0 < 256
    → b1 < 256
    → b2 < 256
    → b3 < 256
    → swap (of_bytes b0 b1 b2 b3) ≡ of_bytes b3 b2 b1 b0
swap_bytes b0 b1 b2 b3 h0 h1 h2 h3 = omega arith

abbrev little_endian : ByteOrder
little_endian = record {
  host_to_network_long = swap;
  network_to_host_long = swap;
  host_to_network_bytes = swap_bytes;
  network_to_host_bytes = swap_bytes;
}

abbrev messages : List (List ℕ)
messages = (104 ∷ 105 ∷ []) ∷ [] ∷ (1 ∷ 2 ∷ 3 ∷ []) ∷ []

abbrev reads : List (List ℕ)
reads = (0 ∷ []) ∷ (0 ∷ 0 ∷ 2 ∷ 104 ∷ []) ∷ (105 ∷ 0 ∷ 0 ∷ 0 ∷ 0 ∷ 0 ∷ []) ∷ []

abbrev later_reads : List (List ℕ)
later_reads = (0 ∷ 0 ∷ 3 ∷ 1 ∷ 2 ∷ 3 ∷ []) ∷ []

abbrev all_reads : List (List ℕ)
all_reads =
    (0 ∷ 0 ∷ [])
    ∷ []
    ∷ (0 ∷ 2 ∷ 104 ∷ 105 ∷ 0 ∷ 0 ∷ 0 ∷ 0 ∷ 0 ∷ 0 ∷ 0 ∷ [])
    ∷ (3 ∷ 1 ∷ 2 ∷ 3 ∷ [])
    ∷ []

messages_fit : AllFit 5 messages
messages_fit = ground arith

process_chunks-format_example :
    let (h, given, status) =
      process_chunks little_endian (new_handler 5 (9 ∷ 9 ∷ 9 ∷ 9 ∷ 9 ∷ [])) all_reads in
    (status ≡ success) × (given ≡ messages) × (h.bytes_read ≡ 0) × (h.current_payload_size ≡ 0)
unfolding format_message bytes_in_memory
process_chunks-format_example =
    process_chunks-format little_endian 5 (9 ∷ 9 ∷ 9 ∷ 9 ∷ 9 ∷ []) messages all_reads (omega arith)
      messages_fit refl

process_bytes-IsSafe_example :
    let (h', _, status) =
      process_bytes little_endian
        (new_handler 5 (9 ∷ 9 ∷ 9 ∷ 9 ∷ 9 ∷ []))
        (0 ∷ 0 ∷ 0 ∷ 1 ∷ 7 ∷ 8 ∷ []) in
    IsSafe 5 h' status
process_bytes-IsSafe_example =
    process_bytes-IsSafe little_endian 5 (new_handler 5 (9 ∷ 9 ∷ 9 ∷ 9 ∷ 9 ∷ []))
      (0 ∷ 0 ∷ 0 ∷ 1 ∷ 7 ∷ 8 ∷ []) (new_handler-IsValid 5 (9 ∷ 9 ∷ 9 ∷ 9 ∷ 9 ∷ []) (omega arith))

overrun_after_error_example :
    let (h, given, status) =
      process_bytes little_endian
        (new_handler 4 (9 ∷ 9 ∷ 9 ∷ 9 ∷ []))
        (format_message little_endian (1 ∷ 2 ∷ 3 ∷ 4 ∷ 5 ∷ [])) in
    (status ≡ protocol_error 5)
    × (given ≡ [])
    × ((process_bytes little_endian h (1 ∷ 2 ∷ 3 ∷ 4 ∷ 5 ∷ [])).2 ≡ overrun)
overrun_after_error_example =
    overrun_after_error little_endian 4 (9 ∷ 9 ∷ 9 ∷ 9 ∷ []) (1 ∷ 2 ∷ 3 ∷ 4 ∷ 5 ∷ [])
      (1 ∷ 2 ∷ 3 ∷ 4 ∷ 5 ∷ []) (omega arith) (omega arith) (omega arith) (omega arith)

process_bytes-Runs_example :
    ((n : ℕ) × (n ≤ 7)
      × Runs little_endian n (new_handler 5 (9 ∷ 9 ∷ 9 ∷ 9 ∷ 9 ∷ [])) (0 ∷ 0 ∷ 0 ∷ 1 ∷ 7 ∷ 8 ∷ []) (
          process_bytes little_endian
            (new_handler 5 (9 ∷ 9 ∷ 9 ∷ 9 ∷ 9 ∷ []))
            (0 ∷ 0 ∷ 0 ∷ 1 ∷ 7 ∷ 8 ∷ [])))
    × (process_loop little_endian 20
          (new_handler 5 (9 ∷ 9 ∷ 9 ∷ 9 ∷ 9 ∷ []))
          (0 ∷ 0 ∷ 0 ∷ 1 ∷ 7 ∷ 8 ∷ [])
        ≡ process_bytes little_endian
            (new_handler 5 (9 ∷ 9 ∷ 9 ∷ 9 ∷ 9 ∷ []))
            (0 ∷ 0 ∷ 0 ∷ 1 ∷ 7 ∷ 8 ∷ []))
process_bytes-Runs_example =
    process_bytes-Runs little_endian 5 20 (new_handler 5 (9 ∷ 9 ∷ 9 ∷ 9 ∷ 9 ∷ []))
      (0 ∷ 0 ∷ 0 ∷ 1 ∷ 7 ∷ 8 ∷ []) (omega arith)
      (new_handler-IsValid 5 (9 ∷ 9 ∷ 9 ∷ 9 ∷ 9 ∷ []) (omega arith))
