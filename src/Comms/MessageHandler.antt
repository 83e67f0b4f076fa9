-- ===== src/Comms/MessageHandler.antt =====
-- sdk/src/comms/MessageHandler.cpp: messages framed by a 4-byte length. A `size_t` is a number below
-- 2 ^ 64, a byte one below 256, and the host is little-endian, as on every platform of the SDK.
pub mod Header
pub mod Stream
pub mod Payload
pub mod Rounds
pub mod Decoding
pub mod RoundTrip
pub mod Safety
pub mod Ending
pub mod Oversized
use rstudio_launcher_plugin.Base.{
  ℕ, zero, suc, ◌+◌, ◌-◌, ◌*◌, ◌/◌, ◌%◌, ◌^◌, ◌<◌, ◌≡◌, min, bit_or, Bool, true, false, Option,
  none, some, List, [], ◌∷◌, ◌++◌, ltb, leb, nat_beq, if◌then◌else◌, length, take, drop,
}

-- The number whose bytes lie in memory in this order, the lowest first.
abbrev pub of_bytes : ℕ → ℕ → ℕ → ℕ → ℕ
of_bytes b0 b1 b2 b3 = b0 + b1 * 256 + b2 * 65536 + b3 * 16777216

-- Boost's `socket_ops`, as documented for a little-endian host: both reverse four bytes.
pub record ByteOrder : Type 0 where
  pub host_to_network_long : ℕ → ℕ
  pub network_to_host_long : ℕ → ℕ
  pub host_to_network_bytes :
      (b0 b1 b2 b3 : ℕ)
      → b0 < 256
      → b1 < 256
      → b2 < 256
      → b3 < 256
      → host_to_network_long (of_bytes b0 b1 b2 b3) ≡ of_bytes b3 b2 b1 b0
  pub network_to_host_bytes :
      (b0 b1 b2 b3 : ℕ)
      → b0 < 256
      → b1 < 256
      → b2 < 256
      → b3 < 256
      → network_to_host_long (of_bytes b0 b1 b2 b3) ≡ of_bytes b3 b2 b1 b0

abbrev pub message_header_size : ℕ
message_header_size = 4

abbrev pub default_max_message_size : ℕ
default_max_message_size = 5242880

-- A conversion to `uint32_t`.
abbrev pub u32 : ℕ → ℕ
u32 n = n % 4294967296

pub record MessageHandler : Type 0 where
  pub max_message_size : ℕ
  pub current_payload_size : ℕ
  pub bytes_read : ℕ
  pub message_buffer : List ℕ

-- The constructor; what `new char[MaxMessageSize]` holds is not specified.
unfoldable pub new_handler : ℕ → List ℕ → MessageHandler
new_handler max buffer = record {
  max_message_size = max;
  current_payload_size = 0;
  bytes_read = 0;
  message_buffer = buffer;
}

-- The bytes of a number in the host's memory.
unfoldable pub bytes_in_memory : ℕ → ℕ → List ℕ
bytes_in_memory zero n = []
bytes_in_memory (suc k) n = (n % 256) ∷ bytes_in_memory k (n / 256)

-- `formatMessage`, less its log line.
unfoldable pub format_message : ByteOrder → List ℕ → List ℕ
format_message o message = bytes_in_memory message_header_size payload_size ++ message
  where
    payload_size : ℕ
    payload_size = o.host_to_network_long (u32 (length message))

-- `static_cast<unsigned char>(b) << (i * 8)`: an `int`, sign-extended where it meets a `size_t`.
unfoldable pub shift_byte : ℕ → ℕ → ℕ
shift_byte b i =
    let value = u32 (b * 2 ^ (i * 8)) in
    if ltb value 2147483648 then value else value + 18446744069414584320

-- The loop of `processHeader`, over its first `n` bytes.
unfoldable pub read_header : ℕ → List ℕ → MessageHandler → MessageHandler
read_header zero bytes h = h
read_header (suc n) [] h = h
read_header (suc n) (b ∷ bytes) h = read_header n bytes (record h {
  current_payload_size = bit_or h.current_payload_size (shift_byte b h.bytes_read);
  bytes_read = h.bytes_read + 1;
})

-- `processHeader`: the number of bytes that it took, and the handler.
unfoldable pub process_header : MessageHandler → List ℕ → MessageHandler × ℕ
process_header h data' =
    if leb h.max_message_size h.bytes_read
    then (h, 0)
    else (read_header bytes_to_read data' h, bytes_to_read)
  where
    bytes_to_read : ℕ
    bytes_to_read = min (message_header_size - h.bytes_read) (length data')

-- `std::memcpy` to an offset of the buffer.
unfoldable pub write_at : List ℕ → ℕ → List ℕ → List ℕ
write_at buffer offset bytes = take offset buffer ++ bytes ++ drop (offset + length bytes) buffer

-- How a call of `processBytes` ends. `overrun` is a write past the end of the buffer, which is
-- undefined behaviour, and `diverged` a loop that makes no progress.
pub data Status : Type 0 where
  success overrun diverged : Status
  protocol_error : ℕ → Status

-- One round of the loop: it returns, or it goes on with the rest of the data.
pub data Round : Type 0 where
  return : MessageHandler → Status → Round
  next : MessageHandler → Option (List ℕ) → List ℕ → Round

-- A full message is passed on, and the tracking variables are reset.
unfoldable pub complete_message : MessageHandler → List ℕ → Round
complete_message h rest =
    if nat_beq h.bytes_read (h.current_payload_size + message_header_size)
    then next (record h { bytes_read = 0; current_payload_size = 0 })
        (some (take h.current_payload_size h.message_buffer)) rest
    else next h none rest

-- The payload's bytes that are in the buffer, and those that are not: a difference of two `size_t`.
unfoldable pub written_message_bytes : MessageHandler → ℕ
written_message_bytes h = h.bytes_read - message_header_size

unfoldable pub remaining_message_bytes : MessageHandler → ℕ
unfolding written_message_bytes
remaining_message_bytes h =
    (h.current_payload_size + 18446744073709551616 - written_message_bytes h) % 18446744073709551616

unfoldable pub bytes_to_write : MessageHandler → List ℕ → ℕ
unfolding remaining_message_bytes
bytes_to_write h data' = min (remaining_message_bytes h) (length data')

-- The bytes go behind those that are in the buffer.
unfoldable pub write_payload : MessageHandler → List ℕ → MessageHandler
unfolding written_message_bytes
write_payload h bytes = record h {
  message_buffer = write_at h.message_buffer (written_message_bytes h) bytes;
  bytes_read = h.bytes_read + length bytes;
}

-- The round's part behind the header.
unfoldable pub process_payload : MessageHandler → List ℕ → Round
unfolding complete_message bytes_to_write written_message_bytes write_payload
process_payload h data' =
    let n = bytes_to_write h data' in
    if ltb 0 n
    then (if ltb h.max_message_size (written_message_bytes h + n)
        then return h overrun
        else complete_message (write_payload h (take n data')) (drop n data'))
    else complete_message h data'

-- What the round does once the header is complete.
unfoldable pub check_header : ByteOrder → MessageHandler → List ℕ → Round
check_header o h data' =
    if ltb h.max_message_size payload_size
    then return (record h { current_payload_size = payload_size }) (protocol_error payload_size)
    else process_payload (record h { current_payload_size = payload_size }) data'
  where
    payload_size : ℕ
    payload_size = o.network_to_host_long (u32 h.current_payload_size)

unfoldable pub process_round : ByteOrder → MessageHandler → List ℕ → Round
process_round o h data' =
    if ltb h.bytes_read message_header_size
    then (let (h', taken) = process_header h data' in
        if nat_beq h'.bytes_read message_header_size
        then check_header o h' (drop taken data')
        else return h' success)
    else process_payload h data'

abbrev pub prepend :
    Option (List ℕ)
    → MessageHandler × List (List ℕ) × Status
    → MessageHandler × List (List ℕ) × Status
prepend none r = r
prepend (some m) (h, ms, st) = (h, m ∷ ms, st)

-- The `do` loop, at most `fuel` times.
unfoldable pub process_loop :
    ByteOrder → ℕ → MessageHandler → List ℕ → MessageHandler × List (List ℕ) × Status
process_loop o zero h data' = (h, [], diverged)
process_loop o (suc fuel) h data' = elim (process_round o h data') [
  | return h' st ↦ (h', [], st)
  | next h' m [] ↦ prepend m (h', [], success)
  | next h' m (b ∷ rest) ↦ prepend m (process_loop o fuel h' (b ∷ rest))
]

-- `processBytes`: every round but the last takes a byte.
unfoldable pub process_bytes :
    ByteOrder → MessageHandler → List ℕ → MessageHandler × List (List ℕ) × Status
process_bytes o h data' = process_loop o (suc (length data')) h data'

abbrev pub prepend_all :
    List (List ℕ)
    → MessageHandler × List (List ℕ) × Status
    → MessageHandler × List (List ℕ) × Status
prepend_all ms (h, ns, st) = (h, ms ++ ns, st)

-- The calls that a sequence of reads leads to: the messages of all of them, while they succeed.
unfoldable pub process_chunks :
    ByteOrder → MessageHandler → List (List ℕ) → MessageHandler × List (List ℕ) × Status
process_chunks o h [] = (h, [], success)
process_chunks o h (c ∷ cs) =
    let (h', ms, st) = process_bytes o h c in
    elim st [ success ↦ prepend_all ms (process_chunks o h' cs) | stopped ↦ (h', ms, stopped) ]
