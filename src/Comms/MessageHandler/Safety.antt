-- ===== src/Comms/MessageHandler/Safety.antt =====
-- `processBytes` on any bytes at all: it ends, it stays inside its buffer, and what it does with a
-- message that is too long.
use rstudio_launcher_plugin.Base.{
  ℕ, zero, suc, ◌+◌, ◌-◌, ◌≤◌, ◌<◌, ◌≡◌, refl, ◌⊎◌, inl, inr, min, false, Option, some, none, List,
  [], ◌∷◌, arith, length, take, drop, length-drop, Bool-cases, ltb, ltb→lt, lt→ltb, leb, nat_beq,
  nat_beq_iff, length-take,
}
use rstudio_launcher_plugin.Comms.MessageHandler.{
  ByteOrder, u32, MessageHandler, Round, return, next, complete_message, process_payload,
  process_round, check_header, process_header, success, overrun, diverged, protocol_error, Status,
  process_loop, process_bytes, new_handler, bytes_to_write, write_payload, prepend,
}
use rstudio_launcher_plugin.Comms.MessageHandler.Header.{read_header_lem}

-- The handler is inside a header, or inside a payload that its limit allows. A `size_t` holds the
-- limit.
pub record IsValid (max : ℕ) (h : MessageHandler) : Type 0 where
  pub limit : h.max_message_size ≡ max
  pub word : max < 18446744073709551616
  pub place :
      (h.bytes_read < 4)
      ⊎ ((4 ≤ h.bytes_read)
          × (h.bytes_read < 4 + h.current_payload_size)
          × (h.current_payload_size ≤ max))

-- A round on the data `d` that does no harm: it ends between two bytes, refuses a size above the
-- limit, or leaves less to read.
abbrev pub IsSound : ℕ → List ℕ → Round → Type 0
IsSound max d (return h success) = IsValid max h
IsSound max d (return h overrun) = ⊥
IsSound max d (return h diverged) = ⊥
IsSound max d (return h (protocol_error n)) = max < n
IsSound max d (next h m r) = IsValid max h × ((r ≡ []) ⊎ (length r < length d))

complete_message-IsSound :
    (max : ℕ) (h : MessageHandler) (d r : List ℕ)
    → h.max_message_size ≡ max
    → max < 18446744073709551616
    → 4 ≤ h.bytes_read
    → h.bytes_read ≤ 4 + h.current_payload_size
    → h.current_payload_size ≤ max
    → (r ≡ []) ⊎ (length r < length d)
    → IsSound max d (complete_message h r)
unfolding complete_message
complete_message-IsSound max h d r limit word low high size less =
    elim (Bool-cases (nat_beq h.bytes_read (h.current_payload_size + 4))) [
      | inl full ↦ rw full (record { limit = limit; word = word; place = inl (omega arith) }, less)
      | inr part ↦
          rw part
            (record { limit = limit; word = word; place = inr (low, ground arith, size) }, less)
    ]

shrinks : (r : List ℕ) (n : ℕ) → (0 < length r → length r < n) → (r ≡ []) ⊎ (length r < n)
shrinks [] n h = inl refl
shrinks (x ∷ r) n h = inr (h (omega arith))

-- The difference of `size_t` does not wrap.
bytes_to_write_lem :
    (h : MessageHandler) (d : List ℕ)
    → 4 ≤ h.bytes_read
    → h.bytes_read ≤ 4 + h.current_payload_size
    → h.current_payload_size < 18446744073709551616
    → bytes_to_write h d ≡ min (4 + h.current_payload_size - h.bytes_read) (length d)
unfolding bytes_to_write
bytes_to_write_lem h d low high size = omega arith

process_payload-IsSound :
    (max : ℕ) (h : MessageHandler) (d d₀ : List ℕ)
    → h.max_message_size ≡ max
    → max < 18446744073709551616
    → 4 ≤ h.bytes_read
    → h.bytes_read ≤ 4 + h.current_payload_size
    → h.current_payload_size ≤ max
    → length d + h.bytes_read < length d₀ + (4 + h.current_payload_size)
    → IsSound max d₀ (process_payload h d)
unfolding process_payload
process_payload-IsSound max h d d₀ limit word low high size less =
    let k = min (4 + h.current_payload_size - h.bytes_read) (length d) in
    let amount : bytes_to_write h d ≡ k = bytes_to_write_lem h d low high (omega arith) in
    elim (Bool-cases (ltb 0 k)) [
      | inl more ↦
          let inside : ltb h.max_message_size (h.bytes_read - 4 + k) ≡ false =
            ground (arith, limit, size, low, high) in
          rw (amount, more, inside)
            (complete_message-IsSound max (write_payload h (take k d)) d₀ (drop k d) limit word
              (omega (arith, low)) (omega (arith, length-take k d)) size
              (shrinks (drop k d) (length d₀)
                (λ q. omega (arith, length-drop k d, ltb→lt 0 k more))))
      | inr none_left ↦
          let zero_left : k ≡ 0 = ground (arith, none_left) in
          rw (amount, none_left)
            (complete_message-IsSound max h d₀ d limit word low high size
              (shrinks d (length d₀) (λ q. omega (arith, zero_left))))
    ]

check_header-IsSound :
    (o : ByteOrder) (max : ℕ) (h : MessageHandler) (d d₀ : List ℕ)
    → h.max_message_size ≡ max
    → max < 18446744073709551616
    → h.bytes_read ≡ 4
    → length d < length d₀
    → IsSound max d₀ (check_header o h d)
unfolding check_header
check_header-IsSound o max h d d₀ limit word four less =
    let size = o.network_to_host_long (u32 h.current_payload_size) in
    elim (Bool-cases (ltb h.max_message_size size)) [
      | inl above ↦ rw above (omega (arith, ltb→lt _ _ above))
      | inr below ↦ rw below (
          process_payload-IsSound max (record h { current_payload_size = size }) d d₀ limit word
            (omega arith) (omega arith) (ground (arith, below, limit)) (omega arith))
    ]

-- The number of bytes that `processHeader` takes.
header_bytes : MessageHandler → List ℕ → ℕ
header_bytes h d = min (4 - h.bytes_read) (length d)

-- A round inside a header: `k` of its bytes are at hand.
header_round-IsSound :
    (o : ByteOrder) (max : ℕ) (h : MessageHandler) (d : List ℕ)
    → h.max_message_size ≡ max
    → max < 18446744073709551616
    → h.bytes_read < 4
    → IsSound max d (process_round o h d)
unfolding process_round process_header
header_round-IsSound o max h d limit word below =
    elim (Bool-cases (leb h.max_message_size h.bytes_read)) [
      | inl shut ↦
          let part : nat_beq h.bytes_read 4 ≡ false = ground (arith, below) in
          rw (lt→ltb _ _ below, shut, part)
            (record { limit = limit; word = word; place = inl below })
      | inr open_header ↦
          let k = min (4 - h.bytes_read) (length d) in
          let taken = read_header_lem k d h (omega arith) in
          elim (Bool-cases (nat_beq (h.bytes_read + k) 4)) [
            | inl full ↦
                rw (lt→ltb _ _ below, open_header, taken, full)
                  (check_header-IsSound o max _ (drop k d) d limit word (ground (arith, full))
                    (omega (arith, length-drop k d, (nat_beq_iff (h.bytes_read + k) 4).0 full)))
            | inr part ↦
                rw (lt→ltb _ _ below, open_header, taken, part)
                  (record { limit = limit; word = word; place = inl (ground (arith, part)) })
          ]
    ]

pub process_round-IsSound :
    (o : ByteOrder) (max : ℕ) (h : MessageHandler) (d : List ℕ)
    → IsValid max h
    → IsSound max d (process_round o h d)
unfolding process_round
process_round-IsSound o max h d v = elim v.place [
  | inl header ↦ header_round-IsSound o max h d v.limit v.word header
  | inr (low, high, size) ↦
      let behind : ltb h.bytes_read 4 ≡ false = ground (arith, low) in
      rw behind
        (process_payload-IsSound max h d d v.limit v.word low (omega arith) size (omega arith))
]

-- A call that ends well: the handler is valid after a success, and the only error is a size above
-- the limit.
abbrev pub IsSafe : ℕ → MessageHandler → Status → Type 0
IsSafe max h success = IsValid max h
IsSafe max h overrun = ⊥
IsSafe max h diverged = ⊥
IsSafe max h (protocol_error n) = max < n

abbrev ResultIsSafe : ℕ → MessageHandler × List (List ℕ) × Status → Type 0
ResultIsSafe max (h, ms, st) = IsSafe max h st

prepend-IsSafe :
    (max : ℕ) (m : Option (List ℕ)) (r : MessageHandler × List (List ℕ) × Status)
    → ResultIsSafe max r
    → ResultIsSafe max (prepend m r)
prepend-IsSafe max none r s = s
prepend-IsSafe max (some m) r s = s

process_loop_round-IsSafe :
    (o : ByteOrder) (max fuel : ℕ) (h : MessageHandler) (d : List ℕ)
    → ((h' : MessageHandler) (d' : List ℕ)
        → length d' < fuel
        → IsValid max h'
        → ResultIsSafe max (process_loop o fuel h' d'))
    → length d < suc fuel
    → (r : Round) → process_round o h d ≡ r
    → IsSound max d r
    → ResultIsSafe max (process_loop o (suc fuel) h d)
unfolding process_loop
process_loop_round-IsSafe o max fuel h d ih enough (return h' success) e s = rw (e, process_loop) s
process_loop_round-IsSafe o max fuel h d ih enough (return h' overrun) e s = absurd s
process_loop_round-IsSafe o max fuel h d ih enough (return h' diverged) e s = absurd s
process_loop_round-IsSafe o max fuel h d ih enough (return h' (protocol_error n)) e s =
    rw (e, process_loop) s
process_loop_round-IsSafe o max fuel h d ih enough (next h' m []) e s =
    rw (e, process_loop) (prepend-IsSafe max m (h', [], success) s.0)
process_loop_round-IsSafe o max fuel h d ih enough (next h' m (b ∷ r)) e s =
    let shorter : length (b ∷ r) < length d = elim s.1 [ inl f ↦ cc | inr f ↦ f ] in
    rw (e, process_loop) (prepend-IsSafe max m _ (ih h' (b ∷ r) (omega arith) s.0))

process_loop-IsSafe :
    (o : ByteOrder) (max fuel : ℕ) (h : MessageHandler) (d : List ℕ)
    → length d < fuel
    → IsValid max h
    → ResultIsSafe max (process_loop o fuel h d)
process_loop-IsSafe o max zero h d enough v = absurd (omega arith)
process_loop-IsSafe o max (suc fuel) h d enough v =
    process_loop_round-IsSafe o max fuel h d
      (λ h' d' enough' v'. process_loop-IsSafe o max fuel h' d' enough' v') enough
      (process_round o h d) refl (process_round-IsSound o max h d v)

-- A call of `processBytes` on any bytes, from a valid handler, ends and never writes outside the
-- buffer: it succeeds and leaves the handler valid, or it refuses a size above the limit.
pub process_bytes-IsSafe :
    (o : ByteOrder) (max : ℕ) (h : MessageHandler) (d : List ℕ)
    → IsValid max h
    → let (h', _, status) = process_bytes o h d in IsSafe max h' status
unfolding process_bytes
process_bytes-IsSafe o max h d v = process_loop-IsSafe o max (suc (length d)) h d (omega arith) v

pub new_handler-IsValid :
    (max : ℕ) (buffer : List ℕ) → max < 18446744073709551616 → IsValid max (new_handler max buffer)
unfolding new_handler
new_handler-IsValid max buffer word = record {
  limit = refl;
  word = word;
  place = inl (omega arith);
}
