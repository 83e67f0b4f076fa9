-- ===== src/Comms/MessageHandler/Stream.antt =====
-- What a handler has still to read: its place in a stream of formatted messages.
use rstudio_launcher_plugin.Base.{
  ℕ, ◌+◌, ◌≤◌, ◌<◌, ◌≡◌, List, [], ◌∷◌, ◌++◌, length, take, append_assoc,
}
use rstudio_launcher_plugin.Comms.MessageHandler.{ByteOrder, MessageHandler, format_message}
use rstudio_launcher_plugin.Comms.MessageHandler.Header.{header_of, header_size}

-- The bytes of a sequence of messages, each formatted.
abbrev pub stream : ByteOrder → List (List ℕ) → List ℕ
stream o [] = []
stream o (m ∷ ms) = format_message o m ++ stream o ms

-- The bytes of a sequence of reads.
abbrev pub joined : List (List ℕ) → List ℕ
joined [] = []
joined (c ∷ cs) = c ++ joined cs

pub stream-cons :
    (o : ByteOrder) (m : List ℕ) (ms : List (List ℕ))
    → stream o (m ∷ ms) ≡ header_of o (length m) ++ (m ++ stream o ms)
unfolding format_message header_of
stream-cons o m ms = append_assoc (header_of o (length m)) m (stream o ms)

-- A message that the receiver may take: no longer than its limit, and of a length that fits the
-- header.
abbrev pub Fits : ℕ → List ℕ → Type 0
Fits max m = (length m ≤ max) × (length m < 4294967296)

abbrev pub AllFit : ℕ → List (List ℕ) → Type 0
AllFit max [] = Unit {0}
AllFit max (m ∷ ms) = Fits max m × AllFit max ms

-- Between two messages, inside a header, or inside a payload. `done` is what has been read of it.
pub data Place (o : ByteOrder) (h : MessageHandler) (ms : List (List ℕ)) (s : List ℕ) : Type 0 where
  idle : ms ≡ [] → s ≡ [] → h.bytes_read ≡ 0 → h.current_payload_size ≡ 0 → Place o h ms s
  in_header :
      (m : List ℕ) (later : List (List ℕ)) (done rest : List ℕ)
      → ms ≡ m ∷ later
      → header_of o (length m) ≡ done ++ rest
      → s ≡ rest ++ (m ++ stream o later)
      → length done < 4
      → h.bytes_read ≡ length done
      → h.current_payload_size ≡ header_size 0 0 done
      → Place o h ms s
  in_payload :
      (m : List ℕ) (later : List (List ℕ)) (done rest : List ℕ)
      → ms ≡ m ∷ later
      → m ≡ done ++ rest
      → s ≡ rest ++ stream o later
      → length done < length m
      → h.bytes_read ≡ 4 + length done
      → h.current_payload_size ≡ length m
      → take (length done) h.message_buffer ≡ done
      → Place o h ms s

-- A handler with that limit, at its place before the messages `ms` in the bytes `s`.
pub record Decodes (o : ByteOrder) (max : ℕ) (h : MessageHandler) (ms : List (List ℕ)) (s : List ℕ)
    : Type 0 where
  pub limit : h.max_message_size ≡ max
  pub place : Place o h ms s
