-- ===== src/Comms/MessageHandler/RoundTrip.antt =====
-- What was formatted is read back, whatever the reads that it arrives in.
use rstudio_launcher_plugin.Base.{
  ℕ, suc, ◌≤◌, ◌≡◌, refl, ap, sym, subst, ◌∙◌, List, [], ◌∷◌, ◌++◌, arith, length, append-nil,
  append_assoc, length-append,
}
use rstudio_launcher_plugin.Comms.MessageHandler.{
  ByteOrder, MessageHandler, success, process_bytes, process_chunks, new_handler,
}
use rstudio_launcher_plugin.Comms.MessageHandler.Header.{header_of_lem}
use rstudio_launcher_plugin.Comms.MessageHandler.Stream.{
  stream, joined, AllFit, Place, idle, in_header, in_payload, Decodes,
}
use rstudio_launcher_plugin.Comms.MessageHandler.Decoding.{Delivers, process_loop-Delivers}
use rstudio_launcher_plugin.Comms.MessageHandler.Rounds.{between}

process_bytes-Delivers :
    {o : ByteOrder} {max : ℕ} (h : MessageHandler) (ms : List (List ℕ)) (c s : List ℕ)
    → 4 ≤ max
    → AllFit max ms
    → Decodes o max h ms (c ++ s)
    → Delivers o max ms s (process_bytes o h c)
unfolding process_bytes
process_bytes-Delivers h ms c s four fits at =
    process_loop-Delivers (suc (length c)) h ms c s four fits (omega arith) at

AllFit-append_right : (max : ℕ) (ms ns : List (List ℕ)) → AllFit max (ms ++ ns) → AllFit max ns
AllFit-append_right max [] ns fits = fits
AllFit-append_right max (m ∷ ms) ns fits = AllFit-append_right max ms ns fits.1

process_chunks-Delivers :
    {o : ByteOrder} {max : ℕ} (h : MessageHandler) (ms cs : List (List ℕ)) (s : List ℕ)
    → 4 ≤ max
    → AllFit max ms
    → Decodes o max h ms (joined cs ++ s)
    → Delivers o max ms s (process_chunks o h cs)
unfolding process_chunks
process_chunks-Delivers h ms [] s four fits at = record {
  ended = refl;
  later = ms;
  given = refl;
  ready = at;
}
process_chunks-Delivers {o} {max} h ms (c ∷ cs) s four fits at =
    let here : Decodes o max h ms (c ++ (joined cs ++ s)) =
      subst (Decodes o max h ms) (append_assoc c (joined cs) s) at in
    let first = process_bytes-Delivers h ms c (joined cs ++ s) four fits here in
    let left : AllFit max first.later =
      AllFit-append_right max (process_bytes o h c).1 first.later
        (subst (AllFit max) first.given fits) in
    let rest =
      process_chunks-Delivers (process_bytes o h c).0 first.later cs s four left first.ready in
    rw (first.ended, process_chunks)
      (record {
        ended = rest.ended;
        later = rest.later;
        given =
            first.given
            ∙ ap (◌++◌ (process_bytes o h c).1) rest.given
            ∙ sym (append_assoc (process_bytes o h c).1 _ rest.later);
        ready = rest.ready;
      })

-- Where nothing is left to read, the handler is between messages, and no message is left.
Place-end :
    {o : ByteOrder} (max : ℕ) {h : MessageHandler} {ms : List (List ℕ)}
    → AllFit max ms
    → Place o h ms []
    → (ms ≡ []) × (h.bytes_read ≡ 0) × (h.current_payload_size ≡ 0)
Place-end max fits (idle e f b c) = (e, b, c)
Place-end {o} max fits (in_header m later done rest e cut f below b c) =
    let fit = (subst (AllFit max) e fits).0 in
    absurd (
      omega (
        arith,
        ap length f,
        length-append rest (m ++ stream o later),
        ap length cut,
        length-append done rest,
        ap length (header_of_lem o (length m) fit.1),
      ))
Place-end {o} max fits (in_payload m later done rest e cut f below b c w) = absurd (
    omega (
      arith,
      ap length f,
      length-append rest (stream o later),
      ap length cut,
      length-append done rest,
    ))

-- A sequence of messages, each no longer than the receiver's limit and than the header can say,
-- is formatted, put end to end and cut anywhere into reads. Then a new handler whose limit is at
-- least the header's size succeeds at every read, gives exactly these messages in their order, and
-- ends between messages.
pub process_chunks-format :
    (o : ByteOrder) (max : ℕ) (buffer : List ℕ) (ms cs : List (List ℕ))
    → 4 ≤ max
    → AllFit max ms
    → joined cs ≡ stream o ms
    → let (h, given, status) = process_chunks o (new_handler max buffer) cs in
      (status ≡ success) × (given ≡ ms) × (h.bytes_read ≡ 0) × (h.current_payload_size ≡ 0)
unfolding new_handler
process_chunks-format o max buffer ms cs four fits e =
    let start = between o ms (joined cs ++ []) refl refl refl (append-nil (joined cs) ∙ e) in
    let done = process_chunks-Delivers (new_handler max buffer) ms cs [] four fits start in
    let left =
      AllFit-append_right max (process_chunks o (new_handler max buffer) cs).1 done.later
        (subst (AllFit max) done.given fits) in
    let (none_left, b, c) = Place-end max left done.ready.place in
    (
      done.ended,
      sym (
          done.given
          ∙ ap (◌++◌ (process_chunks o (new_handler max buffer) cs).1) none_left
          ∙ append-nil _),
      b,
      c,
    )

-- After any part of such a stream the handler has succeeded, and it has given messages from the
-- front of the sequence only; whatever reads then bring the rest of the stream, it gives the others.
pub process_chunks-resume :
    (o : ByteOrder) (max : ℕ) (buffer : List ℕ) (ms cs ds : List (List ℕ))
    → 4 ≤ max
    → AllFit max ms
    → joined cs ++ joined ds ≡ stream o ms
    → let (h, given, status) = process_chunks o (new_handler max buffer) cs in
      let (_, given', status') = process_chunks o h ds in
      (status ≡ success) × (status' ≡ success) × (given ++ given' ≡ ms)
unfolding new_handler
process_chunks-resume o max buffer ms cs ds four fits e =
    let start = between o ms (joined cs ++ joined ds) refl refl refl e in
    let first =
      process_chunks-Delivers (new_handler max buffer) ms cs (joined ds) four fits start in
    let out = process_chunks o (new_handler max buffer) cs in
    let left = AllFit-append_right max out.1 first.later (subst (AllFit max) first.given fits) in
    let ready =
      subst (Decodes o max out.0 first.later) (sym (append-nil (joined ds))) first.ready in
    let second = process_chunks-Delivers out.0 first.later ds [] four left ready in
    let left' =
      AllFit-append_right max (process_chunks o out.0 ds).1 second.later
        (subst (AllFit max) second.given left) in
    let (none_left, _, _) = Place-end max left' second.ready.place in
    (
      first.ended,
      second.ended,
      sym (
          first.given
          ∙ ap (◌++◌ out.1)
              (second.given ∙ ap (◌++◌ (process_chunks o out.0 ds).1) none_left ∙ append-nil _)),
    )
