-- ===== src/EndToEnd/Streams.antt =====
-- The way of a streamed response from the Exit over the Relay to the Client.
use token_go.Base.{
  ℕ, suc, ◌+◌, ◌<◌, Bytes, List, [], ◌∷◌, ◌++◌, length, map, some, Bool, true, ok, err, All, ◌≡◌,
  refl, arith, append_assoc, sym, ap, ◌∙◌,
}
use token_go.Protocol.Input.{eof}
use token_go.Protocol.{Message, IsValid, encode, new_stream_chunk_message, new_stream_end_message}
use token_go.Protocol.RoundTrip.{decode-encode}
use token_go.Crypto.Interface.{Gcm, GcmLaws}
use token_go.Crypto.Ohttp.Chunks.{decrypt_chunk-seal}
use token_go.Relay.Server.{stream_loop}
use token_go.Relay.Server.Stream.{concat, IsChunk, stream_loop_complete}
use token_go.Exit.Events.{write_stream_chunks}
use token_go.Exit.Events.RoundTrip.{
  Event, IsEvent, IsLine, event_text, body_of, text_of_lines, chunk_frames,
  write_stream_chunks_events,
}
use token_go.Client.Requests.{read_chunk, read_chunks, end_of_stream}
use token_go.EndToEnd.Requests.{closed_after}

pub stream_end-IsValid : IsValid new_stream_end_message
unfolding new_stream_end_message
stream_end-IsValid = omega arith

concat-append : (xs : List Bytes) (y : Bytes) → concat (xs ++ y ∷ []) ≡ concat xs ++ (y ++ [])
concat-append [] y = refl
concat-append (x ∷ xs) y =
    ap (λ t. x ++ t) (concat-append xs y) ∙ sym (append_assoc x (concat xs) (y ++ []))

module _ (g : Gcm) (aead : g.Aead) (nonce : ℕ → Bytes) where
  abbrev pub chunk_message : ℕ → Event → Message
  chunk_message i e = new_stream_chunk_message (nonce i ++ g.seal aead (nonce i) (event_text e))

  abbrev pub chunk_messages : ℕ → List Event → List Message
  chunk_messages i [] = []
  chunk_messages i (e ∷ es) = chunk_message i e ∷ chunk_messages (i + 1) es

  -- The sealed events are within the limits of a frame.
  abbrev pub ChunksFit : ℕ → List Event → Type 0
  ChunksFit i [] = Unit {0}
  ChunksFit i (e ∷ es) = IsValid (chunk_message i e) × ChunksFit (i + 1) es

  map-chunk_messages :
      (i : ℕ) (es : List Event) → map encode (chunk_messages i es) ≡ chunk_frames g aead nonce i es
  map-chunk_messages i [] = refl
  map-chunk_messages i (e ∷ es) =
      ap (λ t. encode (chunk_message i e) ∷ t) (map-chunk_messages (i + 1) es)

  chunks_are_chunks : (i : ℕ) (es : List Event) → ChunksFit i es → All IsChunk (chunk_messages i es)
  unfolding new_stream_chunk_message
  chunks_are_chunks i [] fit = tt
  chunks_are_chunks i (e ∷ es) fit = ((fit.0, refl), chunks_are_chunks (i + 1) es fit.1)

  length-chunk_messages : (i : ℕ) (es : List Event) → length (chunk_messages i es) ≡ length es
  length-chunk_messages i [] = refl
  length-chunk_messages i (e ∷ es) = ap suc (length-chunk_messages (i + 1) es)

  module _ (laws : GcmLaws g) (sizes : (k : ℕ) → length (nonce k) ≡ g.nonce_size aead) where
    read_chunk_event :
        (i : ℕ) (e : Event) (rest : Bytes)
        → IsValid (chunk_message i e)
        → read_chunk g aead (closed_after (encode (chunk_message i e) ++ rest))
          ≡ ok (event_text e, closed_after rest)
    unfolding read_chunk new_stream_chunk_message
    read_chunk_event i e rest v = ground (
      arith,
      decode-encode (chunk_message i e) rest eof v,
      decrypt_chunk-seal g laws aead (event_text e) (nonce i) (sizes i),
    )

    read_chunk_end :
        read_chunk g aead (closed_after (encode new_stream_end_message ++ [])) ≡ err end_of_stream
    unfolding read_chunk new_stream_end_message
    read_chunk_end = ground (arith, decode-encode new_stream_end_message [] eof stream_end-IsValid)

    read_chunks_events :
        (i : ℕ) (es : List Event)
        → ChunksFit i es
        → read_chunks g aead (suc (length es)) (
            closed_after
              (concat (chunk_frames g aead nonce i es) ++ (encode new_stream_end_message ++ [])))
          ≡ (map event_text es, some end_of_stream)
    unfolding read_chunks
    read_chunks_events i [] fit = rw (read_chunk_end, read_chunks) refl
    read_chunks_events i (e ∷ es) fit =
        let tail : Bytes = concat (chunk_frames g aead nonce (i + 1) es) in
        let end : Bytes = encode new_stream_end_message ++ [] in
        rw (append_assoc (encode (chunk_message i e)) tail end) (
          ground
            (arith, read_chunk_event i e (tail ++ end) fit.0, read_chunks_events (i + 1) es fit.1))

    -- The Exit writes a body of events, the Relay forwards what it can read of that, and the Client
    -- reads the texts of the same events, in order, and then the end of the stream: neither of them
    -- loses, joins, splits or alters an event. An event is at least one line, and ended by an empty
    -- line; every line has a byte, at most 65535 of them, and no carriage return. Further lines that
    -- no empty line ends are not sent. The writes succeed, AES-GCM keeps its laws, the nonces have
    -- their length, the sealed events fit a frame, and the Relay's loop and the Client read more
    -- often than there are events.
    pub stream_round_trip :
        (es : List Event) (unfinished : List Bytes) (exit_accepts relay_accepts : ℕ → Bool)
        (fuel : ℕ)
        → All IsEvent es
        → All IsLine unfinished
        → ChunksFit 0 es
        → ((k : ℕ) → exit_accepts k ≡ true)
        → ((k : ℕ) → relay_accepts k ≡ true)
        → length es < fuel
        → read_chunks g aead (suc (length es)) (
            closed_after (
              concat (
                (stream_loop fuel relay_accepts 0 (
                  closed_after (
                    concat
                      (write_stream_chunks g aead
                        (λ k. some (nonce k))
                        exit_accepts
                        (body_of es ++ text_of_lines unfinished)).0))).sent)))
          ≡ (map event_text es, some end_of_stream)
    unfolding new_stream_end_message
    stream_round_trip es unfinished exit_accepts relay_accepts fuel events lines fit e_ok r_ok
          enough =
        let frames : List Bytes = chunk_frames g aead nonce 0 es in
        let msgs : List Message = chunk_messages 0 es in
        let end : Bytes = encode new_stream_end_message in
        let sent : closed_after (
              concat
                (write_stream_chunks g aead (λ k. some (nonce k)) exit_accepts
                  (body_of es ++ text_of_lines unfinished)).0)
            ≡ closed_after (concat (map encode msgs) ++ (end ++ [])) =
          ap (λ t. closed_after (concat t.0))
            (write_stream_chunks_events g aead nonce exit_accepts es unfinished events lines e_ok)
          ∙ ap closed_after (concat-append frames end)
          ∙ ap (λ t. closed_after (concat t ++ (end ++ []))) (sym (map-chunk_messages 0 es)) in
        let relayed : (stream_loop fuel relay_accepts 0
              (closed_after (concat (map encode msgs) ++ (end ++ [])))).sent
            ≡ map encode msgs ++ end ∷ [] =
          ap (λ f. f.sent)
            (stream_loop_complete msgs new_stream_end_message [] eof fuel 0 relay_accepts
              (chunks_are_chunks 0 es fit) stream_end-IsValid refl r_ok
              (omega (arith, length-chunk_messages 0 es))) in
        ap
          (λ t.
            read_chunks g aead (suc (length es))
              (closed_after (concat (stream_loop fuel relay_accepts 0 t).sent)))
          sent
        ∙ ap (λ t. read_chunks g aead (suc (length es)) (closed_after (concat t)))
            (relayed ∙ ap (λ t. t ++ end ∷ []) (map-chunk_messages 0 es))
        ∙ ap (λ t. read_chunks g aead (suc (length es)) (closed_after t)) (concat-append frames end)
        ∙ read_chunks_events 0 es fit
