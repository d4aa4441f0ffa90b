-- ===== src/Exit/Events/RoundTrip.antt =====
-- Which events of a backend's body become chunks.
use token_go.Base.{
  ℕ, ◌+◌, ◌≤◌, ◌<◌, Bytes, List, [], ◌∷◌, ◌++◌, length, some, Bool, true, All, ◌≡◌, ◌≢◌, refl,
  arith, append_assoc, append-nil, length-append, ap, ◌∙◌, sym,
}
use token_go.Net.{add_to_first}
use token_go.Protocol.{encode, new_stream_chunk_message, new_stream_end_message}
use token_go.Crypto.Interface.{Gcm}
use token_go.Crypto.Ohttp.{encrypt_chunk}
use token_go.Exit.Events.{
  newline, carriage_return, raw_lines, drop_cr, max_line, cut_long, scan_lines, event_loop,
  write_stream_chunks,
}

-- A line of an event: it has text, and no line ends in it.
abbrev pub IsPlain : Bytes → Type 0
IsPlain line = All (λ c. (c ≢ newline) × (c ≢ carriage_return)) line

pub record IsLine (line : Bytes) : Type 0 where
  pub has_text : line ≢ []
  pub plain : IsPlain line
  pub fits : length line ≤ max_line

-- An event is a line and any further ones.
pub record Event : Type 0 where
  pub first : Bytes
  pub more : List Bytes

abbrev pub IsEvent : Event → Type 0
IsEvent e = IsLine e.first × All IsLine e.more

abbrev pub text_of_lines : List Bytes → Bytes
text_of_lines [] = []
text_of_lines (l ∷ ls) = l ++ newline ∷ text_of_lines ls

-- An event's text: its lines, and an empty one.
abbrev pub event_text : Event → Bytes
event_text e = text_of_lines (e.first ∷ e.more) ++ newline ∷ []

abbrev pub body_of : List Event → Bytes
body_of [] = []
body_of (e ∷ es) = event_text e ++ body_of es

raw_lines-append :
    (line rest : Bytes) → IsPlain line → raw_lines (line ++ newline ∷ rest) ≡ line ∷ raw_lines rest
unfolding raw_lines add_to_first
raw_lines-append [] rest h = refl
raw_lines-append (c ∷ line) rest h = ground (arith, raw_lines-append line rest h.1)

drop_cr_plain : (line : Bytes) → IsPlain line → drop_cr line ≡ line
unfolding drop_cr
drop_cr_plain [] h = refl
drop_cr_plain (c ∷ []) h = ground arith
drop_cr_plain (c ∷ d ∷ line) h = ground (arith, drop_cr_plain (d ∷ line) h.1)

scan_lines-append :
    (line rest : Bytes)
    → IsPlain line
    → length line ≤ max_line
    → scan_lines (line ++ newline ∷ rest) ≡ line ∷ scan_lines rest
unfolding scan_lines cut_long
scan_lines-append line rest plain fits =
    ground (arith, raw_lines-append line rest plain, drop_cr_plain line plain)

module _ (g : Gcm) (aead : g.Aead) (nonce : ℕ → Bytes) where
  -- The frame of the i-th event, sealed with the i-th nonce.
  abbrev pub chunk_frame : ℕ → Event → Bytes
  chunk_frame i e =
      encode (new_stream_chunk_message (nonce i ++ g.seal aead (nonce i) (event_text e)))

  abbrev pub chunk_frames : ℕ → List Event → List Bytes
  chunk_frames i [] = []
  chunk_frames i (e ∷ es) = chunk_frame i e ∷ chunk_frames (i + 1) es

  module _ (accepts : ℕ → Bool) where
    abbrev loop : ℕ → Bytes → List Bytes → List Bytes
    loop = event_loop g aead (λ k. some (nonce k)) accepts

    event_loop_line :
        (i : ℕ) (event_buf l : Bytes) (lines : List Bytes)
        → l ≢ []
        → loop i event_buf (l ∷ lines) ≡ loop i (event_buf ++ (l ++ newline ∷ [])) lines
    unfolding event_loop
    event_loop_line i event_buf [] lines h = absurd (h refl)
    event_loop_line i event_buf (c ∷ l) lines h = refl

    event_loop_lines :
        (i : ℕ) (event_buf : Bytes) (ls : List Bytes) (rest : Bytes)
        → All IsLine ls
        → loop i event_buf (scan_lines (text_of_lines ls ++ rest))
          ≡ loop i (event_buf ++ text_of_lines ls) (scan_lines rest)
    event_loop_lines i event_buf [] rest h = rw (append-nil event_buf) refl
    event_loop_lines i event_buf (l ∷ ls) rest h =
        let tail : Bytes = text_of_lines ls in
        let buf : Bytes = event_buf ++ (l ++ newline ∷ []) in
        let whole : buf ++ tail ≡ event_buf ++ (l ++ newline ∷ tail) =
          append_assoc event_buf (l ++ newline ∷ []) tail
          ∙ ap (λ t. event_buf ++ t) (append_assoc l (newline ∷ []) tail) in
        rw
          (
            append_assoc l (newline ∷ tail) rest,
            scan_lines-append l (tail ++ rest) h.0.plain h.0.fits,
          )
          (event_loop_line i event_buf l (scan_lines (tail ++ rest)) h.0.has_text
            ∙ event_loop_lines i buf ls rest h.1
            ∙ ap (λ b. loop i b (scan_lines rest)) whole)

    event_loop_end :
        (i : ℕ) (event_buf : Bytes) (rest : Bytes)
        → 0 < length event_buf
        → accepts i ≡ true
        → loop i event_buf (scan_lines (newline ∷ rest))
          ≡ encode (
              new_stream_chunk_message
                (nonce i ++ g.seal aead (nonce i) (event_buf ++ newline ∷ [])))
            ∷ loop (i + 1) [] (scan_lines rest)
    unfolding event_loop encrypt_chunk
    event_loop_end i event_buf rest h acc =
        rw (scan_lines-append [] rest tt (omega arith))
          (ground (arith, acc, length-append event_buf (newline ∷ [])))

    positive : (l : Bytes) (ls : List Bytes) → 0 < length (text_of_lines (l ∷ ls))
    positive l ls = omega (arith, length-append l (newline ∷ text_of_lines ls))

    event_loop_event :
        (i : ℕ) (e : Event) (rest : Bytes)
        → IsEvent e
        → accepts i ≡ true
        → loop i [] (scan_lines (event_text e ++ rest))
          ≡ chunk_frame i e ∷ loop (i + 1) [] (scan_lines rest)
    event_loop_event i e rest h acc =
        let ls : List Bytes = e.first ∷ e.more in
        rw (append_assoc (text_of_lines ls) (newline ∷ []) rest) (
          event_loop_lines i [] ls (newline ∷ rest) h
          ∙ event_loop_end i (text_of_lines ls) rest (positive e.first e.more) acc)

    event_loop_events :
        (i : ℕ) (es : List Event) (unfinished : List Bytes)
        → All IsEvent es
        → All IsLine unfinished
        → ((k : ℕ) → accepts k ≡ true)
        → loop i [] (scan_lines (body_of es ++ text_of_lines unfinished)) ≡ chunk_frames i es
    unfolding event_loop scan_lines
    event_loop_events i [] unfinished hs u acc =
        ap (λ t. loop i [] (scan_lines t)) (sym (append-nil (text_of_lines unfinished)))
        ∙ event_loop_lines i [] unfinished [] u
    event_loop_events i (e ∷ es) unfinished hs u acc =
        rw (append_assoc (event_text e) (body_of es) (text_of_lines unfinished)) (
          event_loop_event i e (body_of es ++ text_of_lines unfinished) hs.0 (acc i)
          ∙ ap (λ t. chunk_frame i e ∷ t) (event_loop_events (i + 1) es unfinished hs.1 u acc))

    -- Every event of a body is sealed and sent as one chunk, in order, and the end of the stream
    -- behind them, while the writes succeed; lines behind the last event that no empty line ends are
    -- not sent.
    pub write_stream_chunks_events :
        (es : List Event) (unfinished : List Bytes)
        → All IsEvent es
        → All IsLine unfinished
        → ((k : ℕ) → accepts k ≡ true)
        → write_stream_chunks g aead
            (λ k. some (nonce k))
            accepts
            (body_of es ++ text_of_lines unfinished)
          ≡ (chunk_frames 0 es ++ encode new_stream_end_message ∷ [], true)
    unfolding write_stream_chunks
    write_stream_chunks_events es unfinished hs u acc =
        rw (event_loop_events 0 es unfinished hs u acc, acc (length (chunk_frames 0 es))) refl
