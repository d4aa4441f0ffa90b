-- ===== src/Exit/Events.antt =====
-- `writeStreamChunks` of internal/exit/ohttp_handler.go: a backend's SSE answer as stream chunks.
pub mod RoundTrip
use token_go.Base.{
  ℕ, zero, suc, ◌+◌, Bytes, text, List, [], ◌∷◌, ◌++◌, length, Option, Bool, true, false, ite,
  ℕ_discrete, ok, err, if◌then◌else◌, leb, ltb, ◌&&◌,
}
use token_go.Net.{add_to_first, is_empty}
use token_go.Protocol.{encode, new_stream_chunk_message, new_stream_end_message}
use token_go.Crypto.Interface.{Gcm}
use token_go.Crypto.Ohttp.{encrypt_chunk}

abbrev pub newline : ℕ
newline = 10

abbrev pub carriage_return : ℕ
carriage_return = 13

-- `bufio.ScanLines` over the whole input: the pieces between line ends; one behind the last line end
-- counts only if it is not empty.
unfoldable pub raw_lines : Bytes → List Bytes
unfolding ℕ_discrete add_to_first
raw_lines [] = []
raw_lines (c ∷ cs) =
    let rest = raw_lines cs in ite (ℕ_discrete c newline) ([] ∷ rest) (add_to_first c rest)

-- A carriage return before the line end is dropped.
unfoldable pub drop_cr : Bytes → Bytes
unfolding ℕ_discrete
drop_cr [] = []
drop_cr (c ∷ []) = ite (ℕ_discrete c carriage_return) [] (c ∷ [])
drop_cr (c ∷ d ∷ cs) = c ∷ drop_cr (d ∷ cs)

-- `bufio.MaxScanTokenSize`: the scanner's buffer has to hold a line and its end.
abbrev pub max_line : ℕ
max_line = 65535

-- What `scanner.Scan` gives, one line after the other: it stops before a line that is too long.
unfoldable pub cut_long : List Bytes → List Bytes
unfolding drop_cr
cut_long [] = []
cut_long (line ∷ lines) =
    let rest = cut_long lines in if leb (length line) max_line then drop_cr line ∷ rest else []

unfoldable pub scan_lines : Bytes → List Bytes
unfolding raw_lines cut_long
scan_lines body = cut_long (raw_lines body)

-- An empty line ends an event, unless nothing stands before it.
abbrev pub ends_event : Bytes → Bytes → Bool
ends_event line event = is_empty line && ltb 1 (length event)

module _ (g : Gcm) (aead : g.Aead) where
  -- The frames that the loop writes. `random` is the source of nonces and `accepts` says whether a
  -- write succeeds, both for the i-th chunk; `event_buf` is the event so far. Reading on, sealing and
  -- writing stop at the first failure.
  unfoldable pub event_loop : (ℕ → Option Bytes) → (ℕ → Bool) → ℕ → Bytes → List Bytes → List Bytes
  unfolding encrypt_chunk
  event_loop random accepts i event_buf [] = []
  event_loop random accepts i event_buf (line ∷ lines) =
      let event = event_buf ++ (line ++ newline ∷ []) in
      elim (ends_event line event) [
        | false ↦ event_loop random accepts i event lines
        | true ↦ elim (encrypt_chunk g aead event (random i)) [
          | err e ↦ []
          | ok sealed ↦ elim (accepts i) [
            | false ↦ encode (new_stream_chunk_message sealed) ∷ []
            | true ↦
                encode (new_stream_chunk_message sealed)
                ∷ event_loop random accepts (i + 1) [] lines
          ]
        ]
      ]

  -- What is written for a body, the end of the stream included, and whether that last write
  -- succeeds.
  unfoldable pub write_stream_chunks : (ℕ → Option Bytes) → (ℕ → Bool) → Bytes → List Bytes × Bool
  unfolding scan_lines event_loop
  write_stream_chunks random accepts body =
      let chunks = event_loop random accepts 0 [] (scan_lines body) in
      (chunks ++ encode new_stream_end_message ∷ [], accepts (length chunks))
