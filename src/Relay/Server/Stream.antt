-- ===== src/Relay/Server/Stream.antt =====
-- The forwarding loop of `handleStreamForwardRequest` in internal/relay/quic_server.go.
use token_go.Base.{
  ℕ, zero, suc, ◌+◌, ◌<◌, Bytes, AreBytes, err, ◌⊎◌, sym, ◌∙◌, List, [], ◌∷◌, ◌++◌, length, map,
  Bool, true, false, ok, ◌≡◌, refl, ap, arith, Result-cases, Bool-cases, inl, inr, append_assoc,
  length-append, All, subst,
}
use token_go.Protocol.Input.{Reader, ReadError}
use token_go.Protocol.{Message, DecodeError, IsValid, decode, encode}
use token_go.Protocol.RoundTrip.{decode-encode}
use token_go.Protocol.Exact.{decode-ok}
use token_go.Protocol.Limits.{All-right}
use token_go.Relay.Server.{is_final, stream_loop, Ending, Forwarded, and_sent}

abbrev pub concat : List Bytes → Bytes
concat [] = []
concat (x ∷ xs) = x ++ concat xs

pub length-encode : (m : Message) → 0 < length (encode m)
unfolding encode
length-encode m = omega arith

-- What is left behind a decoded frame is bytes again, and shorter.
decode-rest :
    (r : Reader) (m : Message) (r' : Reader)
    → AreBytes r.pending
    → decode r ≡ ok (m, r')
    → (r.pending ≡ encode m ++ r'.pending)
      × AreBytes r'.pending
      × (length r'.pending < length r.pending)
decode-rest r m r' bytes e =
    let (split, _, _) = decode-ok r m r' bytes e in
    (
      split,
      All-right (encode m) r'.pending (subst AreBytes split bytes),
      omega (arith, ap length split, length-append (encode m) r'.pending, length-encode m),
    )

-- The frames that are written to the Client without an error, put together, are a prefix of what the
-- Exit sent: whatever the Exit sends and whichever writes fail, nothing is reordered, altered, left
-- out in between or made up.
pub stream_loop_prefix :
    (fuel : ℕ) (accepts : ℕ → Bool) (i : ℕ) (answer : Reader)
    → AreBytes answer.pending
    → (rest : Bytes) × (answer.pending ≡ concat (stream_loop fuel accepts i answer).sent ++ rest)
unfolding stream_loop
stream_loop_prefix zero accepts i answer bytes = (answer.pending, refl)
stream_loop_prefix (suc fuel) accepts i answer bytes = elim (Result-cases (decode answer)) [
  | inr (e, h) ↦ (answer.pending, rw (h, stream_loop))
  | inl ((m, r'), h) ↦
      let (split, bytes', _) = decode-rest answer m r' bytes h in
      let (rest, e) = stream_loop_prefix fuel accepts (i + 1) r' bytes' in
      elim (Bool-cases (accepts i)) [
        | inr refused ↦ (answer.pending, rw (h, refused, stream_loop) refl)
        | inl accepted ↦ elim (Bool-cases (is_final m)) [
          | inl final ↦
              (r'.pending, ground (arith, h, split, append_assoc (encode m) [] r'.pending))
          | inr more ↦ (
            rest,
            ground (
              arith,
              h,
              split,
              e,
              append_assoc (encode m) (concat (stream_loop fuel accepts (i + 1) r').sent) rest,
            ),
          )
        ]
      ]
]

abbrev pub IsMore : Message → Type 0
IsMore m = is_final m ≡ false

-- The first `n` writes from the i-th on succeed.
abbrev pub Accepts : (ℕ → Bool) → ℕ → ℕ → Type 0
Accepts accepts i zero = Unit {0}
Accepts accepts i (suc n) = (accepts i ≡ true) × Accepts accepts (i + 1) n

-- Why the loop ends, `next` being the number of the write that is due and `rest` what is unread: a
-- frame cannot be read; or the write of the next frame fails; or it succeeds, and the frame is final.
abbrev pub Halts : (ℕ → Bool) → ℕ → Reader → List Bytes → Ending → Type 0
Halts accepts next rest last ending =
    ((e : DecodeError) × (decode rest ≡ err e) × (last ≡ []) × (ending ≡ Ending.read_failed e))
    ⊎ ((m : Message) × (r' : Reader) × (decode rest ≡ ok (m, r'))
        × (((accepts next ≡ false) × (last ≡ []) × (ending ≡ Ending.write_failed))
            ⊎ ((accepts next ≡ true)
                × (is_final m ≡ true)
                × (last ≡ encode m ∷ [])
                × (ending ≡ Ending.finished))))

-- The loop takes frames off the answer that are not final, writes each of them without an error, and
-- stops for one of these reasons.
abbrev pub Ran : (ℕ → Bool) → ℕ → Reader → Forwarded → Type 0
Ran accepts i answer f =
    (msgs : List Message) × (rest : Reader) × (last : List Bytes) × (answer.pending
      ≡ concat (map encode msgs) ++ rest.pending)
    × All IsMore msgs
    × Accepts accepts i (length msgs)
    × (f.sent ≡ map encode msgs ++ last)
    × Halts accepts (i + length msgs) rest last f.ending

Halts-Ran :
    (accepts : ℕ → Bool) (i : ℕ) (answer : Reader) (f : Forwarded)
    → Halts accepts i answer f.sent f.ending
    → Ran accepts i answer f
Halts-Ran accepts i answer f h =
    let here : Halts accepts (i + 0) answer f.sent f.ending =
      subst (λ n. Halts accepts n answer f.sent f.ending) (omega arith) h in
    ([], answer, f.sent, refl, tt, tt, refl, here)

and_sent-Ran :
    (accepts : ℕ → Bool) (i : ℕ) (answer r' : Reader) (m : Message) (f : Forwarded)
    → answer.pending ≡ encode m ++ r'.pending
    → is_final m ≡ false
    → accepts i ≡ true
    → Ran accepts (i + 1) r' f
    → Ran accepts i answer (and_sent (encode m) f)
and_sent-Ran accepts i answer r' m f split more accepted
      (msgs, rest, last, whole, all, oks, sent, stops) =
    (
      m ∷ msgs,
      rest,
      last,
      split
          ∙ ap (λ t. encode m ++ t) whole
          ∙ sym (append_assoc (encode m) (concat (map encode msgs)) rest.pending),
      (more, all),
      (accepted, oks),
      ap (λ t. encode m ∷ t) sent,
      subst (λ n. Halts accepts n rest last f.ending) (omega arith) stops,
    )

-- With more fuel than the Exit's answer has bytes, the loop writes frames of the answer that are not
-- final, each without an error and in order, and then stops for one of three reasons: the next frame
-- cannot be read; or its write fails; or it is final, and is written last.
pub stream_loop_fuel :
    (fuel : ℕ) (accepts : ℕ → Bool) (i : ℕ) (answer : Reader)
    → AreBytes answer.pending
    → length answer.pending < fuel
    → Ran accepts i answer (stream_loop fuel accepts i answer)
unfolding stream_loop
stream_loop_fuel zero accepts i answer bytes enough = absurd (omega arith)
stream_loop_fuel (suc fuel) accepts i answer bytes enough = elim (Result-cases (decode answer)) [
  | inr (e, h) ↦
      rw (h, stream_loop)
        (Halts-Ran accepts i answer (record { sent = []; ending = Ending.read_failed e })
          (inl (e, h, refl, refl)))
  | inl ((m, r'), h) ↦
      let (split, bytes', less) = decode-rest answer m r' bytes h in
      elim (Bool-cases (accepts i)) [
        | inr refused ↦
            rw (h, refused, stream_loop)
              (Halts-Ran accepts i answer (record { sent = []; ending = Ending.write_failed })
                (inr (m, r', h, inl (refused, refl, refl))))
        | inl accepted ↦ elim (Bool-cases (is_final m)) [
          | inl final ↦
              rw (h, accepted, final, stream_loop)
                (Halts-Ran accepts i answer
                  (record { sent = encode m ∷ []; ending = Ending.finished })
                  (inr (m, r', h, inr (accepted, final, refl, refl))))
          | inr more ↦
              rw (h, accepted, more, stream_loop)
                (and_sent-Ran accepts i answer r' m (stream_loop fuel accepts (i + 1) r') split more
                  accepted (stream_loop_fuel fuel accepts (i + 1) r' bytes' (omega arith)))
        ]
      ]
]

abbrev pub IsChunk : Message → Type 0
IsChunk m = IsValid m × (is_final m ≡ false)

-- An Exit that sends chunks and then a final frame (the end of the stream, or an error) has all of
-- them forwarded, in order, while the Client takes them; what stands behind the final frame is not.
pub stream_loop_complete :
    (chunks : List Message) (final : Message) (rest : Bytes) (end : ReadError) (fuel i : ℕ)
    (accepts : ℕ → Bool)
    → All IsChunk chunks
    → IsValid final
    → is_final final ≡ true
    → ((k : ℕ) → accepts k ≡ true)
    → length chunks < fuel
    → stream_loop fuel accepts i
        (record { pending = concat (map encode chunks) ++ (encode final ++ rest); ending = end })
      ≡ record { sent = map encode chunks ++ encode final ∷ []; ending = Ending.finished }
unfolding stream_loop
stream_loop_complete chunks final rest end zero i accepts cs v f acc h = absurd (omega arith)
stream_loop_complete [] final rest end (suc fuel) i accepts cs v f acc h =
    ground (arith, acc i, decode-encode final rest end v)
stream_loop_complete (m ∷ chunks) final rest end (suc fuel) i accepts cs v f acc h =
    let tail : Bytes = concat (map encode chunks) ++ (encode final ++ rest) in
    rw (append_assoc (encode m) (concat (map encode chunks)) (encode final ++ rest)) (
      ground (
        arith,
        acc i,
        decode-encode m tail end cs.0.0,
        stream_loop_complete chunks final rest end fuel (i + 1) accepts cs.1 v f acc,
      ))
