-- ===== src/Protocol/Limits.antt =====
-- Messages that `decode` of internal/protocol/messages.go must not return: frames that are cut short,
-- and targets and payloads beyond the limits.
use token_go.Base.{
  ℕ, ◌<◌, ◌≤◌, ◌^◌, ◌≡◌, refl, sym, ap, ◌∙◌, Bytes, [], ◌∷◌, ◌++◌, length, ok, err, arith,
  put_uint16, put_uint32, uint16-put_uint16, uint32-put_uint32, append_assoc, append-nil,
  length-append, AreBytes, IsByte, All-append, inl, inr, Result-cases, subst,
}
use token_go.Protocol.Input.{Reader, ReadError}
use token_go.Protocol.RoundTrip.{decode-encode, encode-append, read_full-append, read_target-append}
use token_go.Protocol.Exact.{decode-ok}
use token_go.Protocol.{
  Message, IsValid, encode, decode, read_payload, max_target_size, max_payload_size, DecodeError,
  target_too_long, payload_too_large,
}

abbrev reader : Bytes → ReadError → Reader
reader bytes end = record { pending = bytes; ending = end }

All-left : (xs ys : Bytes) → AreBytes (xs ++ ys) → AreBytes xs
All-left [] ys h = tt
All-left (x ∷ xs) ys h = (h.0, All-left xs ys h.1)

pub All-right : (xs ys : Bytes) → AreBytes (xs ++ ys) → AreBytes ys
All-right [] ys h = h
All-right (x ∷ xs) ys h = All-right xs ys h.1

pub encode-AreBytes : (m : Message) → IsValid m → AreBytes (encode m)
unfolding encode
encode-AreBytes m v = (
  v.type_byte,
  (
    omega arith,
    (
      omega arith,
      All-append IsByte m.target _ v.target_bytes
          (omega arith, (omega arith, (omega arith, (omega arith, v.payload_bytes)))),
    ),
  ),
)

-- A frame that is cut short anywhere, whatever error ends the input, is never decoded to a message.
pub decode_truncated :
    (m : Message) (front : Bytes) (x : ℕ) (back : Bytes) (end : ReadError)
    → IsValid m
    → encode m ≡ front ++ (x ∷ back)
    → (e : DecodeError) × (decode (reader front end) ≡ err e)
decode_truncated m front x back end v h = elim (Result-cases (decode (reader front end))) [
  | inr failed ↦ failed
  | inl ((m', r'), e) ↦
      let (split, ending, v') =
        decode-ok (reader front end) m' r'
          (All-left front (x ∷ back) (subst AreBytes h (encode-AreBytes m v))) e in
      let whole = decode-encode m [] end v in
      let long = decode-encode m' (r'.pending ++ (x ∷ back)) end v' in
      let same : encode m ++ [] ≡ encode m' ++ (r'.pending ++ x ∷ back) =
        append-nil (encode m)
        ∙ h
        ∙ ap (λ bs. bs ++ x ∷ back) split
        ∙ append_assoc (encode m') r'.pending (x ∷ back) in
      let twice : ok (m, reader [] end) ≡ ok (m', reader (r'.pending ++ x ∷ back) end) =
        sym whole ∙ ap (λ bs. decode (reader bs end)) same ∙ long in
      absurd (ground (arith, twice, length-append r'.pending (x ∷ back)))
]

-- A target beyond the limit, if its length fits the 16 bits of its field, is refused.
pub decode_long_target :
    (m : Message) (rest : Bytes) (end : ReadError)
    → max_target_size < length m.target
    → length m.target < 2 ^ 16
    → decode (reader (encode m ++ rest) end) ≡ err (target_too_long (length m.target))
unfolding decode
decode_long_target m rest end long fits = rw (encode-append m rest) (
    ground (
      arith,
      read_full-append end 3 (m.type ∷ put_uint16 (length m.target))
          (m.target ++ (put_uint32 (length m.payload) ++ (m.payload ++ rest))) refl,
      uint16-put_uint16 (length m.target) fits,
    ))

-- A payload beyond the limit, if its length fits the 32 bits of its field, is refused before any of
-- it is read: the error is the same whatever follows the length.
pub decode_large_payload :
    (m : Message) (rest : Bytes) (end : ReadError)
    → length m.target ≤ max_target_size
    → max_payload_size < length m.payload
    → length m.payload < 2 ^ 32
    → decode (reader (encode m ++ rest) end) ≡ err (payload_too_large (length m.payload))
unfolding decode read_payload
decode_large_payload m rest end short large fits = rw (encode-append m rest) (
    ground (
      arith,
      read_full-append end 3 (m.type ∷ put_uint16 (length m.target))
          (m.target ++ (put_uint32 (length m.payload) ++ (m.payload ++ rest))) refl,
      uint16-put_uint16 (length m.target) (omega arith),
      read_target-append end m.target (put_uint32 (length m.payload) ++ (m.payload ++ rest)),
      read_full-append end 4 (put_uint32 (length m.payload)) (m.payload ++ rest) refl,
      uint32-put_uint32 (length m.payload) fits,
    ))
