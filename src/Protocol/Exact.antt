-- ===== src/Protocol/Exact.antt =====
-- What `decode` accepts, and no more: the converse of Protocol/RoundTrip.
use token_go.Base.{
  ℕ, zero, suc, ◌≤◌, ◌≡◌, refl, ap, Bytes, [], ◌∷◌, ◌++◌, ◌∙◌, subst, cut-append, length, take,
  drop, ok, arith, put_uint32, uint16, uint32, put_uint16-uint16, put_uint32-uint32,
  take-append-drop, length-take, append_assoc, dec_lt, ltb, Bool-cases, AreBytes, IsByte, >>=-ok,
  map_err, map_err-ok, All-take, All-drop, inl, inr,
}
use token_go.Protocol.Input.{Reader, read_full}
use token_go.Protocol.{
  Message, IsValid, encode, decode, read_target, read_payload, max_target_size, max_payload_size,
  DecodeError,
}

-- What a read took off a reader: `xs` is followed by what is left, and all of it is bytes.
record Took (r : Reader) (n : ℕ) (xs : Bytes) (r' : Reader) : Type 0 where
  split : r.pending ≡ xs ++ r'.pending
  size : length xs ≡ n
  end : r'.ending ≡ r.ending
  taken : AreBytes xs
  left : AreBytes r'.pending

read_full-Took :
    (n : ℕ) (r : Reader) (xs : Bytes) (r' : Reader)
    → AreBytes r.pending
    → read_full n r ≡ ok (xs, r')
    → Took r n xs r'
unfolding read_full
read_full-Took n r xs r' bytes h = elim (dec_lt (length r.pending) n) [
  | yes short ↦ ground arith
  | no enough ↦ ground (
    arith,
    take-append-drop n r.pending,
    length-take n r.pending,
    All-take IsByte n r.pending bytes,
    All-drop IsByte n r.pending bytes,
  )
]

three : (xs : Bytes) → length xs ≡ 3 → (a : ℕ) × (b : ℕ) × (c : ℕ) × (xs ≡ a ∷ b ∷ c ∷ [])
three (a ∷ b ∷ c ∷ []) h = (a, b, c, refl)
three [] h = absurd (omega arith)
three (a ∷ []) h = absurd (omega arith)
three (a ∷ b ∷ []) h = absurd (omega arith)
three (a ∷ b ∷ c ∷ d ∷ xs) h = absurd (omega arith)

four :
    (xs : Bytes) → length xs ≡ 4 → (a : ℕ) × (b : ℕ) × (c : ℕ) × (d : ℕ) × (xs ≡ a ∷ b ∷ c ∷ d ∷ [])
four [] h = absurd (omega arith)
four (a ∷ xs) h = let (b, c, d, e) = three xs (omega arith) in (a, b, c, d, ap (◌∷◌ a) e)

read_target-Took :
    (n : ℕ) (r : Reader) (xs : Bytes) (r' : Reader)
    → AreBytes r.pending
    → read_target n r ≡ ok (xs, r')
    → Took r n xs r'
unfolding read_target
read_target-Took zero r xs r' bytes h = ground arith
read_target-Took (suc n) r xs r' bytes h =
    read_full-Took (suc n) r xs r' bytes (map_err-ok _ (read_full (suc n) r) h)

-- A payload is read together with its length.
record TookPayload (r : Reader) (payload : Bytes) (r' : Reader) : Type 0 where
  split : r.pending ≡ put_uint32 (length payload) ++ (payload ++ r'.pending)
  fits : length payload ≤ max_payload_size
  end : r'.ending ≡ r.ending
  taken : AreBytes payload

read_payload-Took :
    (r : Reader) (payload : Bytes) (r' : Reader)
    → AreBytes r.pending
    → read_payload r ≡ ok (payload, r')
    → TookPayload r payload r'
unfolding read_payload
read_payload-Took r payload r' bytes h =
    let ((size, r₁), e, rest) = >>=-ok (map_err DecodeError.length_failed (read_full 4 r)) _ h in
    let first = read_full-Took 4 r size r₁ bytes (map_err-ok _ (read_full 4 r) e) in
    let (a, b, c, d, eq) = four size first.size in
    elim (Bool-cases (ltb max_payload_size (uint32 size))) [
      | inl large ↦ cc (rw large at rest)
      | inr fits ↦
          let second =
            read_full-Took (uint32 size) r₁ payload r' first.left (ground (arith, rest, fits)) in
          ground (arith, first, second, eq, put_uint32-uint32 a b c d)
    ]

-- On bytes, a message that `decode` returns is valid, and the bytes that it took off the reader are
-- exactly that message's encoding.
pub decode-ok :
    (r : Reader) (m : Message) (r' : Reader)
    → AreBytes r.pending
    → decode r ≡ ok (m, r')
    → (r.pending ≡ encode m ++ r'.pending) × (r'.ending ≡ r.ending) × IsValid m
unfolding decode encode
decode-ok r m r' bytes h =
    let ((header, r₁), e, rest) = >>=-ok (map_err DecodeError.header_failed (read_full 3 r)) _ h in
    let first = read_full-Took 3 r header r₁ bytes (map_err-ok _ (read_full 3 r) e) in
    let (a, b, c, eq) = three header first.size in
    elim (Bool-cases (ltb max_target_size (uint16 (drop 1 header)))) [
      | inl long ↦ cc (rw long at rest)
      | inr fits ↦
          let ((target, r₂), e₂, rest₂) =
            >>=-ok (read_target (uint16 (drop 1 header)) r₁) _ (rw fits at rest) in
          let second = read_target-Took (uint16 (drop 1 header)) r₁ target r₂ first.left e₂ in
          let ((payload, r₃), e₃, rest₃) = >>=-ok (read_payload r₂) _ rest₂ in
          let third = read_payload-Took r₂ payload r₃ second.left e₃ in
          ground (
            arith,
            first,
            second,
            third,
            eq,
            put_uint16-uint16 b c,
            rest₃,
            append_assoc (put_uint32 (length payload)) payload r'.pending,
            append_assoc target (put_uint32 (length payload) ++ payload) r'.pending,
          )
    ]

-- Reading a frame off bytes leaves bytes, and the frame written again is bytes: every number that a
-- Relay reads or passes on is below 256.
pub decode-AreBytes :
    (r : Reader) (m : Message) (r' : Reader)
    → AreBytes r.pending
    → decode r ≡ ok (m, r')
    → AreBytes (encode m) × AreBytes r'.pending
decode-AreBytes r m r' bytes h =
    let (whole, ends, valid) = decode-ok r m r' bytes h in
    let (front, back) = cut-append (length (encode m)) (encode m) r'.pending refl in
    (
      subst AreBytes (ap (take (length (encode m))) whole ∙ front)
          (All-take IsByte (length (encode m)) r.pending bytes),
      subst AreBytes (ap (drop (length (encode m))) whole ∙ back)
          (All-drop IsByte (length (encode m)) r.pending bytes),
    )
