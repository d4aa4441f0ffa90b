-- ===== src/Protocol/RoundTrip.antt =====
-- `encode` and `decode` of internal/protocol/messages.go are inverse to one another.
use token_go.Base.{
  ℕ, ◌≤◌, ◌≡◌, refl, Bytes, [], ◌∷◌, ◌++◌, length, ok, arith, put_uint16, put_uint32,
  uint16-put_uint16, uint32-put_uint32, take-append_length, drop-append_length, length-append,
  append_assoc,
}
use token_go.Protocol.Input.{ReadError, read_full}
use token_go.Protocol.{
  Message, IsValid, encode, decode, read_target, read_payload, max_payload_size,
}

module _ (end : ReadError) where
  -- A reader that has enough bytes hands over exactly the bytes asked for.
  pub read_full-append :
      (n : ℕ) (xs ys : Bytes)
      → length xs ≡ n
      → read_full n (record { pending = xs ++ ys; ending = end })
        ≡ ok (xs, record { pending = ys; ending = end })
  unfolding read_full
  read_full-append n xs ys e =
      ground (arith, length-append xs ys, take-append_length xs ys, drop-append_length xs ys)

  pub read_target-append :
      (target ys : Bytes)
      → read_target (length target) (record { pending = target ++ ys; ending = end })
        ≡ ok (target, record { pending = ys; ending = end })
  unfolding read_target
  read_target-append [] ys = refl
  read_target-append (b ∷ bs) ys = rw (read_full-append (length (b ∷ bs)) (b ∷ bs) ys refl)

  pub read_payload-append :
      (payload ys : Bytes)
      → length payload ≤ max_payload_size
      → read_payload
          (record { pending = put_uint32 (length payload) ++ (payload ++ ys); ending = end })
        ≡ ok (payload, record { pending = ys; ending = end })
  unfolding read_payload
  read_payload-append payload ys h = ground (
    arith,
    read_full-append 4 (put_uint32 (length payload)) (payload ++ ys) refl,
    uint32-put_uint32 (length payload) (omega arith),
    read_full-append (length payload) payload ys refl,
  )

pub encode-append :
    (m : Message) (ys : Bytes)
    → encode m ++ ys
      ≡ m.type
        ∷ (put_uint16 (length m.target)
            ++ (m.target ++ (put_uint32 (length m.payload) ++ (m.payload ++ ys))))
unfolding encode
encode-append m ys = simp append_assoc

-- Decoding an encoded message gives the message back, and leaves what follows it unread, if the
-- message is valid: its type is a byte, its target at most 1024 bytes and its payload at most
-- 16777216 bytes long.
pub decode-encode :
    (m : Message) (rest : Bytes) (end : ReadError)
    → IsValid m
    → decode (record { pending = encode m ++ rest; ending = end })
      ≡ ok (m, record { pending = rest; ending = end })
unfolding decode
decode-encode m rest end v = rw (encode-append m rest) (
    ground (
      arith,
      read_full-append end 3 (m.type ∷ put_uint16 (length m.target))
          (m.target ++ (put_uint32 (length m.payload) ++ (m.payload ++ rest))) refl,
      uint16-put_uint16 (length m.target) (omega arith),
      read_target-append end m.target (put_uint32 (length m.payload) ++ (m.payload ++ rest)),
      read_payload-append end m.payload rest,
    ))
