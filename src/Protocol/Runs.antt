-- ===== src/Protocol/Runs.antt =====
-- Concrete frames of internal/protocol/messages.go, and the theorems at them.
use token_go.Base.{
  ℕ, zero, suc, ◌≡◌, refl, Bytes, [], ◌∷◌, ◌++◌, length, take, AreBytes, ok, err, arith, text,
}
use token_go.Protocol.Input.{eof, unexpected_eof, failed, read_full}
use token_go.Protocol.{
  Message, IsValid, encode, decode, read_target, read_payload, DecodeError, target_too_long,
  payload_too_large, payload_failed, header_failed, type_request,
}
use token_go.Protocol.RoundTrip.{decode-encode}
use token_go.Protocol.Exact.{decode-ok, decode-AreBytes}
use token_go.Protocol.Limits.{decode_truncated, decode_long_target, decode_large_payload}

abbrev hello : Message
hello = record { type = type_request; target = text "ab"; payload = 7 ∷ 8 ∷ 9 ∷ [] }

abbrev hello_bytes : Bytes
hello_bytes = 1 ∷ 0 ∷ 2 ∷ 97 ∷ 98 ∷ 0 ∷ 0 ∷ 0 ∷ 3 ∷ 7 ∷ 8 ∷ 9 ∷ []

hello-IsValid : IsValid hello
hello-IsValid = omega arith

encode-hello : encode hello ≡ hello_bytes
unfolding encode
encode-hello = refl

decode-hello :
    decode (record { pending = hello_bytes ++ 5 ∷ []; ending = eof })
    ≡ ok (hello, record { pending = 5 ∷ []; ending = eof })
unfolding decode read_full read_target read_payload
decode-hello = refl

decode_cut :
    decode (record { pending = take 10 hello_bytes; ending = eof })
    ≡ err (payload_failed unexpected_eof)
unfolding decode read_full read_target read_payload
decode_cut = refl

decode_nothing : decode (record { pending = []; ending = eof }) ≡ err (header_failed eof)
unfolding decode read_full
decode_nothing = refl

decode-encode_example :
    decode (record { pending = encode hello ++ 5 ∷ []; ending = failed })
    ≡ ok (hello, record { pending = 5 ∷ []; ending = failed })
decode-encode_example = decode-encode hello (5 ∷ []) failed hello-IsValid

decode-ok_example : (hello_bytes ++ 5 ∷ [] ≡ encode hello ++ 5 ∷ []) × (eof ≡ eof) × IsValid hello
decode-ok_example =
    decode-ok (record { pending = hello_bytes ++ 5 ∷ []; ending = eof }) hello
      (record { pending = 5 ∷ []; ending = eof }) (omega arith) decode-hello

decode-AreBytes_example : AreBytes (encode hello) × AreBytes (5 ∷ [])
decode-AreBytes_example =
    decode-AreBytes (record { pending = hello_bytes ++ 5 ∷ []; ending = eof }) hello
      (record { pending = 5 ∷ []; ending = eof }) (omega arith) decode-hello

decode_truncated_example :
    (e : DecodeError) × (decode (record { pending = take 10 hello_bytes; ending = failed }) ≡ err e)
decode_truncated_example =
    decode_truncated hello (take 10 hello_bytes) 8 (9 ∷ []) failed hello-IsValid encode-hello

-- A run of zero bytes, kept shut: only its length matters.
zeros : ℕ → Bytes
zeros zero = []
zeros (suc n) = 0 ∷ zeros n

length-zeros : (n : ℕ) → length (zeros n) ≡ n
unfolding zeros
length-zeros zero = refl
length-zeros (suc n) = omega (arith, length-zeros n)

abbrev long_target : Message
long_target = record { type = 1; target = zeros 1025; payload = [] }

abbrev large_payload : Message
large_payload = record { type = 1; target = []; payload = zeros 16777217 }

decode_long_target_example :
    decode (record { pending = encode long_target ++ 1 ∷ []; ending = eof })
    ≡ err (target_too_long (length long_target.target))
decode_long_target_example =
    decode_long_target long_target (1 ∷ []) eof (omega (arith, length-zeros 1025))
      (omega (arith, length-zeros 1025))

decode_large_payload_example :
    decode (record { pending = encode large_payload ++ []; ending = eof })
    ≡ err (payload_too_large (length large_payload.payload))
decode_large_payload_example =
    decode_large_payload large_payload [] eof (omega arith) (omega (arith, length-zeros 16777217))
      (omega (arith, length-zeros 16777217))
