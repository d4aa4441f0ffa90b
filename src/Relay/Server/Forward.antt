-- ===== src/Relay/Server/Forward.antt =====
-- Forwarding of single requests in internal/relay/quic_server.go.
use token_go.Base.{
  ℕ, Bytes, AreBytes, text, [], ◌∷◌, ◌++◌, length, some, Bool, true, false, ◌≡◌, ◌≢◌, refl, arith,
  Result-cases, Option-cases, inl, inr, ◌⊎◌,
}
use token_go.Protocol.Input.{Reader, ReadError}
use token_go.Protocol.{Message, IsValid, decode, encode, new_request_message}
use token_go.Protocol.RoundTrip.{decode-encode}
use token_go.Protocol.Exact.{decode-ok}
use token_go.Relay.Registry.{Registry, lookup_conn}
use token_go.Relay.Registry.Lookups.{remove_if_match_lem}
use token_go.Relay.Server.{
  Opened, opened, error_frame, forward_response, with_exit_stream, handle_forward_request,
}

-- A request for a registered hash, whose Exit can be reached and answers with a frame: the Exit is
-- sent the payload and nothing of the target, the Client gets the Exit's frame byte for byte, and the
-- registry stays as it is. What the Exit sends behind that frame is not forwarded.
pub forward_request_lem :
    (open_stream : ℕ → Opened) (r : Registry) (msg m : Message) (conn : ℕ) (rest : Bytes)
    (end : ReadError)
    → msg.target ≢ []
    → lookup_conn msg.target r ≡ some conn
    → IsValid m
    → open_stream conn ≡ opened true (record { pending = encode m ++ rest; ending = end })
    → handle_forward_request open_stream r msg ≡ record {
      registry = r;
      to_client = encode m ∷ [];
      to_exit = encode (new_request_message [] msg.payload) ∷ [];
    }
unfolding handle_forward_request
forward_request_lem open_stream r msg m conn rest end named known valid reached =
    ground (arith, decode-encode m rest end valid)

-- What the Client may get for a request: one of the Relay's own errors, or a frame that the Exit's
-- answer begins with.
abbrev pub Answers : Reader → Bytes → Type 0
Answers answer frame =
    (frame ≡ error_frame (text "write to exit failed"))
    ⊎ (frame ≡ error_frame (text "read exit response failed"))
    ⊎ ((rest : Bytes) × (answer.pending ≡ frame ++ rest))

-- Whatever an Exit answers, the Client gets one frame, which is an error of the Relay or stands at
-- the front of the answer: the Relay makes up nothing and alters nothing.
pub forward_response_lem :
    (r : Registry) (request : Bytes) (write_ok : Bool) (answer : Reader)
    → AreBytes answer.pending
    → (frame : Bytes) × (forward_response r request write_ok answer
        ≡ record { registry = r; to_client = frame ∷ []; to_exit = request ∷ [] })
      × Answers answer frame
unfolding forward_response
forward_response_lem r request false answer bytes =
    (error_frame (text "write to exit failed"), refl, inl refl)
forward_response_lem r request true answer bytes = elim (Result-cases (decode answer)) [
  | inl ((m, rest), e) ↦ (
    encode m,
    rw (e, forward_response),
    inr (inr (rest.pending, (decode-ok answer m rest bytes e).0)),
  )
  | inr (e, h) ↦
      (error_frame (text "read exit response failed"), rw (h, forward_response), inr (inl refl))
]

-- Every request gets exactly one frame back, and at most one goes to an Exit. A failed open removes
-- the connection that was looked up, and only that: the entries of all other hashes stay.
pub forward_request_total :
    (open_stream : ℕ → Opened) (r : Registry) (msg : Message) (j : Bytes)
    → j ≢ msg.target
    → (length (handle_forward_request open_stream r msg).to_client ≡ 1)
      × (((handle_forward_request open_stream r msg).to_exit ≡ [])
          ⊎ ((handle_forward_request open_stream r msg).to_exit
              ≡ encode (new_request_message [] msg.payload) ∷ []))
      × (lookup_conn j (handle_forward_request open_stream r msg).registry ≡ lookup_conn j r)
unfolding handle_forward_request with_exit_stream
forward_request_total open_stream r msg j other = elim (Option-cases (lookup_conn msg.target r)) [
  | inl unknown ↦ ground arith
  | inr (conn, known) ↦ ground (arith, remove_if_match_lem msg.target j conn r)
]
