-- ===== src/Client/Handlers/Answers.antt =====
-- What a user of the proxy gets of a streamed response.
use token_go.Base.{
  ℕ, zero, suc, ◌+◌, Bytes, text, ◌++◌, Option, some, Bool, true, ok, ◌≡◌, refl, Result-cases, inl,
  inr,
}
use token_go.Protocol.Input.{Reader}
use token_go.Crypto.Interface.{Hpke, Gcm, Http}
use token_go.Exit.Handler.{HttpLib}
use token_go.Client.Requests.{read_chunk, read_chunks, send_stream_request}
use token_go.Client.Proxy.{detect_streaming, forward_chunks}
use token_go.Client.Handlers.{
  UserRequest, Session, Fields, ErrorText, handle_request, handle_body, handle_streaming_request,
  stream_header,
}

-- The loop writes what the Client reads.
pub forward_chunks-read_chunks :
    (g : Gcm) (decryptor : g.Aead) (fuel : ℕ) (accepts : ℕ → Bool) (i : ℕ) (stream : Reader)
    → ((k : ℕ) → accepts k ≡ true)
    → forward_chunks g decryptor fuel accepts i stream ≡ (read_chunks g decryptor fuel stream).0
unfolding forward_chunks read_chunks
forward_chunks-read_chunks g decryptor zero accepts i stream a = refl
forward_chunks-read_chunks g decryptor (suc fuel) accepts i stream a =
    elim (Result-cases (read_chunk g decryptor stream)) [
      | inr (e, failed) ↦ rw (failed, forward_chunks, read_chunks) refl
      | inl ((chunk, rest), got) ↦
          rw
            (
              got,
              forward_chunks,
              read_chunks,
              a i,
              forward_chunks-read_chunks g decryptor fuel accepts (i + 1) rest a,
            )
            refl
    ]

module _ (h : Hpke) (g : Gcm) (w : Http) (lib : HttpLib w) (stream_field : Bytes → Option Bool)
    (make : Bytes → Bytes → Fields → Bytes → Option w.Request)
    (read_body : w.Response → Option Bytes) (error_json : ErrorText → ℕ → Bytes) where
  -- If a request is detected as streaming, can be made and sent, and the user's connection takes
  -- every write, then the answer has status 200 and the header of a stream of events, and its body is
  -- the chunks that the Client reads, in order, each written once.
  pub handle_request_lem :
      (s : Session h) (fuel : ℕ) (accepts : ℕ → Bool) (r : UserRequest) (body : Bytes)
      (req : w.Request) (decryptor : g.Aead) (answer : Reader)
      → r.body ≡ some (some body)
      → detect_streaming stream_field body r.path r.accept ≡ true
      → make r.method (text "http://ai-backend" ++ r.path) r.header body ≡ some req
      → send_stream_request h g w s.ohttp_client s.exit_pub_key_hash s.stream req s.seed
        ≡ ok (decryptor, answer)
      → ((k : ℕ) → accepts k ≡ true)
      → handle_request h g w lib stream_field make read_body error_json s true fuel accepts r
        ≡ record {
          status = 200;
          header = stream_header;
          body = (read_chunks g decryptor fuel answer).0;
        }
  unfolding handle_request handle_body handle_streaming_request
  handle_request_lem s fuel accepts r body req decryptor answer has_body streams made sent a =
      rw
        (
          has_body,
          streams,
          made,
          sent,
          handle_request,
          handle_body,
          handle_streaming_request,
          forward_chunks-read_chunks g decryptor fuel accepts 0 answer a,
        )
        refl
