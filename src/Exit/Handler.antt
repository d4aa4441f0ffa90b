-- ===== src/Exit/Handler.antt =====
-- `OHTTPHandler` of internal/exit/ohttp_handler.go: a sealed request is opened, forwarded to the AI
-- backend, and the answer sealed, in one piece or in chunks.
use token_go.Base.{
  ℕ, Bytes, text, List, [], ◌∷◌, Option, none, some, Bool, Map, Result, ok, err, ◌>>=◌, map_err,
  ite, bytes_discrete, ◌==◌, if◌then◌else◌,
}
use token_go.Crypto.Interface.{Hpke, Gcm, Http}
use token_go.Crypto.Keys.{encode_key_config}
use token_go.Crypto.Ohttp.{
  CryptoError, OhttpServer, new_ohttp_server, decapsulate_request, encapsulate_response,
  new_stream_encryptor,
}
use token_go.Exit.Backend.{Incoming, Outgoing, AiClient, BackendError, build_request}
use token_go.Exit.Events.{write_stream_chunks}

-- What the handler uses of net/http besides `Http`: the parts of a request, the two clients (`send`
-- with a time limit, `send_stream` without), and the parts of a response.
pub record HttpLib (w : Http) : Type 0 where
  pub parts : w.Request → Incoming
  pub canonical : Bytes → Bytes
  pub valid : Bytes → Bytes → Bool
  pub send : Outgoing → Option w.Response
  pub send_stream : Outgoing → Option w.Response
  pub status_code : w.Response → ℕ
  pub body : w.Response → Bytes
  -- A response with a status, a content type and a body.
  pub new_response : ℕ → Bytes → Bytes → w.Response

pub data HandlerError : Type 0 where
  decrypt_failed encrypt_failed encryptor_failed : CryptoError → HandlerError
  forward_failed : BackendError → HandlerError
  backend_status : ℕ → Bytes → HandlerError
  end_failed : HandlerError

-- What a `http.ResponseWriter` got: an error of `http.Error`, or status 200 with headers and writes.
pub data Answer : Type 0 where
  http_error : ℕ → Bytes → Answer
  http_ok : Map Bytes → List Bytes → Answer

pub record HttpCall : Type 0 where
  pub method : Bytes
  pub content_type : Bytes
  -- `none` if reading it fails.
  pub body : Option Bytes

-- The checks that the two POST handlers share.
unfoldable pub post_body : HttpCall → (Bytes → Answer) → Answer
unfolding bytes_discrete
post_body r next =
    ite (bytes_discrete r.method (text "POST"))
      (ite (bytes_discrete r.content_type (text "message/ohttp-req"))
        (elim r.body [
          | none ↦ http_error 400 (text "Failed to read request")
          | some bytes ↦ next bytes
        ])
        (http_error 400 (text "Invalid content type")))
      (http_error 405 (text "Method not allowed"))

abbrev pub ok_or_else {ℓ κ} : {E : Type ℓ} {A : Type κ} → Result E A → A → A
ok_or_else (ok a) d = a
ok_or_else (err e) d = d

module _ (h : Hpke) (g : Gcm) (w : Http) (lib : HttpLib w) where
  pub record OhttpHandler : Type 0 where
    pub ohttp_server : OhttpServer h
    pub ai_client : AiClient
    pub key_config : Bytes

  unfoldable pub new_ohttp_handler : ℕ → Bytes → Bytes → AiClient → OhttpHandler
  unfolding new_ohttp_server encode_key_config
  new_ohttp_handler key_id private_key public_key ai_client = record {
    ohttp_server = new_ohttp_server h key_id private_key;
    ai_client = ai_client;
    key_config = encode_key_config h key_id public_key;
  }

  unfoldable pub forward : AiClient → w.Request → Result BackendError w.Response
  unfolding build_request
  forward c req = build_request lib.canonical lib.valid lib.send c (lib.parts req)

  unfoldable pub forward_stream : AiClient → w.Request → Result BackendError w.Response
  unfolding build_request
  forward_stream c req = build_request lib.canonical lib.valid lib.send_stream c (lib.parts req)

  -- The answer when the backend cannot be asked.
  abbrev pub bad_gateway : w.Response
  bad_gateway =
      lib.new_response 502 (text "application/json") (text "{\"error\":\"AI backend unavailable\"}")

  -- The two arguments of type `Option Bytes` are the random bytes of the response's two nonces.
  unfoldable pub decrypt_and_forward :
      OhttpHandler → Option Bytes → Option Bytes → Bytes → Result HandlerError Bytes
  unfolding forward
  decrypt_and_forward s random random_gcm ohttp_req_data = do
    (inner_req, ctx) ←
        map_err decrypt_failed (decapsulate_request h w s.ohttp_server ohttp_req_data)
    let inner_resp = ok_or_else (forward s.ai_client inner_req) bad_gateway
    map_err encrypt_failed (encapsulate_response g w h ctx inner_resp random random_gcm)

  unfoldable pub prepare_stream : OhttpHandler → Bytes → Result HandlerError (g.Aead × w.Response)
  unfolding forward_stream
  prepare_stream s ohttp_req_data = do
    (inner_req, ctx) ←
        map_err decrypt_failed (decapsulate_request h w s.ohttp_server ohttp_req_data)
    encryptor ← map_err encryptor_failed (new_stream_encryptor g h ctx)
    inner_resp ← map_err forward_failed (forward_stream s.ai_client inner_req)
    if lib.status_code inner_resp == 200
        then ok (encryptor, inner_resp)
        else err (backend_status (lib.status_code inner_resp) (lib.body inner_resp))

  -- The method `ProcessStreamRequest`: what is written, and its error.
  unfoldable pub process_stream_request :
      OhttpHandler → (ℕ → Option Bytes) → (ℕ → Bool) → Bytes → List Bytes × Option HandlerError
  unfolding prepare_stream write_stream_chunks
  process_stream_request s random accepts ohttp_req = elim (prepare_stream s ohttp_req) [
    | err e ↦ ([], some e)
    | ok (encryptor, resp) ↦
        let (written, ended) = write_stream_chunks g encryptor random accepts (lib.body resp) in
        (written, if ended then none else some end_failed)
  ]

  unfoldable pub handle_ohttp : OhttpHandler → Option Bytes → Option Bytes → HttpCall → Answer
  unfolding post_body decrypt_and_forward
  handle_ohttp s random random_gcm r = post_body r (λ ohttp_req.
      elim (decrypt_and_forward s random random_gcm ohttp_req) [
        | err e ↦ http_error 500 (text "Failed to process request")
        | ok ohttp_resp ↦
            http_ok ((text "Content-Type", text "message/ohttp-res") ∷ []) (ohttp_resp ∷ [])
      ])

  -- `flushes` is whether the response writer is a `http.Flusher`.
  unfoldable pub handle_ohttp_stream :
      OhttpHandler → (ℕ → Option Bytes) → (ℕ → Bool) → Bool → HttpCall → Answer
  unfolding post_body prepare_stream write_stream_chunks
  handle_ohttp_stream s random accepts flushes r = post_body r (λ ohttp_req.
      elim (prepare_stream s ohttp_req) [
        | err e ↦ http_error 502 (text "Failed to process stream request")
        | ok (encryptor, resp) ↦
            if flushes
            then http_ok ((text "Content-Type", text "application/ohttp-chunked-res") ∷ [])
                (write_stream_chunks g encryptor random accepts (lib.body resp)).0
            else http_error 500 (text "Streaming not supported")
      ])

  unfoldable pub handle_keys : OhttpHandler → HttpCall → Answer
  unfolding bytes_discrete
  handle_keys s r =
      ite (bytes_discrete r.method (text "GET"))
        (http_ok
          ((text "Content-Type", text "application/ohttp-keys")
            ∷ (text "Cache-Control", text "max-age=86400")
            ∷ [])
          (s.key_config ∷ []))
        (http_error 405 (text "Method not allowed"))
