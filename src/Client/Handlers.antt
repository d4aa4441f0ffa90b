-- ===== src/Client/Handlers.antt =====
-- The HTTP handlers of internal/client/proxy.go, and `SendRequestRaw` of internal/client/client.go.
-- net/http and encoding/json are parameters: `make` is `http.NewRequestWithContext` with its header,
-- `read_body` is `io.ReadAll` of a response's body, `error_json` is what `writeError` writes.
pub mod Answers
mod Runs
use token_go.Base.{
  ℕ, ◌*◌, ◌^◌, Bytes, text, List, [], ◌∷◌, ◌++◌, Option, none, some, Bool, true, false, Result, ok,
  err, map_err, ◌>>=◌, ltb, if◌then◌else◌,
}
use token_go.Protocol.Input.{Reader}
use token_go.Config.{ClientConfig}
use token_go.Crypto.Interface.{Hpke, Gcm, Http}
use token_go.Crypto.Ohttp.{OhttpClient}
use token_go.Exit.Handler.{HttpLib}
use token_go.Client.Requests.{Stream, ClientError, send_request, send_stream_request}
use token_go.Client.Proxy.{detect_streaming, forward_chunks}

abbrev pub Fields : Type 0
Fields = List (Bytes × List Bytes)

-- The user's request. `accept` is `r.Header.Get("Accept")`; `body` is `none` where there is none, and
-- `some none` where it cannot be read.
pub record UserRequest : Type 0 where
  pub method : Bytes
  pub path : Bytes
  pub header : Fields
  pub accept : Bytes
  pub body : Option (Option Bytes)

-- What is written to the user.
pub record Reply : Type 0 where
  pub status : ℕ
  pub header : List (Bytes × Bytes)
  pub body : List Bytes

-- The texts that `writeError` is given.
pub data ErrorText : Type 0 where
  read_request_failed stream_not_supported create_request_failed ai_request_failed forward_failed :
      ErrorText

pub data RawError : Type 0 where
  new_request_failed read_body_failed : RawError
  request_failed : ClientError → RawError

abbrev pub or_fail {ℓ} : {A : Type ℓ} → RawError → Option A → Result RawError A
or_fail e none = err e
or_fail e (some a) = ok a

abbrev pub json_header : List (Bytes × Bytes)
json_header = (text "Content-Type", text "application/json") ∷ []

abbrev pub stream_header : List (Bytes × Bytes)
stream_header =
    (text "Content-Type", text "text/event-stream")
    ∷ (text "Cache-Control", text "no-cache")
    ∷ (text "Connection", text "keep-alive")
    ∷ []

-- `r.Header.Get(key)` for each key: the first value, and no text where there is none.
unfoldable pub first_values : Fields → Fields
first_values [] = []
first_values ((k, []) ∷ fields) = (k, [] ∷ []) ∷ first_values fields
first_values ((k, v ∷ vs) ∷ fields) = (k, v ∷ []) ∷ first_values fields

unfoldable pub get_timeout : ClientConfig → ℕ
get_timeout cfg = if ltb 0 cfg.timeout then cfg.timeout else 30 * 10 ^ 9

-- What the Client has at the call: the Exit it uses, and the stream that its connection opens.
pub record Session (h : Hpke) : Type 0 where
  pub ohttp_client : OhttpClient h
  pub exit_pub_key_hash : Bytes
  pub stream : Option Stream
  pub seed : Bytes

module _ (h : Hpke) (g : Gcm) (w : Http) (lib : HttpLib w) (stream_field : Bytes → Option Bool)
    (make : Bytes → Bytes → Fields → Bytes → Option w.Request)
    (read_body : w.Response → Option Bytes) (error_json : ErrorText → ℕ → Bytes) where
  unfoldable pub send_request_raw :
      Session h → Bytes → Bytes → Bytes → Fields → Result RawError (Bytes × ℕ)
  send_request_raw s method path body headers =
      or_fail RawError.new_request_failed
        (make method (text "http://ai-backend" ++ path) headers body)
      >>= λ req.
          map_err RawError.request_failed
            (send_request h g w s.ohttp_client s.exit_pub_key_hash s.stream req s.seed)
          >>= λ resp. or_fail RawError.read_body_failed (read_body resp) >>= λ resp_body.
              ok (resp_body, lib.status_code resp)

  unfoldable pub write_error : ErrorText → ℕ → Reply
  write_error message status = record {
    status = status;
    header = json_header;
    body = error_json message status ∷ [];
  }

  -- `flushes` tells whether the writer is a `http.Flusher`; at most `fuel` chunks are read, and
  -- `accepts` says which writes succeed.
  unfoldable pub handle_streaming_request :
      Session h → Bool → ℕ → (ℕ → Bool) → UserRequest → Bytes → Reply
  unfolding write_error
  handle_streaming_request s flushes fuel accepts r body =
      if flushes
      then (elim (make r.method (text "http://ai-backend" ++ r.path) r.header body) [
        | none ↦ write_error ErrorText.create_request_failed 500
        | some req ↦
            (elim (send_stream_request h g w s.ohttp_client s.exit_pub_key_hash s.stream req
              s.seed) [
                | err e ↦ write_error ErrorText.ai_request_failed 502
                | ok (decryptor, answer) ↦ record {
                  status = 200;
                  header = stream_header;
                  body = forward_chunks g decryptor fuel accepts 0 answer;
                }
              ])
      ])
      else write_error ErrorText.stream_not_supported 500

  abbrev answer_of : Result RawError (Bytes × ℕ) → Reply
  answer_of (err e) = write_error ErrorText.forward_failed 502
  answer_of (ok (body, status)) = record { status = status; header = json_header; body = body ∷ [] }

  -- With the body that was read.
  unfoldable pub handle_body : Session h → Bool → ℕ → (ℕ → Bool) → UserRequest → Bytes → Reply
  unfolding handle_streaming_request send_request_raw write_error
  handle_body s flushes fuel accepts r body =
      if detect_streaming stream_field body r.path r.accept
      then handle_streaming_request s flushes fuel accepts r body
      else answer_of (send_request_raw s r.method r.path body (first_values r.header))

  unfoldable pub handle_request : Session h → Bool → ℕ → (ℕ → Bool) → UserRequest → Reply
  unfolding handle_body write_error
  handle_request s flushes fuel accepts r = elim r.body [
    | none ↦ handle_body s flushes fuel accepts r []
    | some none ↦ write_error ErrorText.read_request_failed 400
    | some (some body) ↦ handle_body s flushes fuel accepts r body
  ]
