-- ===== src/Client/Handlers/Runs.antt =====
-- The proxy's handler at a concrete request.
use token_go.Base.{ℕ, Bytes, text, [], ◌∷◌, Option, Bool, some, true, ok, ◌≡◌, refl}
use token_go.Protocol.{encode, new_stream_end_message}
use token_go.Protocol.Input.{Reader, eof}
use token_go.Crypto.Samples.{plain_hpke, plain_gcm, plain_http, zeros}
use token_go.Crypto.Ohttp.{encapsulate_request, new_stream_decryptor}
use token_go.Exit.Samples.{echo_http}
use token_go.Client.Requests.{send_stream_request, stream_request_frame, read_chunks}
use token_go.Client.Proxy.{detect_streaming}
use token_go.Client.Handlers.{
  UserRequest, Session, Fields, ErrorText, handle_request, stream_header,
}
use token_go.Client.Handlers.Answers.{handle_request_lem}

abbrev answer : Reader
answer = record { pending = encode new_stream_end_message; ending = eof }

abbrev session : Session plain_hpke
session = record {
  ohttp_client = record { key_id = 9; pub_key_raw = 1 ∷ [] };
  exit_pub_key_hash = text "a";
  stream = some (record { write_ok = true; close_ok = true; answer = answer });
  seed = [];
}

abbrev user_request : UserRequest
user_request = record {
  method = text "POST";
  path = text "/v1/chat";
  header = [];
  accept = [];
  body = some (some (5 ∷ []));
}

abbrev make : Bytes → Bytes → Fields → Bytes → Option Bytes
make method url header body = some body

abbrev streams : Bytes → Option Bool
streams body = some true

abbrev error_json : ErrorText → ℕ → Bytes
error_json t status = []

sent :
    send_stream_request plain_hpke plain_gcm plain_http session.ohttp_client
      (text "a")
      session.stream
      (5 ∷ [])
      []
    ≡ ok (zeros 16, answer)
unfolding send_stream_request stream_request_frame encapsulate_request new_stream_decryptor
sent = refl

detected : detect_streaming streams (5 ∷ []) (text "/v1/chat") [] ≡ true
unfolding detect_streaming
detected = refl

handle_request_lem_example :
    handle_request plain_hpke plain_gcm plain_http echo_http streams make some error_json session
      true 3
      (λ k. true)
      user_request
    ≡ record {
      status = 200;
      header = stream_header;
      body = (read_chunks plain_gcm (zeros 16) 3 answer).0;
    }
handle_request_lem_example =
    handle_request_lem plain_hpke plain_gcm plain_http echo_http streams make some error_json
      session 3 (λ k. true) user_request (5 ∷ []) (5 ∷ []) (zeros 16) answer refl detected refl sent
      (λ k. refl)
