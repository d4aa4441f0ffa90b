-- ===== src/EndToEnd/Users/Runs.antt =====
-- A user's streamed request at a concrete Client, Relay and Exit.
use token_go.Base.{ℕ, Bytes, text, List, [], ◌∷◌, Option, some, Bool, true, refl}
use token_go.Protocol.{encode, ExitKeyEntry, new_stream_request_message}
use token_go.Crypto.Samples.{plain_hpke, plain_gcm, plain_http, zeros}
use token_go.Crypto.Ohttp.{OhttpClient}
use token_go.Crypto.Ohttp.Requests.{Sends}
use token_go.Relay.Registry.{Registry, new_registry, register}
use token_go.Relay.Server.{Opened, opened}
use token_go.Relay.Server.Stream.{concat}
use token_go.Exit.Samples.{echo_http, handler, two_events}
use token_go.Exit.Events.RoundTrip.{body_of}
use token_go.Exit.Tunnel.{Format, handle_incoming_stream}
use token_go.Client.Handlers.{UserRequest, Fields, ErrorText}
use token_go.EndToEnd.Requests.{closed_after}

-- The backend echoes the body, which is two events.
abbrev body : Bytes
body = body_of two_events

abbrev client : OhttpClient plain_hpke
client = record { key_id = 9; pub_key_raw = 1 ∷ [] }

abbrev sends : Sends plain_hpke plain_http client body []
sends = record {
  plain = body;
  public = 1 ∷ [];
  sender = 1 ∷ [];
  enc = 7 ∷ [];
  sealer = 1 ∷ [];
  ct = body;
  dumped = refl;
  parsed = refl;
  sends = refl;
  set_up = refl;
  sealed = refl;
}

abbrev no_text : Format
no_text = record { decode_error = λ e. []; handler_error = λ e. []; hex = λ n. [] }

abbrev registry : Registry
registry = (register 0 (text "hash") 5 [] new_registry).0

abbrev payload : Bytes
payload = 9 ∷ 0 ∷ 32 ∷ 0 ∷ 1 ∷ 0 ∷ 1 ∷ 7 ∷ body

abbrev user : UserRequest
user = record {
  method = text "POST";
  path = text "/v1/chat";
  header = [];
  accept = [];
  body = some (some body);
}

abbrev streams : Bytes → Option Bool
streams b = some true

abbrev make : Bytes → Bytes → Fields → Bytes → Option Bytes
make method url header b = some b

abbrev error_json : ErrorText → ℕ → Bytes
error_json t status = []

abbrev no_marshal : List ExitKeyEntry → Option Bytes
no_marshal keys = some []

abbrev to_exit : ℕ → Opened
to_exit conn = opened true (
    closed_after (
      concat (
        handle_incoming_stream plain_hpke plain_gcm plain_http echo_http no_text handler
          (λ k. some (zeros 12)) (λ k. true)
          (closed_after (encode (new_stream_request_message [] payload))))))
