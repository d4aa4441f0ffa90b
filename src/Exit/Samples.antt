-- ===== src/Exit/Samples.antt =====
-- An instance of what the Exit uses of net/http, and a backend's answer, for theorems at concrete
-- inputs.
use token_go.Base.{text, [], ◌∷◌, List, some, true, All, arith}
use token_go.Crypto.Samples.{plain_hpke, plain_gcm, plain_http}
use token_go.Exit.Backend.{AiClient, has_body}
use token_go.Exit.Events.RoundTrip.{Event, IsEvent}
use token_go.Exit.Handler.{HttpLib, OhttpHandler}

-- The backend echoes the body.
abbrev pub echo_http : HttpLib plain_http
echo_http = record {
  parts = λ r. record {
    method = text "POST";
    path = text "/v1/chat";
    raw_query = [];
    header = [];
    body = has_body (some r);
  };
  canonical = λ name. name;
  valid = λ method url. true;
  send = λ out. some out.body;
  send_stream = λ out. some out.body;
  status_code = λ resp. 200;
  body = λ resp. resp;
  new_response = λ status content_type body. body;
}

abbrev pub ai_client : AiClient
ai_client = record { base_url = text "https://ai"; api_key = text "key"; headers = [] }

abbrev pub handler : OhttpHandler plain_hpke plain_gcm plain_http echo_http
handler = record {
  ohttp_server = record { key_id = 9; private_key = 2 ∷ [] };
  ai_client = ai_client;
  key_config = [];
}

abbrev pub two_events : List Event
two_events =
    record { first = text "data: a"; more = [] }
    ∷ record { first = text "event: b"; more = text "data: c" ∷ [] }
    ∷ []

pub two_events-IsEvent : All IsEvent two_events
two_events-IsEvent = ground arith
