-- ===== src/Client/Runs.antt =====
-- The theorems about internal/client/client.go at concrete inputs.
use token_go.Base.{text, [], none, some, false}
use token_go.LoadBalancer.Samples.{numbers}
use token_go.Client.Connection.{ClientState, World, get_connection}
use token_go.Client.Connection.Reconnects.{IsGot, get_connection_lem}

abbrev world : World numbers
world = record { discovery = none; dial = λ addr id. some 8; draw = λ n. 0; unit = 1 }

abbrev lost : ClientState numbers
lost = record {
  relay_addr = text "10.0.0.1:4433";
  current_relay_id = [];
  conn = some 3;
  selector = record { weights = []; failures = [] };
}

get_connection_lem_example :
    IsGot numbers world (λ c. false) lost (get_connection numbers (λ c. false) world lost)
get_connection_lem_example = get_connection_lem numbers world (λ c. false) lost
