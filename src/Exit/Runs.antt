-- ===== src/Exit/Runs.antt =====
-- The theorems about internal/exit at concrete inputs.
use token_go.Base.{
  ℕ, ◌*◌, ◌≤◌, Bytes, text, List, [], ◌∷◌, ◌++◌, Option, none, some, true, ok, lookup, Among, inl,
  ◌⊎◌, ◌≡◌, refl,
}
use token_go.Protocol.Input.{eof}
use token_go.Protocol.{
  encode, new_stream_end_message, new_register_message, new_register_ack_message,
}
use token_go.Net.{AddrInfo, extract_quic_address}
use token_go.Crypto.Samples.{plain_gcm, zeros}
use token_go.Exit.Samples.{ai_client, two_events, two_events-IsEvent}
use token_go.Exit.Backend.{Incoming, AiClient, has_body, outgoing, is_hop_by_hop_header}
use token_go.Exit.Backend.Headers.{outgoing_hop_by_hop, outgoing_configured, outgoing_api_key}
use token_go.Exit.Events.{write_stream_chunks}
use token_go.Exit.Events.RoundTrip.{
  write_stream_chunks_events, body_of, text_of_lines, chunk_frames,
}
use token_go.Exit.Tunnel.Retries.{start_attempts, reconnect_attempts, BacksOff, attempts_lem}
use token_go.Exit.Tunnel.{second, select_best_relay, connect_and_register, Dialed}
use token_go.Exit.Tunnel.Choice.{Answers, select_best_relay_lem}
use token_go.Exit.Tunnel.Registration.{IsRegistered, IsGivenUp, connect_and_register_lem}

abbrev client_request : Incoming
client_request = record {
  method = text "POST";
  path = text "/v1/chat";
  raw_query = [];
  header =
      (text "Connection", text "close" ∷ []) ∷ (text "Authorization", text "Bearer mine" ∷ []) ∷ [];
  body = has_body (some []);
}

outgoing_hop_by_hop_example :
    lookup (text "Connection") (outgoing (λ k. k) ai_client client_request []).header ≡ none
outgoing_hop_by_hop_example =
    outgoing_hop_by_hop (λ k. k) ai_client client_request [] (text "Connection") (refl, (refl, tt))
      (unfold is_hop_by_hop_header in refl) (tt, λ e. cc)

abbrev configured : AiClient
configured = record {
  base_url = [];
  api_key = text "key";
  headers = (text "X-Api-Key", text "secret") ∷ [];
}

outgoing_configured_example :
    lookup (text "X-Api-Key") (outgoing (λ k. k) configured client_request []).header
    ≡ some (text "secret" ∷ [])
outgoing_configured_example =
    outgoing_configured (λ k. k) configured client_request [] [] (text "X-Api-Key") (text "secret")
      [] refl tt

outgoing_api_key_example :
    lookup (text "Authorization") (outgoing (λ k. k) ai_client client_request []).header
    ≡ some ((text "Bearer " ++ text "key") ∷ [])
outgoing_api_key_example = outgoing_api_key (λ k. k) ai_client client_request [] refl (λ e. cc)

write_stream_chunks_events_example :
    write_stream_chunks plain_gcm []
      (λ k. some (zeros 12))
      (λ k. true)
      (body_of two_events ++ text_of_lines [])
    ≡ (
      chunk_frames plain_gcm [] (λ k. zeros 12) 0 two_events ++ encode new_stream_end_message ∷ [],
      true,
    )
write_stream_chunks_events_example =
    write_stream_chunks_events plain_gcm [] (λ k. zeros 12) (λ k. true) two_events []
      two_events-IsEvent tt (λ k. refl)

abbrev near : AddrInfo
near = record { id = 1 ∷ []; addrs = text "/ip4/10.0.0.2/udp/4433" ∷ [] }

abbrev probe_all : Bytes → Bytes → Option ℕ
probe_all addr id = some 5

select_best_relay_lem_example :
    (best : AddrInfo) × (least : ℕ) × Among best (near ∷ [])
    × Answers probe_all best least
    × (select_best_relay probe_all (near ∷ []) ≡ ok (extract_quic_address best.addrs, best.id))
    × ((s : AddrInfo) (u : ℕ) → Among s (near ∷ []) → Answers probe_all s u → least ≤ u)
unfolding extract_quic_address
select_best_relay_lem_example =
    select_best_relay_lem probe_all (near ∷ []) near 5 (inl refl) (refl, refl)

abbrev dialed : Dialed
dialed = record {
  conn = 4;
  stream = some (true, record { pending = encode (new_register_ack_message []); ending = eof });
}

connect_and_register_lem_example :
    IsRegistered 4
      (encode (new_register_message (text "hash") []))
      dialed.stream
      (connect_and_register (text "hash") [] (some dialed))
    ⊎ IsGivenUp 4 (connect_and_register (text "hash") [] (some dialed))
connect_and_register_lem_example = connect_and_register_lem (text "hash") [] dialed

abbrev two_failures : List (Option ℕ)
two_failures = none ∷ none ∷ []

attempts_lem_example :
    ((waits : List ℕ) × (start_attempts (two_failures ++ some 7 ∷ []) ≡ (waits, some 7))
      × BacksOff (3 * second) 2 waits)
    × ((waits : List ℕ) × (reconnect_attempts (two_failures ++ some 7 ∷ []) ≡ (waits, some 7))
        × BacksOff second 3 waits)
attempts_lem_example = attempts_lem two_failures 7 [] (refl, (refl, tt))
