-- ===== src/EndToEnd/Runs.antt =====
-- The theorems about whole requests at concrete inputs.
use token_go.Base.{
  ℕ, zero, suc, Bytes, text, List, [], ◌∷◌, ◌++◌, map, Option, some, true, ◌≡◌, refl, arith,
}
use token_go.Protocol.{encode, new_request_message, new_stream_chunk_message, ExitKeyEntry}
use token_go.Crypto.Samples.{plain_hpke, plain_gcm, plain_gcm-GcmLaws, plain_http, zeros}
use token_go.Crypto.Ohttp.{OhttpClient}
use token_go.Crypto.Ohttp.Requests.{Sends}
use token_go.Relay.Registry.{Registry, new_registry, register}
use token_go.Relay.Server.{Opened, opened, stream_loop}
use token_go.Relay.Server.Stream.{concat}
use token_go.Crypto.Keys.{encode_key_config}
use token_go.Exit.Tunnel.{Format}
use token_go.Exit.Samples.{echo_http, handler, two_events, two_events-IsEvent}
use token_go.Exit.Events.{write_stream_chunks}
use token_go.Exit.Events.RoundTrip.{event_text, body_of, text_of_lines}
use token_go.Client.Requests.{read_chunks, end_of_stream}
use token_go.EndToEnd.Requests.{closed_after, exit_reply}
use token_go.EndToEnd.Streams.{ChunksFit, stream_round_trip}

abbrev client : OhttpClient plain_hpke
client = record { key_id = 9; pub_key_raw = 1 ∷ [] }

abbrev sends : Sends plain_hpke plain_http client (3 ∷ 4 ∷ []) []
sends = record {
  plain = 3 ∷ 4 ∷ [];
  public = 1 ∷ [];
  sender = 1 ∷ [];
  enc = 7 ∷ [];
  sealer = 1 ∷ [];
  ct = 3 ∷ 4 ∷ [];
  dumped = refl;
  parsed = refl;
  sends = refl;
  set_up = refl;
  sealed = refl;
}

abbrev no_text : Format
no_text = record { decode_error = λ e. []; handler_error = λ e. []; hex = λ n. [] }

abbrev registry : Registry
registry = (register 0 (text "hash") 5 [] new_registry).0

abbrev payload : Bytes
payload = 9 ∷ 0 ∷ 32 ∷ 0 ∷ 1 ∷ 0 ∷ 1 ∷ 7 ∷ 3 ∷ 4 ∷ []

abbrev random : ℕ → Option Bytes
random zero = some (zeros 16)
random (suc n) = some (zeros 12)

abbrev no_marshal : List ExitKeyEntry → Option Bytes
no_marshal keys = some []

abbrev to_exit : ℕ → Opened
to_exit conn = opened true (
    exit_reply plain_hpke plain_gcm plain_http echo_http no_text handler random (λ i. true)
      (encode (new_request_message [] payload)))

two_events_fit : ChunksFit plain_gcm [] (λ k. zeros 12) 0 two_events
unfolding new_stream_chunk_message
two_events_fit = ground arith

stream_round_trip_example :
    read_chunks plain_gcm [] 3 (
      closed_after (
        concat (
          (stream_loop 5
            (λ k. true)
            0
            (closed_after (
              concat
                (write_stream_chunks plain_gcm []
                  (λ k. some (zeros 12))
                  (λ k. true)
                  (body_of two_events ++ text_of_lines [])).0))).sent)))
    ≡ (map event_text two_events, some end_of_stream)
stream_round_trip_example =
    stream_round_trip plain_gcm [] (λ k. zeros 12) plain_gcm-GcmLaws (λ k. refl) two_events []
      (λ k. true) (λ k. true) 5 two_events-IsEvent tt two_events_fit (λ k. refl) (λ k. refl)
      (omega arith)

abbrev listed : ExitKeyEntry
listed = record {
  pub_key_hash = text "hash";
  key_config = encode_key_config plain_hpke 9 (1 ∷ 2 ∷ []);
}

abbrev with_key : Registry
with_key = (register 0 (text "hash") 5 listed.key_config new_registry).0

abbrev json : List ExitKeyEntry → Option Bytes
json entries = some (1 ∷ [])

abbrev parse_json : Bytes → Option (List ExitKeyEntry)
parse_json bytes = some (listed ∷ [])
