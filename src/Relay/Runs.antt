-- ===== src/Relay/Runs.antt =====
-- Concrete runs of the Relay, and the theorems at them.
use token_go.Base.{
  none, Bool, ◌==◌, ℕ, ◌≡◌, refl, Bytes, List, [], ◌∷◌, ◌++◌, length, map, some, arith, text,
  lookup, insert, bytes_discrete, Among, true, ◌⊎◌,
}
use token_go.Protocol.Input.{Reader, eof, failed, read_full}
use token_go.Protocol.{
  Message, encode, decode, read_target, read_payload, type_request, type_response,
  type_stream_chunk, type_stream_end, new_request_message, new_register_ack_message,
}
use token_go.Relay.Registry.{Registry, new_registry, register, lookup_conn, remove_if_match}
use token_go.Relay.Registry.Runs.{b-ne-a, two_exits}
use token_go.Relay.Registry.Lookups.{superseded}
use token_go.Relay.Server.{
  Opened, opened, open_failed, forward_response, handle_forward_request, stream_loop, Ending,
  handle_exit_connection, end_session,
}
use token_go.Relay.Server.Forward.{
  forward_request_lem, forward_response_lem, forward_request_total, Answers,
}
use token_go.Relay.Server.Stream.{
  stream_loop_prefix, stream_loop_complete, stream_loop_fuel, concat, Ran,
}
use token_go.Relay.Server.Admit.{exit_connection_lem, Registers, IsAdded}
use token_go.Relay.Sessions.{Relay, start, Reach, started, after, admitted}
use token_go.Relay.Sessions.Live.{registered_is_live, newer_survives}

abbrev ask : Message
ask = record { type = type_request; target = text "a"; payload = 7 ∷ [] }

abbrev answer : Message
answer = record { type = type_response; target = []; payload = 8 ∷ [] }

abbrev answering : ℕ → Opened
answering conn = opened true (record { pending = encode answer ++ 9 ∷ []; ending = eof })

forward_request_lem_example : handle_forward_request answering two_exits ask ≡ record {
  registry = two_exits;
  to_client = encode answer ∷ [];
  to_exit = encode (new_request_message [] (7 ∷ [])) ∷ [];
}
forward_request_lem_example =
    forward_request_lem answering two_exits ask answer 3 (9 ∷ []) eof (λ e. cc)
      (unfold lookup_conn lookup bytes_discrete in refl) (omega arith) refl

abbrev broken_answer : Reader
broken_answer = record { pending = 2 ∷ 0 ∷ []; ending = failed }

forward_response_lem_example :
    (frame : Bytes) × (forward_response two_exits (1 ∷ []) true broken_answer
      ≡ record { registry = two_exits; to_client = frame ∷ []; to_exit = (1 ∷ []) ∷ [] })
    × Answers broken_answer frame
forward_response_lem_example =
    forward_response_lem two_exits (1 ∷ []) true broken_answer (omega arith)

forward_request_total_example :
    (length (handle_forward_request (λ c. open_failed) two_exits ask).to_client ≡ 1)
    × (((handle_forward_request (λ c. open_failed) two_exits ask).to_exit ≡ [])
        ⊎ ((handle_forward_request (λ c. open_failed) two_exits ask).to_exit
            ≡ encode (new_request_message [] (7 ∷ [])) ∷ []))
    × (lookup_conn (text "b") (handle_forward_request (λ c. open_failed) two_exits ask).registry
        ≡ lookup_conn (text "b") two_exits)
forward_request_total_example =
    forward_request_total (λ c. open_failed) two_exits ask (text "b") b-ne-a

abbrev chunk : Message
chunk = record { type = type_stream_chunk; target = []; payload = 5 ∷ [] }

abbrev stream_end : Message
stream_end = record { type = type_stream_end; target = []; payload = [] }

stream_loop_complete_example :
    stream_loop 9
      (λ k. true)
      0
      (record {
        pending = concat (map encode (chunk ∷ [])) ++ (encode stream_end ++ 1 ∷ []);
        ending = failed;
      })
    ≡ record { sent = encode chunk ∷ encode stream_end ∷ []; ending = Ending.finished }
stream_loop_complete_example =
    stream_loop_complete (chunk ∷ []) stream_end (1 ∷ []) failed 9 0 (λ k. true)
      ((omega arith, refl), tt) (omega arith) refl (λ k. refl) (omega arith)

abbrev two_frames : Reader
two_frames = record {
  pending = 4 ∷ 0 ∷ 0 ∷ 0 ∷ 0 ∷ 0 ∷ 1 ∷ 5 ∷ 5 ∷ 0 ∷ 0 ∷ 0 ∷ 0 ∷ 0 ∷ 0 ∷ [];
  ending = eof;
}

-- The first write succeeds, and the second does not.
abbrev one_write : ℕ → Bool
one_write k = k == 0

stream_loop_prefix_example :
    (rest : Bytes) × (two_frames.pending
      ≡ concat (stream_loop 16 one_write 0 two_frames).sent ++ rest)
stream_loop_prefix_example = stream_loop_prefix 16 one_write 0 two_frames (omega arith)

stream_loop_two :
    stream_loop 16 (λ k. true) 0 two_frames
    ≡ record { sent = encode chunk ∷ encode stream_end ∷ []; ending = Ending.finished }
unfolding stream_loop decode read_full read_target read_payload encode
stream_loop_two = refl

stream_loop_one :
    stream_loop 16 one_write 0 two_frames
    ≡ record { sent = encode chunk ∷ []; ending = Ending.write_failed }
unfolding stream_loop decode read_full read_target read_payload encode
stream_loop_one = refl

stream_loop_fuel_example : Ran one_write 0 two_frames (stream_loop 16 one_write 0 two_frames)
stream_loop_fuel_example = stream_loop_fuel 16 one_write 0 two_frames (omega arith) (omega arith)

abbrev registering : Reader
registering = record { pending = 16 ∷ 0 ∷ 1 ∷ 97 ∷ 0 ∷ 0 ∷ 0 ∷ 1 ∷ 6 ∷ []; ending = eof }

exit_connection_lem_example :
    ((hash : Bytes) × (key_config : Bytes) × (reg : Registry) × Registers true
        (some registering)
        hash
        key_config
      × IsAdded 70 hash 5 key_config two_exits reg
      × (handle_exit_connection 70 5 true two_exits (some registering) ≡ record {
        registry = reg;
        written = encode (new_register_ack_message []) ∷ [];
        closes = superseded (lookup_conn hash two_exits);
        session = some hash;
      }))
    ⊎ ((written : List Bytes) × (reason : Bytes) × ((hash key_config : Bytes)
          → ¬ (Registers true (some registering) hash key_config))
        × (handle_exit_connection 70 5 true two_exits (some registering) ≡ record {
          registry = two_exits;
          written = written;
          closes = record { conn = 5; code = 1; reason = reason } ∷ [];
          session = none;
        }))
exit_connection_lem_example = exit_connection_lem 70 5 true two_exits (some registering)

exit_connection_run :
    (handle_exit_connection 70 5 true two_exits (some registering)).session ≡ some (text "a")
unfolding handle_exit_connection decode read_full read_target read_payload
exit_connection_run = refl

-- One Exit has registered.
abbrev one_session : Relay
one_session = record {
  registry = (register 10 (text "a") 0 [] new_registry).0;
  sessions = (0, text "a") ∷ [];
  next_conn = 1;
}

one_session-Reach : Reach one_session
unfolding start
one_session-Reach = after started (admitted start 10 (text "a") [])

registered_is_live_example : Among (0, text "a") one_session.sessions
registered_is_live_example =
    registered_is_live {s = one_session} (text "a") 0 one_session-Reach
      (unfold register new_registry insert lookup_conn lookup bytes_discrete in refl)

newer_survives_example :
    (lookup_conn (text "a") (end_session (text "a") 3 (register 70 (text "a") 5 [] two_exits).0).0
      ≡ some 5)
    × (lookup_conn
          (text "a")
          (remove_if_match (text "a") 3 (register 70 (text "a") 5 [] two_exits).0).0
        ≡ some 5)
newer_survives_example = newer_survives 70 (text "a") [] 3 5 two_exits (omega arith)
