-- ===== src/EndToEnd/Discovery.antt =====
-- How a Client learns of an Exit: its proxy's query to the Relay (internal/client/proxy.go and
-- client.go), answered by internal/relay/quic_server.go and registry.go.
use token_go.Base.{Bytes, []}
use token_go.Protocol.{Message, IsValid, type_exit_keys_response}
use token_go.Relay.Registry.{Registry, IsValid as IsValidRegistry}

abbrev pub keys_response : Bytes → Message
keys_response payload = record { type = type_exit_keys_response; target = []; payload = payload }
