-- ===== src/EndToEnd/Users.antt =====
-- The way of a user's streamed request through the proxy of the Client, the Relay and the Exit, and of
-- the events of the AI backend back to the user.
mod Runs
use token_go.Base.{zero, ◌<◌}
use token_go.Protocol.{decode}
use token_go.Relay.Registry.{Registry}
use token_go.Relay.Server.{Outcome}
use token_go.Client.Requests.{Stream}
use token_go.Client.Handlers.{Session, Reply}
