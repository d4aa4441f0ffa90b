-- ===== src/Lib.antt =====
-- TokenGo: a gateway that carries AI requests from a Client over a blind Relay to an Exit.
--
-- A Client seals an HTTP request for an Exit (OHTTP, internal/crypto) and sends it to a Relay on
-- a QUIC stream. The Relay knows each Exit by the hash of its public key: Exits connect to the
-- Relay, register, and are sent the requests for their hash. The Exit opens the request, asks
-- its AI backend and seals the answer. All of them speak the frames of internal/protocol.
--
-- Files:
--   Base: byte strings, Go maps, (value, error) results, lists over native numbers.
--   Protocol: internal/protocol/messages.go. Protocol.Input is io.Reader and io.ReadFull as
--   Decode uses them; `encode` is Message.Encode, `decode` is Decode. RoundTrip, Exact and
--   Limits hold the theorems.
--   Relay.Registry: internal/relay/registry.go, a method to a function; Relay.Server: the
--   handlers of internal/relay/quic_server.go, with Start and Stop as a step relation in
--   Accepting, and a Client's connection in ClientStreams; Relay.Sessions: the steps of all
--   connections of a Relay in any order.
--   Crypto.Keys: the KeyConfig of internal/crypto/keys.go; Crypto.Ohttp:
--   internal/crypto/ohttp.go, over the libraries that Crypto.Interface names with what is relied
--   on (Paired, IsKeyPair, GcmLaws). Crypto.Samples has instances of them.
--   Exit.Events: writeStreamChunks of internal/exit/ohttp_handler.go; Exit.Handler: the rest of
--   that file; Exit.Backend: internal/exit/ai_client.go; Exit.Tunnel: internal/exit/tunnel.go,
--   with Start, reconnectLoop and Stop as a step relation in Exit.Tunnel.Life, and its loops in
--   Exit.Tunnel.Loops. Exit.Samples has a backend.
--   Client.Connection: connect and getConnection of internal/client/client.go; Client.Requests:
--   its requests, streams and queries; Client.Shared: getConnection, Connect and Close of
--   several goroutines, as a step relation; Client.Startup: the constructors, SetExit, SetRelay
--   and discoverAndConnect; Client.Life: the constructors, Start and Stop of
--   internal/client/proxy.go; Client.Proxy and Client.Handlers: the rest of it, and
--   SendRequestRaw.
--   EndToEnd: a request, a streamed response and the discovery of an Exit, through Client, Relay
--   and Exit; Users puts the proxy in front of a streamed request.
--   Files: package os and base64 as the nodes use them; Config: internal/config/config.go;
--   Identity: internal/identity/identity.go; Cert: internal/cert/cert.go. Identity.Samples and
--   Cert.Samples are instances of the libraries.
--   Crypto.Keys.Stored: the key files of internal/crypto/keys.go; Exit.Node: newExitNode of
--   internal/exit/exit.go, and ensureOHTTPKey; Cmd: the rest of cmd/tokengo/main.go that
--   computes something, with the command `serve` in Cmd.Serve.
--   Relay.Node: New of internal/relay/relay.go. Relay.Registry.Refines is the registry without
--   its map; Relay.Registry.Ticker has StartCleanup.
--   Net: ExtractQUICAddress of internal/netutil/multiaddr.go.
--   Dht.Bootstrap: internal/dht/peers.go; Dht.Discovery: internal/dht/discovery.go;
--   Dht.Provider: internal/dht/provider.go, with the loop of Register in Attempts and
--   refreshLoop in Refresh; Dht.Node: internal/dht/node.go; Dht.Service: the DHT part of Start
--   and Stop in internal/relay/relay.go and internal/exit/exit.go.
--   LoadBalancer: internal/loadbalancer/selector.go; Turns has the round-robin and the random
--   selector, Weighted the weighted one, over a parameter for float64.
--
-- Conventions: a byte slice or a Go string is a list of numbers below 256; a map is an
-- association list; a mutex makes a method one step; the time is an argument in nanoseconds; a
-- QUIC stream is what can be read from it and whether writes succeed. What a handler writes, and
-- which connections it closes, is returned. Log lines are left out.
--
-- Bounds and fuel: the frame lengths wrap at 16 and 32 bits as the conversions in Encode do.
-- `stream_loop` recurs on fuel, which `stream_response` sets above the number of bytes that the
-- Exit's answer has left; each round takes a frame off it, so this is enough (stream_loop_fuel).
--
-- `read_chunks` and `forward_chunks` recur on the number of chunks to read at most, which is an
-- argument; stream_round_trip gives one more than there are events.
--
-- Not modelled: TLS, QUIC, HTTP and the DHT library, which are parameters; signals, flag
-- parsing, log lines, console progress messages and test helpers. The step relations
-- (Client.Shared, Relay.Sessions, Relay.Server.Accepting, Exit.Tunnel.Life) say which goroutines
-- may take turns; elsewhere a method is one step. In `discoverAndConnect` the new connection is
-- taken to live until the Exits have been asked for.
pub mod Base
pub mod Cert
pub mod Client
pub mod Cmd
pub mod Config
pub mod Crypto
pub mod Dht
pub mod EndToEnd
pub mod Exit
pub mod Files
pub mod Identity
pub mod LoadBalancer
pub mod Net
pub mod Protocol
pub mod Relay
