-- ===== src/Net/Runs.antt =====
-- The theorems about internal/netutil/multiaddr.go at concrete addresses.
use token_go.Base.{Bytes, text, [], ◌∷◌, ◌++◌, ◌≡◌, refl}
use token_go.Net.{endpoint, extract_quic_address, host_port}
use token_go.Net.Prefer.{first_usable, extract_quic_address_udp, extract_quic_address_tcp}

abbrev tcp_address : Bytes
tcp_address = text "/ip4/10.0.0.1/tcp/4001"

abbrev udp_address : Bytes
udp_address = text "/ip4/10.0.0.2/udp/4433/quic-v1"

abbrev dns_address : Bytes
dns_address = text "/dns4/relay.example/tcp/443"

extract_quic_address_udp_example :
    extract_quic_address ((tcp_address ∷ []) ++ udp_address ∷ []) ≡ host_port (endpoint udp_address)
unfolding endpoint
extract_quic_address_udp_example =
    extract_quic_address_udp (tcp_address ∷ []) udp_address [] (refl, tt) refl

udp_host_port : host_port (endpoint udp_address) ≡ text "10.0.0.2:4433"
unfolding endpoint
udp_host_port = refl

extract_quic_address_tcp_example :
    extract_quic_address (dns_address ∷ tcp_address ∷ [])
    ≡ first_usable (dns_address ∷ tcp_address ∷ [])
unfolding endpoint
extract_quic_address_tcp_example =
    extract_quic_address_tcp (dns_address ∷ tcp_address ∷ []) (refl, (refl, tt))

tcp_host_port : first_usable (dns_address ∷ tcp_address ∷ []) ≡ text "10.0.0.1:4001"
unfolding endpoint
tcp_host_port = refl
