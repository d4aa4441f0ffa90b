-- ===== src/Net.antt =====
-- internal/netutil/multiaddr.go, and the addresses of peers that the other parts pass around.
pub mod Opened
pub mod Prefer
mod Runs
use token_go.Base.{
  ℕ, Bytes, text, List, [], ◌∷◌, ◌++◌, Bool, true, false, ite, bytes_discrete, ℕ_discrete, ◌&&◌,
  not, if◌then◌else◌,
}

-- `peer.AddrInfo`: the peer's id, and its multiaddrs in their text form.
pub record AddrInfo : Type 0 where
  pub id : Bytes
  pub addrs : List Bytes

-- `strings.Split(s, "/")`: the pieces between the separators, one more than there are separators.
unfoldable pub add_to_first : ℕ → List Bytes → List Bytes
add_to_first c [] = (c ∷ []) ∷ []
add_to_first c (piece ∷ pieces) = (c ∷ piece) ∷ pieces

unfoldable pub split_slash : Bytes → List Bytes
unfolding ℕ_discrete add_to_first
split_slash [] = [] ∷ []
split_slash (c ∷ cs) =
    let rest = split_slash cs in ite (ℕ_discrete c b'/') ([] ∷ rest) (add_to_first c rest)

pub record Endpoint : Type 0 where
  pub ip : Bytes
  pub port : Bytes
  pub is_udp : Bool

abbrev pub no_endpoint : Endpoint
no_endpoint = record { ip = []; port = []; is_udp = false }

-- One round of the loop over `parts`: the piece and the one behind it.
unfoldable pub scan_part : Bytes → Bytes → Endpoint → Endpoint
unfolding bytes_discrete
scan_part part next e =
    let e' : Endpoint =
      ite (bytes_discrete part (text "ip4")) (record e { ip = next })
        (ite (bytes_discrete part (text "ip6")) (record e { ip = next }) e) in
    ite (bytes_discrete part (text "udp")) (record e' { port = next; is_udp = true })
      (ite (bytes_discrete part (text "tcp")) (record e' { port = next }) e')

-- The loop stops before the last piece.
unfoldable pub scan_parts : List Bytes → Endpoint → Endpoint
unfolding scan_part
scan_parts [] e = e
scan_parts (part ∷ []) e = e
scan_parts (part ∷ next ∷ rest) e = scan_parts (next ∷ rest) (scan_part part next e)

unfoldable pub endpoint : Bytes → Endpoint
unfolding scan_parts split_slash
endpoint addr = scan_parts (split_slash addr) no_endpoint

abbrev pub is_empty : Bytes → Bool
is_empty [] = true
is_empty (b ∷ bs) = false

abbrev pub host_port : Endpoint → Bytes
host_port e = e.ip ++ b':' ∷ e.port

unfoldable pub extract_loop : Bytes → List Bytes → Bytes
unfolding endpoint
extract_loop fallback [] = fallback
extract_loop fallback (addr ∷ addrs) =
    let e = endpoint addr in
    let skipped = extract_loop fallback addrs in
    let kept = extract_loop (if is_empty fallback then host_port e else fallback) addrs in
    if not (is_empty e.ip) && not (is_empty e.port)
    then (if e.is_udp then host_port e else kept)
    else skipped

unfoldable pub extract_quic_address : List Bytes → Bytes
unfolding extract_loop
extract_quic_address addrs = extract_loop [] addrs
