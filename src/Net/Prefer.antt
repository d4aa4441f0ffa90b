-- ===== src/Net/Prefer.antt =====
-- Which address `ExtractQUICAddress` of internal/netutil/multiaddr.go picks.
use token_go.Base.{
  Bytes, List, [], ◌∷◌, ◌++◌, Bool, true, false, ◌&&◌, not, ◌≡◌, refl, arith, All, if◌then◌else◌,
}
use token_go.Net.{endpoint, is_empty, host_port, extract_loop, extract_quic_address}

-- An address with a host and a port.
abbrev pub usable : Bytes → Bool
usable addr = not (is_empty (endpoint addr).ip) && not (is_empty (endpoint addr).port)

abbrev pub usable_udp : Bytes → Bool
usable_udp addr = usable addr && (endpoint addr).is_udp

extract_loop_udp :
    (fallback : Bytes) (before : List Bytes) (addr : Bytes) (after : List Bytes)
    → All (λ a. usable_udp a ≡ false) before
    → usable_udp addr ≡ true
    → extract_loop fallback (before ++ addr ∷ after) ≡ host_port (endpoint addr)
unfolding extract_loop
extract_loop_udp fallback [] addr after none this = ground arith
extract_loop_udp fallback (b ∷ before) addr after none this = ground (
  arith,
  extract_loop_udp fallback before addr after none.1 this,
  extract_loop_udp (host_port (endpoint b)) before addr after none.1 this,
)

-- The first usable UDP address wins, also behind usable TCP addresses.
pub extract_quic_address_udp :
    (before : List Bytes) (addr : Bytes) (after : List Bytes)
    → All (λ a. usable_udp a ≡ false) before
    → usable_udp addr ≡ true
    → extract_quic_address (before ++ addr ∷ after) ≡ host_port (endpoint addr)
unfolding extract_quic_address
extract_quic_address_udp before addr after none this =
    extract_loop_udp [] before addr after none this

-- The first usable address, if there is any.
abbrev pub first_usable : List Bytes → Bytes
first_usable [] = []
first_usable (a ∷ addrs) = if usable a then host_port (endpoint a) else first_usable addrs

extract_loop_tcp :
    (fallback : Bytes) (addrs : List Bytes)
    → All (λ a. usable_udp a ≡ false) addrs
    → extract_loop fallback addrs ≡ (if is_empty fallback then first_usable addrs else fallback)
unfolding extract_loop
extract_loop_tcp [] [] none = refl
extract_loop_tcp (f ∷ fs) [] none = refl
extract_loop_tcp [] (a ∷ addrs) none = ground (
  arith,
  extract_loop_tcp [] addrs none.1,
  extract_loop_tcp (host_port (endpoint a)) addrs none.1,
)
extract_loop_tcp (f ∷ fs) (a ∷ addrs) none = ground (arith, extract_loop_tcp (f ∷ fs) addrs none.1)

-- Without a usable UDP address the first usable one is taken, and the answer is empty if there is
-- none.
pub extract_quic_address_tcp :
    (addrs : List Bytes)
    → All (λ a. usable_udp a ≡ false) addrs
    → extract_quic_address addrs ≡ first_usable addrs
unfolding extract_quic_address
extract_quic_address_tcp addrs none = extract_loop_tcp [] addrs none
