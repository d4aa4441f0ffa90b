-- ===== src/Dht/Bootstrap/Merge.antt =====
-- What the merge of internal/dht/peers.go keeps.
use token_go.Base.{
  Bytes, List, [], ◌∷◌, ◌++◌, Option, none, some, Map, lookup, lookup-insert, insert-Distinct,
  Distinct, ◌≡◌, refl, arith, Bool-cases, inl, inr, if◌then◌else◌, bytes_discrete, ite, sym, ap,
  ◌∙◌, append_assoc, append-nil,
}
use token_go.Net.{AddrInfo}
use token_go.Dht.Bootstrap.{usable, joined, add_peer, add_peers, merge_batches}

-- The addresses that a map has for an id.
abbrev pub addrs_of : Bytes → Map AddrInfo → List Bytes
addrs_of id peers = elim (lookup id peers) [ none ↦ [] | some e ↦ e.addrs ]

-- The addresses that a peer brings for an id.
abbrev pub brought : Bytes → AddrInfo → List Bytes
brought id p = if usable p then ite (bytes_discrete p.id id) p.addrs [] else []

abbrev pub collected : Bytes → List AddrInfo → List Bytes
collected id [] = []
collected id (p ∷ ps) = brought id p ++ collected id ps

abbrev pub collected_all : Bytes → List (List AddrInfo) → List Bytes
collected_all id [] = []
collected_all id (batch ∷ batches) = collected id batch ++ collected_all id batches

joined_addrs :
    (o : Option AddrInfo) (p : AddrInfo)
    → (joined o p).addrs ≡ (elim o [ none ↦ [] | some e ↦ e.addrs ]) ++ p.addrs
joined_addrs none p = refl
joined_addrs (some e) p = refl

add_peer_addrs :
    (id : Bytes) (p : AddrInfo) (peers : Map AddrInfo)
    → addrs_of id (add_peer p peers) ≡ addrs_of id peers ++ brought id p
unfolding add_peer
add_peer_addrs id p peers = elim (Bool-cases (usable p)) [
  | inr useless ↦ rw (useless, add_peer) (sym (append-nil (addrs_of id peers)))
  | inl useful ↦ ground (
    arith,
    useful,
    lookup-insert p.id id (joined (lookup p.id peers) p) peers,
    joined_addrs (lookup p.id peers) p,
    append-nil (addrs_of id peers),
  )
]

add_peers_addrs :
    (id : Bytes) (ps : List AddrInfo) (peers : Map AddrInfo)
    → addrs_of id (add_peers ps peers) ≡ addrs_of id peers ++ collected id ps
unfolding add_peers
add_peers_addrs id [] peers = sym (append-nil (addrs_of id peers))
add_peers_addrs id (p ∷ ps) peers =
    add_peers_addrs id ps (add_peer p peers)
    ∙ ap (λ t. t ++ collected id ps) (add_peer_addrs id p peers)
    ∙ append_assoc (addrs_of id peers) (brought id p) (collected id ps)

add_peer-Distinct :
    (p : AddrInfo) (peers : Map AddrInfo) → Distinct peers → Distinct (add_peer p peers)
unfolding add_peer
add_peer-Distinct p peers d = elim (Bool-cases (usable p)) [
  | inr useless ↦ rw (useless, add_peer) d
  | inl useful ↦ rw (useful, add_peer) (insert-Distinct p.id (joined (lookup p.id peers) p) peers d)
]

add_peers-Distinct :
    (ps : List AddrInfo) (peers : Map AddrInfo) → Distinct peers → Distinct (add_peers ps peers)
unfolding add_peers
add_peers-Distinct [] peers d = d
add_peers-Distinct (p ∷ ps) peers d =
    add_peers-Distinct ps (add_peer p peers) (add_peer-Distinct p peers d)

-- Whatever order the sources arrive in, the merged map has each id once, and under it the addresses
-- of all peers of that id that have an id and an address, in the order of their arrival: none is
-- lost, and none is added.
pub merge_batches_lem :
    (id : Bytes) (batches : List (List AddrInfo)) (peers : Map AddrInfo)
    → Distinct peers
    → (addrs_of id (merge_batches batches peers) ≡ addrs_of id peers ++ collected_all id batches)
      × Distinct (merge_batches batches peers)
unfolding merge_batches
merge_batches_lem id [] peers d = (sym (append-nil (addrs_of id peers)), d)
merge_batches_lem id (batch ∷ batches) peers d =
    let (e, d') =
      merge_batches_lem id batches (add_peers batch peers) (add_peers-Distinct batch peers d) in
    (
      e
          ∙ ap (λ t. t ++ collected_all id batches) (add_peers_addrs id batch peers)
          ∙ append_assoc (addrs_of id peers) (collected id batch) (collected_all id batches),
      d',
    )
