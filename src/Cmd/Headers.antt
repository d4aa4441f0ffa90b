-- ===== src/Cmd/Headers.antt =====
-- `parseHeaders` of cmd/tokengo/main.go.
use token_go.Base.{
  Bytes, List, [], ◌∷◌, Option, none, some, Map, lookup, insert, lookup-insert, bytes_discrete, ite,
  Option-cases, inl, inr, ◌≡◌, refl, arith, ◌∙◌,
}
use token_go.Cmd.{parse_header, parse_loop, parse_headers}

abbrev or_else : Option Bytes → Option Bytes → Option Bytes
or_else none b = b
or_else (some a) b = some a

-- The value that one header gives a name.
abbrev given : Bytes → Option (Bytes × Bytes) → Option Bytes
given k none = none
given k (some (key, value)) = ite (bytes_discrete key k) (some value) none

-- The value of the last header of a name.
abbrev pub last_value : (Bytes → Bytes) → Bytes → List Bytes → Option Bytes
last_value trim k [] = none
last_value trim k (h ∷ hs) = or_else (last_value trim k hs) (given k (parse_header trim h))

parse_loop_lem :
    (trim : Bytes → Bytes) (k : Bytes) (hs : List Bytes) (m : Map Bytes)
    → lookup k (parse_loop trim hs m) ≡ or_else (last_value trim k hs) (lookup k m)
unfolding parse_loop
parse_loop_lem trim k [] m = refl
parse_loop_lem trim k (h ∷ hs) m = elim (Option-cases (parse_header trim h)) [
  | inl e ↦ rw (e, parse_loop) (parse_loop_lem trim k hs m ∙ ground arith)
  | inr ((key, value), e) ↦
      rw (e, parse_loop)
        (parse_loop_lem trim k hs (insert key value m)
          ∙ ground (arith, lookup-insert key k value m))
]

-- A name's header is the last one given for it on the command line; texts without a name in front of
-- a colon give none.
pub parse_headers_lem :
    (trim : Bytes → Bytes) (k : Bytes) (hs : List Bytes)
    → lookup k (parse_headers trim hs) ≡ last_value trim k hs
unfolding parse_headers lookup
parse_headers_lem trim k hs = parse_loop_lem trim k hs [] ∙ ground arith
