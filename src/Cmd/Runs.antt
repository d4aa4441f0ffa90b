-- ===== src/Cmd/Runs.antt =====
-- cmd/tokengo/main.go at concrete command lines.
use token_go.Base.{Bytes, text, List, [], ◌∷◌, some, lookup, insert, bytes_discrete, ◌≡◌, refl}
use token_go.Cmd.{parse_headers}
use token_go.Cmd.Headers.{parse_headers_lem, last_value}

abbrev plain_trim : Bytes → Bytes
plain_trim s = s

abbrev given_twice : List Bytes
given_twice = text "a:1" ∷ text ":x" ∷ text "b:2" ∷ text "a:3" ∷ []

parse_headers_run : lookup (text "a") (parse_headers plain_trim given_twice) ≡ some (text "3")
unfolding parse_headers lookup insert bytes_discrete
parse_headers_run = refl

parse_headers_lem_example :
    lookup (text "a") (parse_headers plain_trim given_twice)
    ≡ last_value plain_trim (text "a") given_twice
parse_headers_lem_example = parse_headers_lem plain_trim (text "a") given_twice
