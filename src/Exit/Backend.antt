-- ===== src/Exit/Backend.antt =====
-- internal/exit/ai_client.go: the request that an Exit makes to its AI backend.
-- net/http is a parameter: its canonical form of header names, `http.NewRequest` and the two clients.
pub mod Headers
use token_go.Base.{
  ℕ, Bytes, text, List, [], ◌∷◌, ◌++◌, Option, none, some, Bool, true, false, Map, insert, lookup,
  lookup_or, Result, ok, err, ◌>>=◌, ite, bytes_discrete, if◌then◌else◌,
}
use token_go.Net.{is_empty}

abbrev pub Header : Type 0
Header = Map (List Bytes)

-- `req.Body`: nil, or what `io.ReadAll` makes of it, where `none` is an error.
pub data Body : Type 0 where
  no_body : Body
  has_body : Option Bytes → Body

pub record Incoming : Type 0 where
  pub method : Bytes
  pub path : Bytes
  pub raw_query : Bytes
  pub header : Header
  pub body : Body

pub record Outgoing : Type 0 where
  pub method : Bytes
  pub url : Bytes
  pub header : Header
  pub body : Bytes

pub data BackendError : Type 0 where
  read_body_failed new_request_failed send_failed : BackendError

pub record AiClient : Type 0 where
  pub base_url : Bytes
  pub api_key : Bytes
  pub headers : Map Bytes

-- The keys of `hopByHopHeaders`.
abbrev pub hop_by_hop_headers : List Bytes
hop_by_hop_headers =
    text "Connection"
    ∷ text "Keep-Alive"
    ∷ text "Proxy-Authenticate"
    ∷ text "Proxy-Authorization"
    ∷ text "Te"
    ∷ text "Trailers"
    ∷ text "Transfer-Encoding"
    ∷ text "Upgrade"
    ∷ []

unfoldable pub one_of : Bytes → List Bytes → Bool
unfolding bytes_discrete
one_of key [] = false
one_of key (k ∷ ks) = let rest = one_of key ks in ite (bytes_discrete k key) true rest

unfoldable pub is_hop_by_hop_header : Bytes → Bool
unfolding one_of
is_hop_by_hop_header header = one_of header hop_by_hop_headers

unfoldable pub target_url : AiClient → Incoming → Bytes
target_url c req =
    if is_empty req.raw_query
    then c.base_url ++ req.path
    else (c.base_url ++ req.path) ++ (b'?' ∷ req.raw_query)

unfoldable pub read_body : Body → Result BackendError Bytes
read_body no_body = ok []
read_body (has_body none) = err read_body_failed
read_body (has_body (some bytes)) = ok bytes

module _ (canonical : Bytes → Bytes) where
  -- `Header.Add`
  unfoldable pub header_add : Bytes → Bytes → Header → Header
  header_add key value header =
      insert (canonical key) (lookup_or [] (canonical key) header ++ value ∷ []) header

  -- `Header.Set`
  unfoldable pub header_set : Bytes → Bytes → Header → Header
  header_set key value header = insert (canonical key) (value ∷ []) header

  unfoldable pub add_all : Bytes → List Bytes → Header → Header
  unfolding header_add
  add_all key [] header = header
  add_all key (value ∷ values) header = add_all key values (header_add key value header)

  -- The loop over the incoming headers.
  unfoldable pub copy_headers : Header → Header → Header
  unfolding is_hop_by_hop_header add_all
  copy_headers [] header = header
  copy_headers ((key, values) ∷ incoming) header =
      copy_headers incoming (if is_hop_by_hop_header key then header else add_all key values header)

  unfoldable pub set_all : Map Bytes → Header → Header
  unfolding header_set
  set_all [] header = header
  set_all ((key, value) ∷ configured) header = set_all configured (header_set key value header)

  -- The configured headers; without any, the API key.
  unfoldable pub inject_headers : Map Bytes → Bytes → Header → Header
  unfolding set_all header_set
  inject_headers [] api_key header =
      if is_empty api_key
      then header
      else header_set (text "Authorization") (text "Bearer " ++ api_key) header
  inject_headers (h ∷ hs) api_key header = set_all (h ∷ hs) header

  unfoldable pub inject_auth : AiClient → Header → Header
  unfolding inject_headers
  inject_auth c header = inject_headers c.headers c.api_key header

  unfoldable pub outgoing : AiClient → Incoming → Bytes → Outgoing
  unfolding target_url copy_headers inject_auth
  outgoing c req body = record {
    method = req.method;
    url = target_url c req;
    header = inject_auth c (copy_headers req.header []);
    body = body;
  }

  -- `valid` is whether `http.NewRequest` accepts the method and the URL; `send` is `httpClient.Do`.
  unfoldable pub build_request {ℓ} :
      {R : Type ℓ}
      → (Bytes → Bytes → Bool)
      → (Outgoing → Option R)
      → AiClient
      → Incoming
      → Result BackendError R
  unfolding read_body outgoing
  build_request valid send c req = read_body req.body >>= λ body.
      if valid req.method (target_url c req)
      then elim (send (outgoing c req body)) [ none ↦ err send_failed | some resp ↦ ok resp ]
      else err new_request_failed
