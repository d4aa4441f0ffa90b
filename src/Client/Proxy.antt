-- ===== src/Client/Proxy.antt =====
-- internal/client/proxy.go: the local HTTP proxy in front of the Client.
use token_go.Base.{
  ℕ, zero, suc, ◌+◌, Bytes, text, List, [], ◌∷◌, Option, none, some, Bool, true, false, Result, ok,
  err, ◌||◌, ite, ℕ_discrete, if◌then◌else◌,
}
use token_go.Net.{is_empty}
use token_go.Protocol.Input.{Reader}
use token_go.Protocol.{ExitKeyEntry}
use token_go.Crypto.Interface.{Gcm}
use token_go.Crypto.Keys.{KeyConfigError, decode_key_config}
use token_go.Client.Requests.{ClientError, read_chunk}

pub data DiscoverError : Type 0 where
  query_failed : ClientError → DiscoverError
  no_exit : DiscoverError
  bad_key_config : KeyConfigError → DiscoverError

-- The key id and the key of the first Exit that the Relay lists.
unfoldable pub discover_exit :
    Result ClientError (List ExitKeyEntry) → Result DiscoverError (ℕ × Bytes)
discover_exit (err e) = err (query_failed e)
discover_exit (ok []) = err no_exit
discover_exit (ok (entry ∷ entries)) = elim (decode_key_config entry.key_config) [
  | err e ↦ err (bad_key_config e)
  | ok key ↦ ok key
]

unfoldable pub starts_with : Bytes → Bytes → Bool
unfolding ℕ_discrete
starts_with [] s = true
starts_with (c ∷ cs) [] = false
starts_with (c ∷ cs) (d ∷ ds) = let rest = starts_with cs ds in ite (ℕ_discrete c d) rest false

-- `strings.Contains(s, sub)`
unfoldable pub contains : Bytes → Bytes → Bool
unfolding starts_with
contains [] sub = starts_with sub []
contains (c ∷ cs) sub = starts_with sub (c ∷ cs) || contains cs sub

-- `stream_field` is the field "stream" that `json.Unmarshal` finds, if it is there and a Boolean.
unfoldable pub detect_streaming : (Bytes → Option Bool) → Bytes → Bytes → Bytes → Bool
unfolding contains
detect_streaming stream_field body path accept =
    (if is_empty body then false else elim (stream_field body) [ none ↦ false | some b ↦ b ])
    || (contains path (text "stream") || contains accept (text "text/event-stream"))

module _ (g : Gcm) (decryptor : g.Aead) where
  -- The loop of `handleStreamingRequest`: what it writes to the user, of at most `fuel` chunks;
  -- `accepts` says whether the i-th write succeeds. The loop ends at any error.
  unfoldable pub forward_chunks : ℕ → (ℕ → Bool) → ℕ → Reader → List Bytes
  unfolding read_chunk
  forward_chunks zero accepts i stream = []
  forward_chunks (suc fuel) accepts i stream = elim (read_chunk g decryptor stream) [
    | err e ↦ []
    | ok (chunk, rest) ↦ elim (accepts i) [
      | false ↦ chunk ∷ []
      | true ↦ chunk ∷ forward_chunks fuel accepts (i + 1) rest
    ]
  ]
