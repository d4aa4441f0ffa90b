-- ===== src/Cmd.antt =====
-- What cmd/tokengo/main.go computes itself: the headers of the command line, and the key files of
-- `keygen`. `ensureOHTTPKey` is in Exit.Node. `strings.TrimSpace` and `filepath.Join` are parameters.
pub mod Headers
pub mod Configs
pub mod Serve
mod Runs
use token_go.Base.{
  ℕ, ◌-◌, zero, suc, Bytes, text, List, [], ◌∷◌, take, drop, Option, none, some, Bool, true, false,
  Map, insert, Result, ok, err, ite, ℕ_discrete, bytes_discrete, ltb, if◌then◌else◌,
}
use token_go.Files.{Access, Files, Base64}
use token_go.Crypto.Interface.{Hpke}
use token_go.Crypto.Keys.Stored.{Scheme, KeyPair, KeyError, generate_key_pair, save_key_pair}
use token_go.Identity.{KeyLibrary, Identity, IdentityError, generate, save}

-- `strings.IndexByte`; `none` is -1.
unfoldable pub index_byte : ℕ → Bytes → Option ℕ
unfolding ℕ_discrete
index_byte b [] = none
index_byte b (c ∷ cs) =
    let rest = index_byte b cs in
    ite (ℕ_discrete c b) (some 0) (elim rest [ none ↦ none | some i ↦ some (suc i) ])

-- The name and the value of one header, if there is a name in front of a colon.
unfoldable pub parse_header : (Bytes → Bytes) → Bytes → Option (Bytes × Bytes)
unfolding index_byte
parse_header trim h = elim (index_byte b':' h) [
  | none ↦ none
  | some idx ↦ if ltb 0 idx then some (trim (take idx h), trim (drop (suc idx) h)) else none
]

unfoldable pub parse_loop : (Bytes → Bytes) → List Bytes → Map Bytes → Map Bytes
unfolding parse_header
parse_loop trim [] result = result
parse_loop trim (h ∷ hs) result = elim (parse_header trim h) [
  | none ↦ parse_loop trim hs result
  | some (key, value) ↦ parse_loop trim hs (insert key value result)
]

unfoldable pub parse_headers : (Bytes → Bytes) → List Bytes → Map Bytes
unfolding parse_loop
parse_headers trim headers = parse_loop trim headers []

pub data KeygenError : Type 0 where
  mkdir_failed : KeygenError
  unknown_type : Bytes → KeygenError
  generate_failed save_failed : KeyError → KeygenError
  identity_failed save_identity_failed : IdentityError → KeygenError

abbrev Done : Type 0
Done = Files × Result KeygenError (Unit {0})

module _ (join : Bytes → Bytes → Bytes) (b64 : Base64) (access : Access) where
  -- Behind the generation of the key, and behind its saving.
  abbrev ohttp_saved : Files × Result KeyError (Unit {0}) → Done
  ohttp_saved (files, err e) = (files, err (KeygenError.save_failed e))
  ohttp_saved (files, ok u) = (files, ok tt)

  abbrev ohttp_generated : Hpke → Bytes → Files → Result KeyError KeyPair → Done
  ohttp_generated h dir files (err e) = (files, err (KeygenError.generate_failed e))
  ohttp_generated h dir files (ok kp) = ohttp_saved (
      save_key_pair h b64 access kp (join dir (text "ohttp_private.key.pub"))
        (join dir (text "ohttp_private.key")) files)

  unfoldable pub generate_ohttp_key :
      {Public Private : Type 0} → Hpke → Scheme Public Private → ℕ → Option ℕ → Bytes → Files → Done
  generate_ohttp_key h scheme draw random dir files =
      ohttp_generated h dir files (generate_key_pair scheme draw random)

  abbrev identity_saved : Files → Result IdentityError Files → Done
  identity_saved files (err e) = (files, err (KeygenError.save_identity_failed e))
  identity_saved files (ok files') = (files', ok tt)

  abbrev identity_generated :
      {PrivKey PubKey : Type 0}
      → KeyLibrary PrivKey PubKey
      → Bytes
      → Files
      → Result IdentityError (Identity PrivKey PubKey)
      → Done
  identity_generated lib dir files (err e) = (files, err (KeygenError.identity_failed e))
  identity_generated lib dir files (ok id) =
      identity_saved files (save lib b64 access id (join dir (text "identity.key")) files)

  unfoldable pub generate_identity_key :
      {PrivKey PubKey : Type 0} → KeyLibrary PrivKey PubKey → ℕ → Bytes → Files → Done
  generate_identity_key lib draw dir files =
      identity_generated lib dir files (generate lib b64 access draw)

  -- The command `keygen`; `made` tells whether `MkdirAll` succeeds.
  unfoldable pub keygen :
      {Public Private PrivKey PubKey : Type 0}
      → Hpke
      → Scheme Public Private
      → KeyLibrary PrivKey PubKey
      → Bool
      → ℕ
      → Option ℕ
      → Bytes
      → Bytes
      → Files
      → Done
  unfolding generate_ohttp_key generate_identity_key bytes_discrete
  keygen h scheme lib made draw random key_type dir files =
      if made
      then (ite (bytes_discrete key_type (text "ohttp"))
          (generate_ohttp_key h scheme draw random dir files)
          (ite (bytes_discrete key_type (text "identity"))
            (generate_identity_key lib draw dir files)
            (files, err (KeygenError.unknown_type key_type))))
      else (files, err KeygenError.mkdir_failed)
