-- ===== src/Identity/Runs.antt =====
-- internal/identity/identity.go at concrete inputs.
use token_go.Base.{Bytes, text, [], ◌∷◌, ok, ◌≡◌, refl, insert, lookup}
use token_go.Files.{Files}
use token_go.Identity.{Identity, load_or_generate}
use token_go.Identity.Restart.{load_or_generate_again}
use token_go.Identity.Samples.{
  plain_keys, plain_keys-Laws, plain_base64, plain_base64-Laws, all_access,
}

abbrev no_files : Files
no_files = []

abbrev fifth : Identity Bytes Bytes
fifth = record { priv_key = 5 ∷ []; pub_key = 5 ∷ []; peer_id = 9 ∷ 5 ∷ [] }

abbrev kept : Files
kept = (text "id.key", 5 ∷ []) ∷ []

first_start :
    load_or_generate plain_keys plain_base64 all_access 5 (text "id.key") no_files
    ≡ (kept, ok fifth)
unfolding load_or_generate insert lookup
first_start = refl

load_or_generate_again_example :
    load_or_generate plain_keys plain_base64 all_access 6 (text "id.key") kept ≡ (kept, ok fifth)
load_or_generate_again_example =
    load_or_generate_again plain_keys plain_keys-Laws plain_base64 plain_base64-Laws all_access 5 6
      (text "id.key") no_files kept fifth refl refl first_start
