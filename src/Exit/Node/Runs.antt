-- ===== src/Exit/Node/Runs.antt =====
-- The keys of an Exit at concrete inputs.
use token_go.Base.{text, [], ◌∷◌, some, true, ok, ◌≡◌, refl, arith, insert, lookup, bytes_discrete}
use token_go.Files.{exists, read_file}
use token_go.Identity.Samples.{plain_base64, plain_base64-Laws, all_access}
use token_go.Crypto.Samples.{plain_hpke, plain_gcm, plain_http}
use token_go.Crypto.Keys.Stored.{generate_key_pair, save_key_pair, load_public_key_config}
use token_go.Exit.Samples.{echo_http}
use token_go.Exit.Node.{new_exit_node, exit_node, ensure_ohttp_key}
use token_go.Exit.Node.Samples.{plain_scheme, key_pair, config, no_files, public_text, key_files}
use token_go.Exit.Node.Keys.{ensure_ohttp_key_lem}

ensured :
    ensure_ohttp_key plain_hpke plain_base64 all_access plain_scheme true 6
      (some 9)
      (text "o.key")
      no_files
    ≡ (key_files, ok public_text)
unfolding ensure_ohttp_key generate_key_pair save_key_pair insert lookup bytes_discrete read_file
ensured = refl

generated : generate_key_pair plain_scheme 6 (some 9) ≡ ok key_pair
unfolding generate_key_pair
generated = refl

ensure_ohttp_key_lem_example :
    (load_public_key_config plain_base64 public_text ≡ ok (9, 6 ∷ 1 ∷ []))
    × (new_exit_node plain_hpke plain_gcm plain_http echo_http plain_base64
          (λ b. b)
          (λ b. b)
          all_access
          config
          (text "127.0.0.1:4433")
          key_files
        ≡ ok (
            exit_node plain_hpke plain_gcm plain_http echo_http plain_base64
              (λ b. b)
              (λ b. b)
              all_access
              config
              (text "127.0.0.1:4433")
              (6 ∷ 2 ∷ [])
              9
              (6 ∷ 1 ∷ [])))
ensure_ohttp_key_lem_example =
    ensure_ohttp_key_lem plain_hpke plain_base64 plain_base64-Laws all_access plain_scheme plain_gcm
      plain_http echo_http (λ b. b) (λ b. b) true 6 (some 9) config (text "127.0.0.1:4433") no_files
      key_files public_text key_pair refl refl refl (unfold exists lookup in refl) generated
      (omega arith) ensured
