-- ===== src/Exit/Node/Samples.antt =====
-- An Exit's key files, for theorems at concrete inputs.
use token_go.Base.{Bytes, text, [], ◌∷◌, some}
use token_go.Files.{Files}
use token_go.Config.{ExitConfig}
use token_go.Crypto.Keys.Stored.{KeyPair, Scheme}

abbrev pub plain_scheme : Scheme Bytes Bytes
plain_scheme = record {
  generate_keys = λ draw. some (draw ∷ 1 ∷ [], draw ∷ 2 ∷ []);
  marshal_public = some;
  marshal_private = some;
}

abbrev pub key_pair : KeyPair
key_pair = record { public_key = 6 ∷ 1 ∷ []; private_key = 6 ∷ 2 ∷ []; key_id = 9 }

abbrev pub config : ExitConfig
config = record {
  ohttp_private_key_file = text "o.key";
  ohttp_public_key_file = [];
  ai_backend = record { url = text "http://localhost:11434"; api_key = []; headers = [] };
  dht = record {
    bootstrap_peers = [];
    listen_addrs = [];
    external_addrs = [];
    private_key_file = [];
    mode = [];
  };
}

abbrev pub no_files : Files
no_files = []

abbrev pub public_text : Bytes
public_text = 9 ∷ 0 ∷ 32 ∷ 0 ∷ 2 ∷ 6 ∷ 1 ∷ 0 ∷ 4 ∷ 0 ∷ 1 ∷ 0 ∷ 1 ∷ []

abbrev pub key_files : Files
key_files = (text "o.key.pub", public_text) ∷ (text "o.key", 6 ∷ 2 ∷ []) ∷ []
