-- ===== src/Identity/Samples.antt =====
-- Keys that are their own text form, for theorems at concrete inputs: nothing is hidden by them.
use token_go.Base.{Bytes, [], ◌∷◌, some, true, refl, arith}
use token_go.Files.{Access, Base64, Base64Laws}
use token_go.Identity.{KeyLibrary, Laws}

abbrev pub plain_keys : KeyLibrary Bytes Bytes
plain_keys = record {
  generate_key = λ draw. some (draw ∷ [], draw ∷ []);
  get_public = λ k. k;
  id_from_public_key = λ p. some (9 ∷ p);
  marshal = some;
  unmarshal = some;
}

pub plain_keys-Laws : Laws plain_keys
plain_keys-Laws = record {
  generate_key_public = λ draw k p h. ground arith;
  unmarshal-marshal = λ k b h. ground arith;
}

abbrev pub plain_base64 : Base64
plain_base64 = record { encode_to_string = λ b. b; decode_string = some }

pub plain_base64-Laws : Base64Laws plain_base64
plain_base64-Laws = record { decode_string-encode_to_string = λ b. refl }

abbrev pub all_access : Access
all_access = record { can_read = λ path. true; can_write = λ path. true }
