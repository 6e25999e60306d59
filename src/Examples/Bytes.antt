-- ===== src/Examples/Bytes.antt =====
-- Magic bytes and kinds at concrete values.
use xdas.Prelude.{◌%◌, ◌≤◌, ◌<◌, String, none, returns, panics, ◌≡◌, refl, ◌⊎◌, arith}
use xdas.MagicByte.{new, new_from, new_magic_byte, get, get_content_encoding, get_content_type}
use xdas.MagicByte.RoundTrip.{new_from-get, get-new_from}
use xdas.MagicByte.Texts.{new-texts}
use xdas.Keyspaces.{marshal_text, unmarshal_text, ks_dm, ks_string}
use xdas.Keyspaces.Laws.{unmarshal_text-marshal_text}

-- The byte of a compressed and encrypted JSON value.
stored_byte : get (new "zstd" "json" 1) ≡ 37
unfolding get new
stored_byte = refl

new_from-get_example : new_from (get (new_magic_byte 1 2 1)) ≡ new_magic_byte 1 2 1
new_from-get_example =
    new_from-get (new_magic_byte 1 2 1)
      (record { cev_fits = omega arith; ctv_fits = omega arith; encryption_fits = omega arith })

get-new_from_example : get (new_from 165) ≡ 165 % 128
get-new_from_example = get-new_from 165 (omega arith)

new-texts_example :
    new
      (get_content_encoding (new "zstd" "protobuf" 1))
      (get_content_type (new "zstd" "protobuf" 1))
      1
    ≡ new "zstd" "protobuf" 1
new-texts_example = new-texts "zstd" "protobuf" 1

unmarshal_text-marshal_text_example :
    ((ks_dm ≤ 3)
      × ((s : String) × (marshal_text ks_dm ≡ returns s)
          × (unmarshal_text ks_string s ≡ (ks_dm, none))))
    ⊎ ((3 < ks_dm) × (marshal_text ks_dm ≡ panics))
unmarshal_text-marshal_text_example = unmarshal_text-marshal_text ks_dm ks_string
