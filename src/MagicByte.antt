-- ===== src/MagicByte.antt =====
-- internal/magicbyte/magicbyte.go: the byte in front of each stored value, which holds the content
-- encoding, the content type and the encryption. An `int` is a 64-bit pattern.
pub mod RoundTrip
pub mod Texts
use Prim.Native.Nat.{bit_and, bit_or}
use xdas.Prelude.{
  ℕ, ◌+◌, ◌/◌, ◌^◌, String, List, [], ◌∷◌, ◌==◌, nat_eq, string_eq, if◌then◌else◌, lookup_or, shl,
  to_byte,
}

-- The layout of the byte: 2 bits of encoding, 3 of type, 2 of encryption, one reserved.
abbrev pub magic_byte_length : ℕ
magic_byte_length = 1

abbrev pub content_encoding_bits : ℕ
content_encoding_bits = 2

abbrev pub content_encoding_max : ℕ
content_encoding_max = 3

abbrev pub content_type_bits : ℕ
content_type_bits = 3

abbrev pub content_type_max : ℕ
content_type_max = 7

abbrev pub content_type_shift : ℕ
content_type_shift = content_encoding_bits

abbrev pub encryption_max : ℕ
encryption_max = 3

abbrev pub encryption_shift : ℕ
encryption_shift = content_encoding_bits + content_type_bits

abbrev pub content_encoding_none : ℕ
content_encoding_none = 0

abbrev pub content_encoding_zstd : ℕ
content_encoding_zstd = 1

abbrev pub content_encoding_zlib : ℕ
content_encoding_zlib = 2

abbrev pub content_type_unknown : ℕ
content_type_unknown = 0

abbrev pub content_type_json : ℕ
content_type_json = 1

abbrev pub content_type_proto_buf : ℕ
content_type_proto_buf = 2

abbrev pub content_encoding_text : List (ℕ × String)
content_encoding_text = (content_encoding_zstd, "zstd") ∷ (content_encoding_zlib, "zlib") ∷ []

abbrev pub content_encoding_code : List (String × ℕ)
content_encoding_code =
    ("", content_encoding_none)
    ∷ ("zstd", content_encoding_zstd)
    ∷ ("zlib", content_encoding_zlib)
    ∷ []

abbrev pub content_type_text : List (ℕ × String)
content_type_text =
    (content_type_unknown, "application/octet-stream")
    ∷ (content_type_json, "application/json")
    ∷ (content_type_proto_buf, "application/x-protobuf")
    ∷ []

abbrev pub content_type_code : List (String × ℕ)
content_type_code =
    ("", content_type_unknown)
    ∷ ("application/json", content_type_json)
    ∷ ("json", content_type_json)
    ∷ ("application/x-protobuf", content_type_proto_buf)
    ∷ ("application/vnd.google.protobuf", content_type_proto_buf)
    ∷ ("protobuf", content_type_proto_buf)
    ∷ ("application/octet-stream", content_type_unknown)
    ∷ []

pub record MagicByte : Type 0 where
  pub cev : ℕ
  pub ctv : ℕ
  pub encryption : ℕ

abbrev pub new_magic_byte : ℕ → ℕ → ℕ → MagicByte
new_magic_byte cev ctv encryption = record { cev = cev; ctv = ctv; encryption = encryption }

-- `New`: an unknown text has the code 0.
unfoldable pub new : String → String → ℕ → MagicByte
unfolding lookup_or
new content_encoding content_type encryption =
    new_magic_byte (lookup_or content_encoding 0 content_encoding_code)
      (lookup_or content_type 0 content_type_code) encryption

-- `NewFrom`
unfoldable pub new_from : ℕ → MagicByte
new_from magic_byte = record {
  cev = bit_and magic_byte content_encoding_max;
  ctv = bit_and (magic_byte / 2 ^ content_type_shift) content_type_max;
  encryption = bit_and (magic_byte / 2 ^ encryption_shift) encryption_max;
}

-- `Get`
unfoldable pub get : MagicByte → ℕ
get m =
    to_byte
      (bit_or (bit_or (shl m.encryption encryption_shift) (shl m.ctv content_type_shift)) m.cev)

unfoldable pub get_content_encoding : MagicByte → String
unfolding lookup_or
get_content_encoding m = lookup_or m.cev "" content_encoding_text

unfoldable pub get_content_type : MagicByte → String
unfolding lookup_or
get_content_type m = lookup_or m.ctv "" content_type_text

-- `AddEncrypt`
abbrev pub add_encrypt : MagicByte → ℕ → MagicByte
add_encrypt m encryption = record m { encryption = encryption }

-- `SetContentHeaders`, over any header type with its `Set`.
unfoldable pub set_content_headers {ℓ} :
    {H : Type ℓ} → (String → String → H → H) → MagicByte → H → H
unfolding get_content_encoding get_content_type
set_content_headers set m h =
    let typed = set "Content-type" (get_content_type m) h in
    if get_content_encoding m == ""
    then typed
    else set "Content-encoding" (get_content_encoding m) typed
