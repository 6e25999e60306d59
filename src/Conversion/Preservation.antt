-- ===== src/Conversion/Preservation.antt =====
-- internal/conversion/conversion.go: `Convert` succeeds on what it supports, and keeps the content.
use xdas.Prelude.{
  ℕ, String, none, some, Bytes, Bool, true, false, Result, ok, err, Run, returns, and_then, ◌≡◌,
  refl, ◌≢◌, lookup, string_eq, [],
}
use xdas.Prelude.Fallible.{>>=-eq-ok}
use xdas.Errors.{Error, unknown_keyspace}
use xdas.MagicByte.{MagicByte}
use xdas.Conversion.Externals.{Libraries}
use xdas.Conversion.Metrics.{Counter, content_encoding, content_type, encryption, MetricsProvider}
use xdas.Conversion.Codec.{decrypt, marshal, unmarshal, un_pack_by_pb, unpack, pack}
use xdas.Conversion.Convert.{
  Converted, target, finish, convert_type, convert_encoding, convert_encryption, convert_to,
  convert,
}
use xdas.Conversion.Branches.{
  difference, types, encodings, encryptions, nothing, target-IsSettled, convert_to_type,
  convert_to_encoding, convert_to_encryption, convert_to_same,
}
use xdas.Conversion.Layers.{payload, Works, IsSupported, decrypt-encrypt_layer, pack-payload}
use xdas.Conversion.Counting.{IsCounted, inc_cases}

-- A conversion that returns the form `o` with content of which `P` holds.
abbrev pub Succeeds : Run (MetricsProvider × Converted) → MagicByte → (Bytes → Type 0) → Type 0
Succeeds run o P =
    (m' : MetricsProvider) × (result : Bytes) × (run
      ≡ returns (m', record { magic_byte = o; content = result; error = none }))
    × P result

module _ (keyspace : String) (i o : MagicByte) (in_data : Bytes) (m : MetricsProvider)
    (counted : IsCounted keyspace m) where
  finish_ok :
      (P : Bytes → Type 0) (counter : Bool → Counter) (chain : Run (Result Error Bytes))
      (result : Bytes)
      → chain ≡ returns (ok result)
      → P result
      → Succeeds (and_then chain (finish counter keyspace i o in_data m)) o P
  unfolding finish
  finish_ok P counter chain result e h =
      let (m', bumped, _, _) = (inc_cases (counter true) keyspace m).0 counted in
      (m', result, rw e (rw bumped refl), h)

  finish_err :
      (counter : Bool → Counter) (chain : Run (Result Error Bytes)) (bad : Error)
      → chain ≡ returns (err bad)
      → (m' : MetricsProvider) × (and_then chain (finish counter keyspace i o in_data m)
          ≡ returns (m', record { magic_byte = i; content = in_data; error = some bad }))
  unfolding finish
  finish_err counter chain bad e =
      let (m', bumped, _, _) = (inc_cases (counter false) keyspace m).0 counted in
      (m', rw e (rw bumped refl))

module _ {Message : Type 0} (lib : Libraries Message) (random : ℕ → Result Error Bytes)
    (works : Works lib random) (keyspace : String) (i o : MagicByte) (in_data : Bytes)
    (m : MetricsProvider) (counted : IsCounted keyspace m) (supported : IsSupported o) where
  -- The two chains that keep the content type keep the payload.
  encoding-payload :
      (p : Bytes)
      → payload lib i in_data ≡ returns (ok p)
      → (c : Bytes) × (convert_encoding lib random i o in_data ≡ returns (ok c))
        × (payload lib o c ≡ returns (ok p))
  unfolding convert_encoding
  encoding-payload p e =
      let (opened, opens, plain) = >>=-eq-ok (decrypt lib i.encryption in_data) _ e in
      let (c, packs, reads) = pack-payload lib random works o p supported in
      (c, rw (opens, convert_encoding) (rw plain packs), reads)

  encryption-payload :
      (p : Bytes)
      → i.cev ≡ o.cev
      → payload lib i in_data ≡ returns (ok p)
      → (c : Bytes) × (convert_encryption lib random i o in_data ≡ returns (ok c))
        × (payload lib o c ≡ returns (ok p))
  unfolding convert_encryption
  encryption-payload p same e =
      let (opened, opens, plain) = >>=-eq-ok (decrypt lib i.encryption in_data) _ e in
      let (c, seals, unseals) =
        decrypt-encrypt_layer lib random works o.encryption opened supported.encryption_supported in
      (c, rw (opens, convert_encryption) seals, rw unseals (rw (← same) plain))

  convert_to-payload :
      (p : Bytes)
      → i.ctv ≡ o.ctv
      → payload lib i in_data ≡ returns (ok p)
      → Succeeds
          (convert_to lib random keyspace i o in_data m)
          o
          (λ c. payload lib o c ≡ returns (ok p))
  convert_to-payload p t e = elim (difference i o) [
    | types d ↦ absurd (d t)
    | encodings _ d ↦
        let (c, converts, reads) = encoding-payload p e in
        rw (convert_to_encoding lib random keyspace i o in_data m t d) (
          finish_ok keyspace i o in_data m counted (λ c. payload lib o c ≡ returns (ok p))
            content_encoding _ c converts reads)
    | encryptions _ d n ↦
        let (c, converts, reads) = encryption-payload p d e in
        rw (convert_to_encryption lib random keyspace i o in_data m t d n) (
          finish_ok keyspace i o in_data m counted (λ c. payload lib o c ≡ returns (ok p))
            encryption _ c converts reads)
    | nothing same ↦
        rw (convert_to_same lib random keyspace i o in_data m same)
          (m, in_data, rw same refl, rw (← same) e)
  ]

-- With working libraries, a conversion between forms of one content type, into a supported form, in
-- a keyspace that can be counted, of data that opens to a payload, succeeds with the requested form,
-- and the result opens to the same payload, under encryption and compression.
pub convert-payload :
    {Message : Type 0} (lib : Libraries Message) (random : ℕ → Result Error Bytes)
    (keyspace : String) (i o : MagicByte) (in_data : Bytes) (m : MetricsProvider) (p : Bytes)
    → Works lib random
    → IsCounted keyspace m
    → IsSupported (target i o)
    → i.ctv ≡ (target i o).ctv
    → payload lib i in_data ≡ returns (ok p)
    → Succeeds
        (convert lib random keyspace i o in_data m)
        (target i o)
        (λ c. payload lib (target i o) c ≡ returns (ok p))
unfolding convert
convert-payload lib random keyspace i o in_data m p works counted supported t e =
    convert_to-payload lib random works keyspace i (target i o) in_data m counted supported p t e

module _ {Message : Type 0} (lib : Libraries Message) (random : ℕ → Result Error Bytes)
    (keyspace : String) where
  -- Packed and unpacked again, a message that the content type can carry is the same message.
  pack-unpack :
      (o : MagicByte) (pb fresh : Message) (plain : Bytes)
      → Works lib random
      → IsSupported o
      → lookup keyspace lib.pb_message ≡ some fresh
      → marshal lib o.ctv pb ≡ ok plain
      → unmarshal lib o.ctv fresh plain ≡ ok pb
      → (c : Bytes) × (pack lib random o pb ≡ returns (ok c))
        × (unpack lib keyspace o c ≡ returns (ok pb))
  unfolding pack unpack
  pack-unpack o pb fresh plain works supported registered writes reads =
      let (c, packs, opens) = pack-payload lib random works o plain supported in
      let (opened, dec, plains) = >>=-eq-ok (decrypt lib o.encryption c) _ opens in
      (
        c,
        rw (writes, pack) packs,
        rw (registered, unpack) (rw (dec, un_pack_by_pb) (rw plains (rw reads refl))),
      )

  unpack_unregistered :
      (i : MagicByte) (in_data : Bytes)
      → lib.pb_message ≡ []
      → unpack lib keyspace i in_data ≡ returns (err unknown_keyspace)
  unfolding unpack lookup
  unpack_unregistered i in_data empty = rw (empty, unpack) refl

module _ {Message : Type 0} (lib : Libraries Message) (random : ℕ → Result Error Bytes)
    (keyspace : String) (i o : MagicByte) (in_data : Bytes) (m : MetricsProvider) where
  -- With working libraries, a conversion between content types, into a supported form, in a
  -- registered keyspace that can be counted, of a value that unpacks to a message which the new
  -- content type can carry, succeeds with the requested form, and the result unpacks to the same
  -- message.
  pub convert-message :
      (pb fresh : Message) (plain : Bytes)
      → Works lib random
      → IsCounted keyspace m
      → IsSupported (target i o)
      → i.ctv ≢ (target i o).ctv
      → lookup keyspace lib.pb_message ≡ some fresh
      → unpack lib keyspace i in_data ≡ returns (ok pb)
      → marshal lib (target i o).ctv pb ≡ ok plain
      → unmarshal lib (target i o).ctv fresh plain ≡ ok pb
      → Succeeds
          (convert lib random keyspace i o in_data m)
          (target i o)
          (λ c. unpack lib keyspace (target i o) c ≡ returns (ok pb))
  unfolding convert convert_type
  convert-message pb fresh plain works counted supported t registered unpacks writes reads =
      let o' = target i o in
      let (c, packs, back) =
        pack-unpack lib random keyspace o' pb fresh plain works supported registered writes reads in
      rw (convert_to_type lib random keyspace i o' in_data m (target-IsSettled i o) t) (
        finish_ok keyspace i o' in_data m counted (λ c. unpack lib keyspace o' c ≡ returns (ok pb))
          content_type (convert_type lib random keyspace i o' in_data) c
          (rw (unpacks, convert_type) packs) back)

  -- With no message type registered, as in the source, no conversion between content types succeeds
  -- in a keyspace that can be counted: each fails with the unknown keyspace error and gives the
  -- input back.
  pub convert_without_messages :
      lib.pb_message ≡ []
      → IsCounted keyspace m
      → i.ctv ≢ (target i o).ctv
      → (m' : MetricsProvider) × (convert lib random keyspace i o in_data m
          ≡ returns
              (m', record { magic_byte = i; content = in_data; error = some unknown_keyspace }))
  unfolding convert convert_type
  convert_without_messages empty counted t =
      rw (convert_to_type lib random keyspace i (target i o) in_data m (target-IsSettled i o) t) (
        finish_err keyspace i (target i o) in_data m counted content_type
          (convert_type lib random keyspace i (target i o) in_data) unknown_keyspace
          (rw (unpack_unregistered lib random keyspace i in_data empty, convert_type) refl))
