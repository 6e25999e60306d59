-- ===== src/Server/Multi.antt =====
-- cmd/xdas/handler.go: the GET handler over several keyspaces.
use xdas.Prelude.{
  ℕ, ◌+◌, String, List, [], ◌∷◌, Option, none, some, lookup, ◌==◌, nat_eq, string_eq, if◌then◌else◌,
  ◌<>◌, split, ok, err, Run, returns, panics, and_then,
}
use xdas.MagicByte.{new_from, set_content_headers}
use xdas.Conversion.{MetricsProvider, Converted, convert}
use xdas.Server.Http.{
  Request, Response, Header, part, closing, write, set_header, set_response_header, query_get,
}
use xdas.Server.Store.{Entry, nil, other, string, redis_key, redis_key_ct}
use xdas.Server.Util.{parse_bool}
use xdas.Server.Config.{Configuration, KeyspaceConfig}
use xdas.Server.State.{World, Services, get_id, send_redis_read_err, find_x}
use xdas.Server.Get.{not_found}

-- One entry of the slices `keys`, `keyspaces` and `ksConfs`, which are filled together.
pub record Wanted : Type 0 where
  pub key : String
  pub keyspace : String
  pub ks_conf : KeyspaceConfig

unfoldable pub multi_key : String → String → List (String × String) → String
unfolding redis_key redis_key_ct query_get
multi_key keyspace id query =
    if keyspace == "ct"
    then redis_key_ct keyspace id (query_get "ct_hour" query) (query_get "ct_quarter" query)
    else redis_key keyspace id

-- The first loop: keyspaces that are not configured are skipped.
unfoldable pub wanted :
    List (String × KeyspaceConfig) → String → List (String × String) → List String → List Wanted
unfolding lookup multi_key
wanted keyspaces id query [] = []
wanted keyspaces id query (k ∷ ks) =
    let rest = wanted keyspaces id query ks in
    elim (lookup k keyspaces) [
      | none ↦ rest
      | some c ↦ record { key = multi_key k id query; keyspace = k; ks_conf = c } ∷ rest
    ]

abbrev pub wanted_keys : List Wanted → List String
wanted_keys [] = []
wanted_keys (k ∷ ks) = k.key ∷ wanted_keys ks

-- `reqKeyspaces`
unfoldable pub req_keyspaces : Configuration → List (String × String) → List String
unfolding query_get split
req_keyspaces config query =
    let ks = query_get "ks" query in if ks == "" then config.multipart_keyspaces else split "," ks

-- The header `Namespace` of a part, unless a ct key does not fall into three parts.
abbrev pub ct_namespace : String → List String → Option String
ct_namespace keyspace (a ∷ b ∷ c ∷ []) = some (keyspace <> "_" <> b <> "_" <> c)
ct_namespace keyspace _ = none

unfoldable pub namespace : String → String → Option String
unfolding split
namespace keyspace key =
    if keyspace == "ct" then ct_namespace keyspace (split "_" key) else some keyspace

-- What the second loop carries: the world, the response, and `validResultCount`.
pub record Progress (S : Type 0) : Type 0 where
  pub world : World S
  pub response : Response
  pub valid : ℕ

module _ {S Message : Type 0} (services : Services S Message) where
  open services use {redis, lib, random, boundary, create_part}

  -- The writing of a part, the n-th entry of the results.
  unfoldable pub multi_part : ℕ → Wanted → Converted → Progress S → Progress S
  unfolding namespace set_content_headers set_header
  multi_part n k c p = elim (namespace k.keyspace k.key) [
    | none ↦ p
    | some name ↦ elim (create_part n) [
      | some e ↦ p
      | none ↦
          let h : Header =
            set_header "Namespace" name (set_content_headers set_header c.magic_byte []) in
          record p { response = write (part h c.content) p.response; valid = p.valid + 1 }
    ]
  ]

  unfoldable pub multi_converted :
      ℕ → Wanted → Progress S → MetricsProvider × Converted → Progress S
  unfolding multi_part
  multi_converted n k p (metrics, c) =
      let p' : Progress S = record p { world = record p.world { metrics = metrics } } in
      elim c.error [ some e ↦ p' | none ↦ multi_part n k c p' ]

  -- One round of the second loop.
  unfoldable pub multi_entry :
      ℕ → Wanted → String → List (String × String) → Progress S → Entry → Run (Progress S)
  unfolding parse_bool find_x new_from multi_converted
  multi_entry n k id query p nil =
      if parse_bool "nofindx" query
      then returns p
      else and_then (find_x k.keyspace id p.world) λ s. returns (record p { world = s })
  multi_entry n k id query p other = returns p
  multi_entry n k id query p (string []) = returns p
  multi_entry n k id query p (string (b ∷ rest)) =
      and_then
        (convert lib (random n) k.keyspace (new_from b) k.ks_conf.output.magic_byte rest
          p.world.metrics)
        λ converted. returns (multi_converted n k p converted)

  -- The second loop. A result with no key panics, at the index.
  unfoldable pub multi_entries :
      ℕ → List Wanted → String → List (String × String) → Progress S → List Entry → Run (Progress S)
  unfolding multi_entry
  multi_entries n ks id query p [] = returns p
  multi_entries n [] id query p (e ∷ es) = panics
  multi_entries n (k ∷ ks) id query p (e ∷ es) =
      and_then (multi_entry n k id query p e) λ p'. multi_entries (n + 1) ks id query p' es

  unfoldable pub multi_end : Progress S → World S × Response
  unfolding not_found
  multi_end p =
      if p.valid == 0 then (p.world, not_found p.response) else (p.world, write closing p.response)

  unfoldable pub multi_results :
      List Wanted → String → World S → Request → Response → Run (World S × Response)
  unfolding multi_entries multi_end send_redis_read_err set_response_header
  multi_results ks id s r w = elim (redis.mget s.store (wanted_keys ks)) [
    | err e ↦ returns (send_redis_read_err s w)
    | ok results ↦
        let typed =
          set_response_header "Content-Type" ("multipart/mixed; boundary=" <> boundary) w in
        and_then
          (multi_entries 0 ks id r.query (record { world = s; response = typed; valid = 0 })
            results)
          λ p. returns (multi_end p)
  ]

  -- `handleFuncXdasMultiGet`
  unfoldable pub xdas_multi_get : World S → Request → Response → Run (World S × Response)
  unfolding multi_results wanted req_keyspaces get_id not_found
  xdas_multi_get s r w =
      let id = get_id r in
      elim (wanted s.config.keyspaces id r.query (req_keyspaces s.config r.query)) [
        | [] ↦ returns (s, not_found w)
        | k ∷ ks ↦ multi_results (k ∷ ks) id s r w
      ]
