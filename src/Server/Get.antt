-- ===== src/Server/Get.antt =====
-- cmd/xdas/handler.go: the GET handler; cmd/xdas/handler_atomic.go: its branch for atomic keyspaces.
use xdas.Prelude.{
  String, [], ◌∷◌, Bytes, none, some, Bool, true, false, lookup, ◌==◌, nat_eq, string_eq,
  if◌then◌else◌, length, itoa, ok, err, Run, returns, and_then,
}
use xdas.Errors.{Error, redis_nil}
use xdas.Keyspaces.{ks_atomic}
use xdas.MagicByte.{MagicByte, new, set_content_headers}
use xdas.MagicByte
use xdas.Conversion.{MetricsProvider, Converted, convert}
use xdas.Server.Http.{
  Request, Response, bytes, write, write_header, fprintln, http_error, status_text, set_header,
  set_response_header, query_get,
}
use xdas.Server.Store.{redis_key, redis_get}
use xdas.Server.Util.{parse_bool}
use xdas.Server.Config.{KeyspaceConfig}
use xdas.Server.State.{World, Services, get_id, send_redis_read_err, find_x}

-- `err == redis.Nil`
abbrev pub is_redis_nil : Error → Bool
is_redis_nil redis_nil = true
is_redis_nil _ = false

-- `w.WriteHeader(http.StatusNotFound)` with its text
unfoldable pub not_found : Response → Response
unfolding status_text
not_found w = fprintln (status_text 404) (write_header 404 w)

-- The form that a GET asks for: an answer at once, or a form to convert into.
pub data Format : Type 0 where
  raw bad_format : Format
  converted_to : MagicByte → Format

unfoldable pub out_format : KeyspaceConfig → String → Format
unfolding new
out_format ks_conf format =
    if format == ""
    then converted_to ks_conf.output.magic_byte
    else if format == "raw"
    then raw
    else let out = new "" format 0 in if out.ctv == 0 then bad_format else converted_to out

-- The headers and the body of a converted value.
unfoldable pub send_value : MagicByte → Bytes → Response → Response
unfolding set_response_header set_content_headers itoa
send_value magic_byte content w =
    let typed : Response = record w {
      header = set_content_headers set_header magic_byte w.header;
    } in
    write (bytes content) (set_response_header "Content-length" (itoa (length content)) typed)

-- A stored value as it is.
unfoldable pub send_raw : MagicByte → Bytes → Response → Response
unfolding set_response_header
send_raw magic_byte content w = write (bytes content) (
    write (bytes (MagicByte.get magic_byte ∷ []))
      (set_response_header "Content-type" "application/octet-stream" w))

module _ {S Message : Type 0} (services : Services S Message) where
  open services use {redis, lib, random}

  -- `handleFuncXdasAtomicGet`
  unfoldable pub atomic_get : String → World S → Response → World S × Response
  unfolding send_redis_read_err not_found
  atomic_get key s w = elim (redis.get s.store key) [
    | ok result ↦ (s, write (bytes result) w)
    | err e ↦ if is_redis_nil e then (s, not_found w) else send_redis_read_err s w
  ]

  -- The branch of a missing value: FindX is asked unless the query forbids it.
  unfoldable pub get_missing :
      String → String → World S → Request → Response → Run (World S × Response)
  unfolding find_x not_found parse_bool
  get_missing keyspace id s r w =
      if parse_bool "nofindx" r.query
      then returns (s, not_found w)
      else and_then (find_x keyspace id s) λ s'. returns (s', not_found w)

  -- The answer after the conversion.
  unfoldable pub get_converted :
      World S → Response → MetricsProvider × Converted → Run (World S × Response)
  unfolding send_value http_error status_text
  get_converted s w (metrics, c) = elim c.error [
    | some e ↦ returns (record s { metrics = metrics }, http_error (status_text 500) 500 w)
    | none ↦ returns (record s { metrics = metrics }, send_value c.magic_byte c.content w)
  ]

  -- The branch of a value that was read.
  unfoldable pub get_found :
      String
      → KeyspaceConfig
      → MagicByte
      → Bytes
      → World S
      → Request
      → Response
      → Run (World S × Response)
  unfolding out_format send_raw get_converted http_error status_text query_get
  get_found keyspace ks_conf magic_byte content s r w =
      elim (out_format ks_conf (query_get "format" r.query)) [
        | raw ↦ returns (s, send_raw magic_byte content w)
        | bad_format ↦ returns (s, http_error (status_text 400) 400 w)
        | converted_to out ↦
            and_then (convert lib (random 0) keyspace magic_byte out content s.metrics)
              (get_converted s w)
      ]

  -- `xdasCommonGet`, in a configured keyspace
  unfoldable pub get_string :
      String
      → KeyspaceConfig
      → String
      → String
      → World S
      → Request
      → Response
      → Run (World S × Response)
  unfolding get_missing get_found redis_get send_redis_read_err
  get_string keyspace ks_conf id key s r w = elim (redis_get redis s.store key) [
    | ok (magic_byte, content) ↦ get_found keyspace ks_conf magic_byte content s r w
    | err e ↦
        if is_redis_nil e then get_missing keyspace id s r w else returns (send_redis_read_err s w)
  ]

  unfoldable pub xdas_common_get :
      String → String → String → World S → Request → Response → Run (World S × Response)
  unfolding get_string atomic_get lookup http_error status_text
  xdas_common_get keyspace id key s r w = elim (lookup keyspace s.config.keyspaces) [
    | none ↦ returns (s, http_error (status_text 400) 400 w)
    | some ks_conf ↦
        if ks_conf.kind == ks_atomic
        then returns (atomic_get key s w)
        else get_string keyspace ks_conf id key s r w
  ]

  -- `handleFuncXdasGet`
  unfoldable pub xdas_get : World S → Request → Response → Run (World S × Response)
  unfolding xdas_common_get get_id redis_key
  xdas_get s r w =
      let id = get_id r in xdas_common_get r.keyspace id (redis_key r.keyspace id) s r w
