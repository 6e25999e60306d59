-- ===== src/Server/Put.antt =====
-- cmd/xdas/handler.go: the PUT handler and the DELETE handler.
use xdas.Prelude.{
  ℕ, String, Bytes, Option, none, some, Bool, not, ◌&&◌, ◌||◌, lookup, ◌==◌, nat_eq, string_eq,
  if◌then◌else◌, itoa, ok, err, Run, returns, and_then, is_pos,
}
use xdas.Errors.{Error}
use xdas.MagicByte.{MagicByte, new}
use xdas.MagicByte
use xdas.Conversion.{MetricsProvider, Converted, convert, unpack}
use xdas.Server.Http.{Request, Response, fprintln, http_error, status_text, get_header}
use xdas.Server.Store.{redis_key}
use xdas.Server.Util.{read_all, write_to_buf_pool, get_ttl}
use xdas.Server.Config.{KeyspaceConfig}
use xdas.Server.State.{World, Services, get_id, send_redis_write_err, send_request_body_read_err}
use xdas.Server.Get.{not_found}

-- The test of the request's form against the configured input.
unfoldable pub mismatches : MagicByte → MagicByte → Bool
mismatches input m =
    (not (input.cev == 0) && not (input.cev == m.cev))
    || (not (input.ctv == 0) && not (input.ctv == m.ctv))

unfoldable pub bad_request : Response → Response
unfolding http_error status_text
bad_request w = http_error (status_text 400) 400 w

module _ {S Message : Type 0} (services : Services S Message) where
  open services use {redis, lib, random, parse_duration}

  -- The write to Redis, and its answer.
  unfoldable pub store_value :
      String → ℕ → MagicByte → Bytes → World S → Response → World S × Response
  unfolding send_redis_write_err write_to_buf_pool
  store_value key ttl magic_byte content s w =
      let (store, result) =
        redis.set s.store key (write_to_buf_pool (MagicByte.get magic_byte) content) ttl in
      elim result [
        | ok reply ↦ (record s { store = store }, fprintln reply w)
        | err e ↦ send_redis_write_err (record s { store = store }) w
      ]

  -- After the conversion into the stored form.
  unfoldable pub put_converted :
      String → ℕ → World S → Response → MetricsProvider × Converted → Run (World S × Response)
  unfolding store_value http_error status_text
  put_converted key ttl s w (metrics, c) = elim c.error [
    | some e ↦ returns (record s { metrics = metrics }, http_error (status_text 500) 500 w)
    | none ↦ returns (store_value key ttl c.magic_byte c.content (record s { metrics = metrics }) w)
  ]

  -- The validation by `Unpack`, where it is asked for: the request goes on if it succeeds.
  unfoldable pub checked :
      Bool
      → String
      → MagicByte
      → Bytes
      → World S
      → Response
      → Run (World S × Response)
      → Run (World S × Response)
  unfolding bad_request
  checked asked keyspace m content s w next =
      if asked
      then (and_then (unpack lib keyspace m content)
          λ unpacked. elim unpacked [ ok pb ↦ next | err e ↦ returns (s, bad_request w) ])
      else next

  -- After the body was read.
  unfoldable pub put_body :
      String
      → KeyspaceConfig
      → String
      → MagicByte
      → Bytes
      → World S
      → Request
      → Response
      → Run (World S × Response)
  unfolding checked put_converted get_ttl get_header
  put_body keyspace ks_conf key m content s r w =
      let stored = ks_conf.store.magic_byte in
      checked s.config.validate_content keyspace m content s w (
        checked (stored.cev == 0 && not (m.cev == 0)) keyspace m content s w (
          and_then (convert lib (random 0) keyspace m stored content s.metrics) (
            put_converted key (get_ttl parse_duration (get_header "Xttl" r.header) ks_conf.ttl) s
              w)))

  abbrev pub after_reading :
      String
      → KeyspaceConfig
      → String
      → MagicByte
      → World S
      → Request
      → Response
      → Bytes × Option Error
      → Run (World S × Response)
  after_reading keyspace ks_conf key m s r w (content, e) = elim e [
    | some bad ↦ returns (s, send_request_body_read_err bad w)
    | none ↦ put_body keyspace ks_conf key m content s r w
  ]

  -- `handleFuncXdasPut`
  unfoldable pub xdas_put : World S → Request → Response → Run (World S × Response)
  unfolding put_body mismatches bad_request lookup get_id redis_key new get_header read_all
      send_request_body_read_err
  xdas_put s r w = elim (lookup r.keyspace s.config.keyspaces) [
    | none ↦ returns (s, bad_request w)
    | some ks_conf ↦
        let m =
          new (get_header "Content-encoding" r.header) (get_header "Content-type" r.header) 0 in
        if mismatches ks_conf.input.magic_byte m
        then returns (s, bad_request w)
        else and_then (read_all r.body)
            (after_reading r.keyspace ks_conf (redis_key r.keyspace (get_id r)) m s r w)
  ]

  -- `handleFuncXdasDel`
  unfoldable pub xdas_del : World S → Request → Response → World S × Response
  unfolding get_id redis_key send_redis_write_err not_found itoa
  xdas_del s r w =
      let (store, result) = redis.del s.store (redis_key r.keyspace (get_id r)) in
      let s' : World S = record s { store = store } in
      elim result [
        | err e ↦ send_redis_write_err s' w
        | ok deleted ↦ if is_pos deleted then (s', fprintln (itoa deleted) w) else (s', not_found w)
      ]
