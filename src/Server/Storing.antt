-- ===== src/Server/Storing.antt =====
-- cmd/xdas/handler.go: what a PUT stores and what a GET answers, where nothing fails.
use xdas.Prelude.{
  ℕ, String, ◌∷◌, Bytes, none, some, Bool, false, not, ◌&&◌, lookup, ◌==◌, nat_eq, string_eq, ok,
  Run, returns, and_then, ◌≡◌, refl, ◌≢◌, nat_beq-false, ap, ◌∙◌,
}
use xdas.Keyspaces.{ks_atomic}
use xdas.MagicByte.{MagicByte, new, new_from}
use xdas.MagicByte
use xdas.Conversion.{MetricsProvider, convert}
use xdas.Server.Http.{Request, Response, at_eof, fprintln, get_header, query_get}
use xdas.Server.Store.{redis_key, redis_get, redis_parse_result}
use xdas.Server.Util.{read_all, write_to_buf_pool, get_ttl}
use xdas.Server.Config.{KeyspaceConfig}
use xdas.Server.State.{World, Services, get_id}
use xdas.Server.Get.{
  send_value, xdas_get, xdas_common_get, get_string, get_found, get_converted, out_format,
}
use xdas.Server.Put.{mismatches, checked, store_value, put_converted, put_body, xdas_put}

-- The form of a request, by its headers.
abbrev pub form_of : Request → MagicByte
form_of r = new (get_header "Content-encoding" r.header) (get_header "Content-type" r.header) 0

-- A request to write that passes every test before the conversion.
pub record IsAccepted {S : Type 0} (s : World S) (r : Request) (ks_conf : KeyspaceConfig)
    (content : Bytes) : Type 0 where
  pub configured : lookup r.keyspace s.config.keyspaces ≡ some ks_conf
  pub matching : mismatches ks_conf.input.magic_byte (form_of r) ≡ false
  pub whole : r.body ≡ at_eof content
  pub unchecked : s.config.validate_content ≡ false
  pub plain_or_packed : (ks_conf.store.magic_byte.cev == 0 && not ((form_of r).cev == 0)) ≡ false

module _ {S Message : Type 0} (services : Services S Message) where
  open services use {redis, lib, random, parse_duration}

  store_value_ok :
      (key reply : String) (ttl : ℕ) (o : MagicByte) (c : Bytes) (s : World S) (w : Response)
      (store : S)
      → redis.set s.store key (MagicByte.get o ∷ c) ttl ≡ (store, ok reply)
      → store_value services key ttl o c s w ≡ (record s { store = store }, fprintln reply w)
  unfolding store_value write_to_buf_pool
  store_value_ok key reply ttl o c s w store e =
      rw (ap (λ x. x.1) e, store_value) (ap (λ x. (record s { store = x.0 }, fprintln reply w)) e)

  checked_skip :
      (asked : Bool) (keyspace : String) (m : MagicByte) (content : Bytes) (s : World S)
      (w : Response) (next : Run (World S × Response))
      → asked ≡ false
      → checked services asked keyspace m content s w next ≡ next
  unfolding checked
  checked_skip asked keyspace m content s w next e = rw e refl

  put_body_unchecked :
      (s : World S) (r : Request) (w : Response) (ks_conf : KeyspaceConfig) (key : String)
      (content : Bytes)
      → IsAccepted s r ks_conf content
      → put_body services r.keyspace ks_conf key (form_of r) content s r w
        ≡ and_then
            (convert lib
              (random 0)
              r.keyspace
              (form_of r)
              ks_conf.store.magic_byte
              content
              s.metrics)
            (put_converted services key
              (get_ttl parse_duration (get_header "Xttl" r.header) ks_conf.ttl)
              s
              w)
  unfolding put_body
  put_body_unchecked s r w ks_conf key content a =
      checked_skip s.config.validate_content r.keyspace (form_of r) content s w _ a.unchecked
      ∙ checked_skip _ r.keyspace (form_of r) content s w _ a.plain_or_packed

  -- An accepted PUT whose conversion and write succeed stores the form's byte and the content.
  pub put-stores :
      (s : World S) (r : Request) (w : Response) (ks_conf : KeyspaceConfig) (content c : Bytes)
      (o : MagicByte) (m' : MetricsProvider) (store : S) (reply : String)
      → IsAccepted s r ks_conf content
      → convert lib (random 0) r.keyspace (form_of r) ks_conf.store.magic_byte content s.metrics
        ≡ returns (m', record { magic_byte = o; content = c; error = none })
      → redis.set s.store
          (redis_key r.keyspace (get_id r))
          (MagicByte.get o ∷ c)
          (get_ttl parse_duration (get_header "Xttl" r.header) ks_conf.ttl)
        ≡ (store, ok reply)
      → xdas_put services s r w
        ≡ returns (record s { metrics = m'; store = store }, fprintln reply w)
  unfolding xdas_put read_all put_body checked put_converted store_value write_to_buf_pool
  put-stores s r w ks_conf content c o m' store reply a converts sets =
      rw (a.configured, xdas_put) (rw a.matching (rw (ap read_all a.whole) stored))
    where
      key : String
      key = redis_key r.keyspace (get_id r)

      written :
          store_value services key
            (get_ttl parse_duration (get_header "Xttl" r.header) ks_conf.ttl)
            o
            c
            (record s { metrics = m' })
            w
          ≡ (record s { metrics = m'; store = store }, fprintln reply w)
      written = store_value_ok key reply _ o c (record s { metrics = m' }) w store sets

      stored :
          put_body services r.keyspace ks_conf key (form_of r) content s r w
          ≡ returns (record s { metrics = m'; store = store }, fprintln reply w)
      stored =
          rw (put_body_unchecked s r w ks_conf key content a) (rw converts (ap returns written))

  -- A GET without a format, of a value that converts.
  pub get-answers :
      (s : World S) (r : Request) (w : Response) (ks_conf : KeyspaceConfig) (c d : Bytes) (b : ℕ)
      (o : MagicByte) (m' : MetricsProvider)
      → lookup r.keyspace s.config.keyspaces ≡ some ks_conf
      → ks_conf.kind ≢ ks_atomic
      → query_get "format" r.query ≡ ""
      → redis.get s.store (redis_key r.keyspace (get_id r)) ≡ ok (b ∷ c)
      → convert lib (random 0) r.keyspace (new_from b) ks_conf.output.magic_byte c s.metrics
        ≡ returns (m', record { magic_byte = o; content = d; error = none })
      → xdas_get services s r w ≡ returns (record s { metrics = m' }, send_value o d w)
  unfolding xdas_get xdas_common_get get_string get_found get_converted redis_get redis_parse_result
      out_format
  get-answers s r w ks_conf c d b o m' configured kind format found converts =
      rw (configured, xdas_common_get)
        (rw (nat_beq-false ks_conf.kind ks_atomic kind) (
          rw (found, get_string, redis_get)
            (rw (format, get_found, out_format) (rw converts refl))))
