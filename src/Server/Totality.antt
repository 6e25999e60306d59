-- ===== src/Server/Totality.antt =====
-- cmd/xdas/handler.go: when a PUT and a GET return.
use xdas.Prelude.{
  ℕ, String, Bytes, Option, none, some, Bool, false, Result, ok, err, Run, returns, Returns,
  Returns-and_then, of_if, ◌≡◌, refl, ◌≢◌, ◌⊎◌, inl, inr, lookup, string_eq, nat_eq, ◌==◌, ltb,
  length, Option-cases, Result-cases, not, ◌&&◌,
}
use xdas.Errors.{Error}
use xdas.Keyspaces.{ks_atomic}
use xdas.MagicByte.{MagicByte}
use xdas.Conversion.{MetricsProvider, Converted, convert, unpack}
use xdas.Conversion.Counting.{IsCounted}
use xdas.Conversion.Totality.{IsInitialised, unpack-Returns, convert-Returns}
use xdas.FindX.{FindX, send}
use xdas.FindX
use xdas.Server.Http.{
  Request, Response, Reading, at_eof, broken, too_large, other_panic, get_header, query_get,
}
use xdas.Server.Store.{redis_key, redis_get}
use xdas.Server.Util.{read_all, get_ttl, parse_bool}
use xdas.Server.Config.{KeyspaceConfig}
use xdas.Server.State.{World, Services, get_id, with_find_x, find_x}
use xdas.Server.Get.{
  Format, raw, bad_format, converted_to, out_format, is_redis_nil, get_missing, get_converted,
  get_found, get_string, xdas_common_get, xdas_get,
}
use xdas.Server.Put.{
  bad_request, mismatches, checked, put_converted, put_body, after_reading, xdas_put,
}
use xdas.Server.Storing.{form_of}

read_all-Returns : (body : Reading) → body ≢ other_panic → Returns (read_all body)
unfolding read_all
read_all-Returns (at_eof b) h = tt
read_all-Returns (broken b e) h = tt
read_all-Returns too_large h = tt
read_all-Returns other_panic h = h refl

-- The service of a keyspace can be given an id: it is not both enabled and closed.
pub record IsServiced {S : Type 0} (keyspace : String) (s : World S) : Type 0 where
  pub config : KeyspaceConfig
  pub service : FindX
  pub configured : lookup keyspace s.config.keyspaces ≡ some config
  pub present : config.find_x ≡ some service
  pub shut : (service.closed ≡ false) ⊎ (service.enabled ≡ false)

send-Returns : (f : FindX) (id : String) → f.closed ≡ false → Returns (send f id)
unfolding send
send-Returns f id e =
    rw (e, send) (of_if Returns (ltb (length f.ch) f.channel_buffer_size) _ _ tt tt)

add-Returns :
    (f : FindX) (id : String) → (f.closed ≡ false) ⊎ (f.enabled ≡ false) → Returns (FindX.add f id)
unfolding FindX.add send
add-Returns f id (inl unclosed) = of_if Returns f.enabled _ _ (send-Returns f id unclosed) tt
add-Returns f id (inr disabled) = rw (disabled, FindX.add) tt

pub find_x-Returns :
    {S : Type 0} (keyspace id : String) (s : World S)
    → IsServiced keyspace s
    → Returns (find_x keyspace id s)
unfolding find_x with_find_x
find_x-Returns keyspace id s v = of_if Returns (keyspace == "pld") _ _ tt added
  where
    added : Returns (with_find_x keyspace s (λ f. FindX.add f id))
    added =
        rw (v.configured, with_find_x)
          (rw v.present (
            Returns-and_then (FindX.add v.service id) _ (add-Returns v.service id v.shut)
              (λ f'. tt)))

module _ {S Message : Type 0} (services : Services S Message)
    (set : IsInitialised services.lib) where
  open services use {redis, lib, random, parse_duration}

  put_converted-Returns :
      (key : String) (ttl : ℕ) (s : World S) (w : Response) (m' : MetricsProvider) (c : Converted)
      → Returns (put_converted services key ttl s w (m', c))
  unfolding put_converted
  put_converted-Returns key ttl s w m' c = elim (Option-cases c.error) [
    | inl fine ↦ rw (fine, put_converted) tt
    | inr (e, failed) ↦ rw (failed, put_converted) tt
  ]

  checked-Returns :
      (asked : Bool) (keyspace : String) (m : MagicByte) (content : Bytes) (s : World S)
      (w : Response) (next : Run (World S × Response))
      → Returns next
      → Returns (checked services asked keyspace m content s w next)
  unfolding checked
  checked-Returns asked keyspace m content s w next h =
      of_if Returns asked _ _
        (Returns-and_then (unpack lib keyspace m content) _
          (unpack-Returns lib (random 0) set keyspace m content) judged)
        h
    where
      judged :
          (u : Result Error Message)
          → Returns (elim u as (λ x. Run (World S × Response)) [
            | ok pb ↦ next
            | err e ↦ returns (s, bad_request w)
          ])
      judged (ok pb) = h
      judged (err e) = tt

  put_body-Returns :
      (s : World S) (r : Request) (w : Response) (c : KeyspaceConfig) (key : String)
      (content : Bytes)
      → IsCounted r.keyspace s.metrics
      → Returns (put_body services r.keyspace c key (form_of r) content s r w)
  unfolding put_body
  put_body-Returns s r w c key content counted =
      checked-Returns s.config.validate_content r.keyspace (form_of r) content s w _ (
        checked-Returns (c.store.magic_byte.cev == 0 && not ((form_of r).cev == 0)) r.keyspace
          (form_of r) content s w _
          (Returns-and_then
            (convert lib (random 0) r.keyspace (form_of r) c.store.magic_byte content s.metrics) _
            (convert-Returns lib (random 0) r.keyspace (form_of r) c.store.magic_byte content
              s.metrics set counted)
            (λ (m', converted).
              put_converted-Returns key (get_ttl parse_duration (get_header "Xttl" r.header) c.ttl)
                s w m' converted)))

  after_reading-Returns :
      (s : World S) (r : Request) (w : Response) (c : KeyspaceConfig) (key : String)
      (content : Bytes) (e : Option Error)
      → IsCounted r.keyspace s.metrics
      → Returns (after_reading services r.keyspace c key (form_of r) s r w (content, e))
  after_reading-Returns s r w c key content none counted =
      put_body-Returns s r w c key content counted
  after_reading-Returns s r w c key content (some e) counted = tt

  -- Once a cipher is set, a PUT to a keyspace that can be counted returns, unless the reading of its body
  -- panics with anything but a buffer that grows too large.
  pub xdas_put-Returns :
      (s : World S) (r : Request) (w : Response)
      → IsCounted r.keyspace s.metrics
      → r.body ≢ other_panic
      → Returns (xdas_put services s r w)
  unfolding xdas_put
  xdas_put-Returns s r w counted read = elim (Option-cases (lookup r.keyspace s.config.keyspaces)) [
    | inl unknown ↦ rw (unknown, xdas_put) tt
    | inr (c, known) ↦
        rw (known, xdas_put)
          (of_if Returns (mismatches c.input.magic_byte (form_of r)) _ _ tt (
            Returns-and_then (read_all r.body) _ (read_all-Returns r.body read) (λ (content, e).
              after_reading-Returns s r w c (redis_key r.keyspace (get_id r)) content e counted)))
  ]

  get_converted-Returns :
      (s : World S) (w : Response) (m' : MetricsProvider) (c : Converted)
      → Returns (get_converted services s w (m', c))
  unfolding get_converted
  get_converted-Returns s w m' c = elim (Option-cases c.error) [
    | inl fine ↦ rw (fine, get_converted) tt
    | inr (e, failed) ↦ rw (failed, get_converted) tt
  ]

  get_format-Returns :
      (format : Format) (keyspace : String) (c : KeyspaceConfig) (m : MagicByte) (content : Bytes)
      (s : World S) (r : Request) (w : Response)
      → out_format c (query_get "format" r.query) ≡ format
      → IsCounted keyspace s.metrics
      → Returns (get_found services keyspace c m content s r w)
  unfolding get_found
  get_format-Returns raw keyspace c m content s r w e counted = rw (e, get_found) tt
  get_format-Returns bad_format keyspace c m content s r w e counted = rw (e, get_found) tt
  get_format-Returns (converted_to out) keyspace c m content s r w e counted =
      rw (e, get_found)
        (Returns-and_then (convert lib (random 0) keyspace m out content s.metrics) _
          (convert-Returns lib (random 0) keyspace m out content s.metrics set counted)
          (λ (m', converted). get_converted-Returns s w m' converted))

  get_string-Returns :
      (keyspace : String) (c : KeyspaceConfig) (id key : String) (s : World S) (r : Request)
      (w : Response)
      → IsCounted keyspace s.metrics
      → IsServiced keyspace s
      → Returns (get_string services keyspace c id key s r w)
  unfolding get_string get_missing
  get_string-Returns keyspace c id key s r w counted serviced =
      elim (Result-cases (redis_get redis s.store key)) [
        | inl ((m, content), found) ↦
            rw (found, get_string)
              (get_format-Returns (out_format c (query_get "format" r.query)) keyspace c m content s
                r w refl counted)
        | inr (e, failed) ↦
            rw (failed, get_string)
              (of_if Returns (is_redis_nil e) _ _
                (of_if Returns (parse_bool "nofindx" r.query) _ _ tt (
                  Returns-and_then (find_x keyspace id s) _ (find_x-Returns keyspace id s serviced)
                    (λ s'. tt)))
                tt)
      ]

  -- Once a cipher is set, a GET of a keyspace that can be counted, and whose service is not both enabled
  -- and closed, returns.
  pub xdas_get-Returns :
      (s : World S) (r : Request) (w : Response)
      → IsCounted r.keyspace s.metrics
      → IsServiced r.keyspace s
      → Returns (xdas_get services s r w)
  unfolding xdas_get xdas_common_get
  xdas_get-Returns s r w counted serviced =
      elim (Option-cases (lookup r.keyspace s.config.keyspaces)) [
        | inl unknown ↦ rw (unknown, xdas_common_get) tt
        | inr (c, known) ↦
            rw (known, xdas_common_get)
              (of_if Returns (c.kind == ks_atomic) _ _ tt (
                get_string-Returns r.keyspace c (get_id r) (redis_key r.keyspace (get_id r)) s r w
                  counted serviced))
      ]
