-- ===== src/Server/Untouched.antt =====
-- cmd/xdas/handler.go and handler_atomic.go: a handler that reads leaves a tame world.
pub mod Changes
use xdas.Prelude.{
  ℕ, String, Bytes, Option, none, some, Bool, Result, ok, err, Run, returns, ◌≡◌, refl, sym, ap,
  ◌∙◌, subst, inl, inr, arith, lookup, string_eq, nat_eq, ◌==◌, not, ◌&&◌, Option-cases,
  Result-cases,
}
use xdas.Errors.{Error}
use xdas.Keyspaces.{ks_atomic}
use xdas.MagicByte.{MagicByte}
use xdas.Conversion.{MetricsProvider, Converted, convert, unpack}
use xdas.Server.Http.{Request, Response, query_get, get_header}
use xdas.Server.Store.{redis_key, redis_get}
use xdas.Server.Util.{parse_bool, read_all, get_ttl}
use xdas.Server.Config.{KeyspaceConfig, Configuration}
use xdas.Server.State.{World, Services, get_id, find_x, send_redis_read_err, send_redis_write_err}
use xdas.Server.Get.{
  Format, raw, bad_format, converted_to, out_format, is_redis_nil, atomic_get, get_missing,
  get_converted, get_found, get_string, xdas_common_get, xdas_get,
}
use xdas.Server.Put.{
  bad_request, mismatches, store_value, checked, put_converted, put_body, after_reading, xdas_put,
  xdas_del,
}
use xdas.Server.Atomic.{atomic_incr_by, atomic_inc}
use xdas.Server.Tame.{
  IsTame, Follows-refl, IsTame-refl, IsTame-trans, Tames, Tames-if, Tames-and_then, find_x-Tames,
}
use xdas.Server.Storing.{form_of}
use xdas.Conversion.Keeping.{Keeps, Keeping, convert-Keeping}

module _ {S : Type 0} where
  -- The world of an answer.
  abbrev pub world_of : World S × Response → World S
  world_of (s, w) = s

  -- A world with the same counter and configuration, whose counters of conversions are kept.
  pub quiet_IsTame :
      (s s' : World S)
      → s'.counter ≡ s.counter
      → s'.config ≡ s.config
      → Keeps s.metrics s'.metrics
      → IsTame s s'
  quiet_IsTame s s' counter config kept = record {
    same_counter = counter;
    same_config =
        config
        ∙ ap {A = Configuration} (λ x. record s.config { keyspaces = x.keyspaces }) (sym config);
    followed = λ k c known. (c, rw config at known, Follows-refl c);
    none_lost = λ k (c, known). (c, rw (← config) at known);
    countable = kept;
  }

  pub same_IsTame :
      (s s' : World S)
      → s'.counter ≡ s.counter
      → s'.config ≡ s.config
      → s'.metrics ≡ s.metrics
      → IsTame s s'
  same_IsTame s s' counter config metrics =
      quiet_IsTame s s' counter config (subst (Keeps s.metrics) (sym metrics) (λ j h. h))

module _ {S Message : Type 0} (services : Services S Message) where
  open services use {redis, lib, random, parse_duration}

  atomic_get-IsTame :
      (key : String) (s : World S) (w : Response) → IsTame s (atomic_get services key s w).0
  unfolding atomic_get send_redis_read_err
  atomic_get-IsTame key s w = same_IsTame s _ (ground arith) (ground arith) (ground arith)

  get_missing-Tames :
      (keyspace id : String) (s : World S) (r : Request) (w : Response)
      → Tames s world_of (get_missing services keyspace id s r w)
  unfolding get_missing
  get_missing-Tames keyspace id s r w =
      Tames-if s world_of (parse_bool "nofindx" r.query) _ _ (IsTame-refl s) (
        Tames-and_then s world_of (find_x keyspace id s) _
          (λ s' ran. subst (Tames s (λ t. t)) ran (find_x-Tames keyspace id s)))

  get_converted-Tames :
      (s : World S) (w : Response) (m' : MetricsProvider) (c : Converted)
      → Keeps s.metrics m'
      → Tames s world_of (get_converted services s w (m', c))
  unfolding get_converted
  get_converted-Tames s w m' c kept = elim (Option-cases c.error) [
    | inl fine ↦ rw (fine, get_converted) (quiet_IsTame s _ refl refl kept)
    | inr (bad, failed) ↦ rw (failed, get_converted) (quiet_IsTame s _ refl refl kept)
  ]

  get_format-Tames :
      (format : Format) (keyspace : String) (c : KeyspaceConfig) (m : MagicByte) (content : Bytes)
      (s : World S) (r : Request) (w : Response)
      → out_format c (query_get "format" r.query) ≡ format
      → Tames s world_of (get_found services keyspace c m content s r w)
  unfolding get_found
  get_format-Tames raw keyspace c m content s r w e = rw (e, get_found) (IsTame-refl s)
  get_format-Tames bad_format keyspace c m content s r w e = rw (e, get_found) (IsTame-refl s)
  get_format-Tames (converted_to out) keyspace c m content s r w e =
      rw (e, get_found)
        (Tames-and_then s world_of (convert lib (random 0) keyspace m out content s.metrics) _
          (λ (m', converted) ran. get_converted-Tames s w m' converted (
            subst (Keeping s.metrics) ran
              (convert-Keeping lib (random 0) keyspace m out content s.metrics))))

  get_string-Tames :
      (keyspace : String) (c : KeyspaceConfig) (id key : String) (s : World S) (r : Request)
      (w : Response)
      → Tames s world_of (get_string services keyspace c id key s r w)
  unfolding get_string send_redis_read_err
  get_string-Tames keyspace c id key s r w = elim (Result-cases (redis_get redis s.store key)) [
    | inl ((m, content), found) ↦
        rw (found, get_string)
          (get_format-Tames (out_format c (query_get "format" r.query)) keyspace c m content s r w
            refl)
    | inr (e, failed) ↦
        rw (failed, get_string)
          (Tames-if s world_of (is_redis_nil e) _ _ (get_missing-Tames keyspace id s r w)
            (same_IsTame s _ refl refl refl))
  ]

  pub xdas_get-Tames :
      (s : World S) (r : Request) (w : Response) → Tames s world_of (xdas_get services s r w)
  unfolding xdas_get xdas_common_get
  xdas_get-Tames s r w = elim (Option-cases (lookup r.keyspace s.config.keyspaces)) [
    | inl unknown ↦ rw (unknown, xdas_common_get) (IsTame-refl s)
    | inr (c, known) ↦
        rw (known, xdas_common_get)
          (Tames-if s world_of (c.kind == ks_atomic) _ _
            (atomic_get-IsTame (redis_key r.keyspace (get_id r)) s w)
            (get_string-Tames r.keyspace c (get_id r) (redis_key r.keyspace (get_id r)) s r w))
  ]
