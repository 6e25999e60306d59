-- ===== src/Server/Untouched/Changes.antt =====
-- cmd/xdas/handler.go and handler_atomic.go: each handler that changes Redis leaves a tame world.
use xdas.Prelude.{
  ℕ, String, Bytes, Option, none, some, Bool, Result, ok, err, Run, returns, refl, subst, inl, inr,
  arith, lookup, string_eq, nat_eq, ◌==◌, not, ◌&&◌, Option-cases,
}
use xdas.Errors.{Error}
use xdas.MagicByte.{MagicByte}
use xdas.Conversion.{MetricsProvider, Converted, convert, unpack}
use xdas.Server.Http.{Request, Response, get_header}
use xdas.Server.Store.{redis_key}
use xdas.Server.Util.{read_all, get_ttl}
use xdas.Server.Config.{KeyspaceConfig}
use xdas.Server.State.{World, Services, get_id, send_redis_write_err}
use xdas.Server.Put.{
  bad_request, mismatches, store_value, checked, put_converted, put_body, after_reading, xdas_put,
  xdas_del,
}
use xdas.Server.Atomic.{atomic_incr_by, atomic_inc}
use xdas.Server.Tame.{IsTame, IsTame-refl, IsTame-trans, Tames, Tames-if, Tames-and_then}
use xdas.Server.Storing.{form_of}
use xdas.Conversion.Keeping.{Keeps, Keeping, convert-Keeping}
use xdas.Server.Untouched.{world_of, quiet_IsTame, same_IsTame}

module _ {S Message : Type 0} (services : Services S Message) where
  open services use {redis, lib, random, parse_duration}

  store_value-IsTame :
      (key : String) (ttl : ℕ) (m : MagicByte) (content : Bytes) (s : World S) (w : Response)
      → IsTame s (store_value services key ttl m content s w).0
  unfolding store_value send_redis_write_err
  store_value-IsTame key ttl m content s w =
      same_IsTame s _ (ground arith) (ground arith) (ground arith)

  put_converted-Tames :
      (key : String) (ttl : ℕ) (s : World S) (w : Response) (m' : MetricsProvider) (c : Converted)
      → Keeps s.metrics m'
      → Tames s world_of (put_converted services key ttl s w (m', c))
  unfolding put_converted
  put_converted-Tames key ttl s w m' c kept = elim (Option-cases c.error) [
    | inl fine ↦
        rw (fine, put_converted)
          (IsTame-trans s _ _ (quiet_IsTame s (record s { metrics = m' }) refl refl kept)
            (store_value-IsTame key ttl c.magic_byte c.content (record s { metrics = m' }) w))
    | inr (e, failed) ↦ rw (failed, put_converted) (quiet_IsTame s _ refl refl kept)
  ]

  checked-Tames :
      (asked : Bool) (keyspace : String) (m : MagicByte) (content : Bytes) (s : World S)
      (w : Response) (next : Run (World S × Response))
      → Tames s world_of next
      → Tames s world_of (checked services asked keyspace m content s w next)
  unfolding checked
  checked-Tames asked keyspace m content s w next h =
      Tames-if s world_of asked _ _
        (Tames-and_then s world_of (unpack lib keyspace m content) _ (λ u ran. judged u)) h
    where
      judged :
          (u : Result Error Message)
          → Tames s world_of (elim u as (λ x. Run (World S × Response)) [
            | ok pb ↦ next
            | err e ↦ returns (s, bad_request w)
          ])
      judged (ok pb) = h
      judged (err e) = IsTame-refl s

  put_body-Tames :
      (s : World S) (r : Request) (w : Response) (c : KeyspaceConfig) (key : String)
      (content : Bytes)
      → Tames s world_of (put_body services r.keyspace c key (form_of r) content s r w)
  unfolding put_body
  put_body-Tames s r w c key content =
      checked-Tames s.config.validate_content r.keyspace (form_of r) content s w _ (
        checked-Tames (c.store.magic_byte.cev == 0 && not ((form_of r).cev == 0)) r.keyspace
          (form_of r) content s w _
          (Tames-and_then s world_of
            (convert lib (random 0) r.keyspace (form_of r) c.store.magic_byte content s.metrics) _
            (λ (m', converted) ran.
              put_converted-Tames key (get_ttl parse_duration (get_header "Xttl" r.header) c.ttl) s
                w m' converted
                (subst (Keeping s.metrics) ran (
                  convert-Keeping lib (random 0) r.keyspace (form_of r) c.store.magic_byte content
                    s.metrics)))))

  after_reading-Tames :
      (s : World S) (r : Request) (w : Response) (c : KeyspaceConfig) (key : String)
      (content : Bytes) (e : Option Error)
      → Tames s world_of (after_reading services r.keyspace c key (form_of r) s r w (content, e))
  after_reading-Tames s r w c key content none = put_body-Tames s r w c key content
  after_reading-Tames s r w c key content (some e) = IsTame-refl s

  pub xdas_put-Tames :
      (s : World S) (r : Request) (w : Response) → Tames s world_of (xdas_put services s r w)
  unfolding xdas_put
  xdas_put-Tames s r w = elim (Option-cases (lookup r.keyspace s.config.keyspaces)) [
    | inl unknown ↦ rw (unknown, xdas_put) (IsTame-refl s)
    | inr (c, known) ↦
        rw (known, xdas_put)
          (Tames-if s world_of (mismatches c.input.magic_byte (form_of r)) _ _ (IsTame-refl s) (
            Tames-and_then s world_of (read_all r.body) _ (λ (content, e) ran.
              after_reading-Tames s r w c (redis_key r.keyspace (get_id r)) content e)))
  ]

  pub xdas_del-IsTame :
      (s : World S) (r : Request) (w : Response) → IsTame s (xdas_del services s r w).0
  unfolding xdas_del send_redis_write_err
  xdas_del-IsTame s r w = same_IsTame s _ (ground arith) (ground arith) (ground arith)

  atomic_incr_by-IsTame :
      (key : String) (n ttl : ℕ) (s : World S) (w : Response)
      → IsTame s (atomic_incr_by services key n ttl s w).0
  unfolding atomic_incr_by send_redis_write_err
  atomic_incr_by-IsTame key n ttl s w = same_IsTame s _ (ground arith) (ground arith) (ground arith)

  pub atomic_inc-IsTame :
      (s : World S) (r : Request) (w : Response) → IsTame s (atomic_inc services s r w).0
  unfolding atomic_inc
  atomic_inc-IsTame s r w = elim (Option-cases (lookup r.keyspace s.config.keyspaces)) [
    | inl unknown ↦ rw (unknown, atomic_inc) (IsTame-refl s)
    | inr (c, known) ↦ rw (known, atomic_inc) (atomic_incr_by-IsTame _ _ _ s w)
  ]
