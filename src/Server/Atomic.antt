-- ===== src/Server/Atomic.antt =====
-- cmd/xdas/handler_atomic.go: the increment; the fixed answers of cmd/xdas/handler.go.
use xdas.Prelude.{
  ℕ, String, Option, none, some, lookup, ◌==◌, nat_eq, string_eq, if◌then◌else◌, itoa, parse_int,
  Result, ok, err,
}
use xdas.Errors.{Error}
use xdas.Server.Http.{
  Request, Response, text, write, write_header, fprintln, http_error, status_text, get_header,
  query_get, set_response_header,
}
use xdas.Server.Store.{redis_key}
use xdas.Server.Util.{get_ttl}
use xdas.Server.State.{World, Services, get_id, send_redis_write_err}

-- `n, _ := strconv.ParseInt(…)`, where 0 is replaced by 1
abbrev pub increment_of : String → ℕ
increment_of n = let parsed = parse_int n in if parsed == 0 then 1 else parsed

-- The error of `pipe.Exec`: the first of its two commands'.
abbrev pub exec_error {ℓ κ} :
    {A : Type ℓ} {B : Type κ} → Result Error A → Result Error B → Option Error
exec_error (err e) expired = some e
exec_error (ok n) (err e) = some e
exec_error (ok n) (ok b) = none

-- `result.Val()`
abbrev pub val : Result Error ℕ → ℕ
val (ok n) = n
val (err e) = 0

module _ {S Message : Type 0} (services : Services S Message) where
  open services use {redis, parse_duration}

  -- `atomicIncrBy`: both commands run, whether or not the first fails.
  unfoldable pub atomic_incr_by : String → ℕ → ℕ → World S → Response → World S × Response
  unfolding send_redis_write_err itoa
  atomic_incr_by key n ttl s w =
      let (incremented, result) = redis.incr_by s.store key n in
      let (expiring, expired) = redis.expire incremented key ttl in
      let s' : World S = record s { store = expiring } in
      elim (exec_error result expired) [
        | some e ↦ send_redis_write_err s' w
        | none ↦ (s', write (text (itoa (val result))) w)
      ]

  -- `handleFuncXdasAtomicInc`
  unfoldable pub atomic_inc : World S → Request → Response → World S × Response
  unfolding atomic_incr_by lookup http_error status_text get_ttl get_header get_id redis_key
      query_get parse_int
  atomic_inc s r w = elim (lookup r.keyspace s.config.keyspaces) [
    | none ↦ (s, http_error (status_text 400) 400 w)
    | some ks_conf ↦
        atomic_incr_by (redis_key r.keyspace (get_id r)) (increment_of (query_get "n" r.query))
          (get_ttl parse_duration (get_header "Xttl" r.header) ks_conf.ttl) s w
  ]

-- `handleVersion`, over the JSON text of the version
unfoldable pub handle_version : String → Response → Response
unfolding set_response_header
handle_version output w =
    write (text output) (write_header 200 (set_response_header "Content-type" "application/json" w))

-- `handleHealthz`
unfoldable pub handle_healthz : Response → Response
unfolding status_text
handle_healthz w = fprintln (status_text 200) (write_header 200 w)
