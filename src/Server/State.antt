-- ===== src/Server/State.antt =====
-- cmd/xdas: the state that the handlers share, the errors that they send, and `findX`.
use xdas.Prelude.{
  ℕ, ◌+◌, String, List, [], ◌∷◌, ◌++◌, Bytes, Option, none, some, Bool, true, false, lookup, insert,
  ◌==◌, nat_eq, string_eq, if◌then◌else◌, Result, Run, returns, panics, and_then, to_upper,
}
use xdas.Errors.{Error, max_bytes_error}
use xdas.Conversion.{MetricsProvider, Libraries}
use xdas.FindX.{FindX}
use xdas.FindX
use xdas.Server.Http.{Method, Request, Response, http_error, status_text}
use xdas.Server.Store.{Redis, redis_key}
use xdas.Server.Config.{Configuration}

-- The labels of `counter` in the metrics of the server.
pub record Labels : Type 0 where
  pub app : String
  pub code : ℕ
  pub method : Method
  pub keyspace : String
  pub client : Bytes

-- The fields of `Server` that change, with the globals of internal/conversion: the Redis server, the
-- configuration, whose keyspaces hold the FindX services, and the metrics. `spawned` holds the ids
-- of the goroutines that `findX` has started and that have not run, `counter` the increments of that
-- counter, and `duration` how many durations were observed.
pub record World (S : Type 0) : Type 0 where
  pub store : S
  pub config : Configuration
  pub metrics : MetricsProvider
  pub redis_read_err : ℕ
  pub redis_write_err : ℕ
  pub spawned : List String
  pub counter : List Labels
  pub duration : ℕ

-- What the server calls and does not implement.
pub record Services (S Message : Type 0) : Type 0 where
  pub redis : Redis S
  pub lib : Libraries Message
  pub parse_duration : String → Option ℕ
  -- the n-th read of the random source in a request, for a length
  pub random : ℕ → ℕ → Result Error Bytes
  -- `multipart.NewWriter`: its boundary, and the error of its n-th `CreatePart`
  pub boundary : String
  pub create_part : ℕ → Option Error
  -- `utf8.ValidString`, which Prometheus asks of a label
  pub valid_string : Bytes → Bool

abbrev pub Handler : Type 0 → Type 0
Handler S = World S → Request → Response → Run (World S × Response)

-- `getID`
unfoldable pub get_id : Request → String
unfolding to_upper
get_id r = to_upper r.id

abbrev pub is_max_bytes : Error → Bool
is_max_bytes max_bytes_error = true
is_max_bytes _ = false

-- `sendRequestBodyReadErr`
unfoldable pub send_request_body_read_err : Error → Response → Response
unfolding http_error status_text
send_request_body_read_err e w =
    if is_max_bytes e
    then http_error (status_text 413) 413 w
    else http_error (status_text 400) 400 w

module _ {S : Type 0} where
  -- `sendRedisReadErr` and `sendRedisWriteErr`
  unfoldable pub send_redis_read_err : World S → Response → World S × Response
  unfolding http_error
  send_redis_read_err s w = (
    record s { redis_read_err = s.redis_read_err + 1 },
    http_error "Internal Server Error 10" 500 w,
  )

  unfoldable pub send_redis_write_err : World S → Response → World S × Response
  unfolding http_error
  send_redis_write_err s w = (
    record s { redis_write_err = s.redis_write_err + 1 },
    http_error "Internal Server Error 11" 500 w,
  )

  -- `*ksConf` for the pointer that the map holds for a keyspace. The services are shared by all
  -- handlers, so each call reads the current one and puts it back.
  unfoldable pub with_find_x : String → World S → (FindX → Run FindX) → Run (World S)
  unfolding lookup insert
  with_find_x keyspace s call = elim (lookup keyspace s.config.keyspaces) [
    | none ↦ panics
    | some ks_conf ↦ elim ks_conf.find_x [
      | none ↦ panics
      | some f ↦ and_then (call f) λ f'. returns (record s {
        config = record s.config {
          keyspaces = insert keyspace (record ks_conf { find_x = some f' }) s.config.keyspaces;
        };
      })
    ]
  ]

  -- `findX`: for the keyspace pld a goroutine is started, for any other the id is added at once.
  unfoldable pub find_x : String → String → World S → Run (World S)
  unfolding with_find_x
  find_x keyspace id s =
      if keyspace == "pld"
      then returns (record s { spawned = s.spawned ++ id ∷ [] })
      else with_find_x keyspace s λ f. FindX.add f id

  -- The body of that goroutine, when it runs.
  unfoldable pub find_x_pld : Redis S → String → World S → Run (World S)
  unfolding with_find_x redis_key
  find_x_pld redis id s =
      if redis.exists s.store (redis_key "pa" id) == 0
      then with_find_x "pld" s (λ f. returns (FindX.reject f))
      else with_find_x "pld" s (λ f. FindX.add f id)
