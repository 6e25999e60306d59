-- ===== src/Lib.antt =====
-- XDAS, a server that stores values under keyspaces in Redis: cmd/xdas, cmd/keygen, internal/.
--
-- A client writes a value with PUT to /v2/<keyspace>/<id> and reads it with GET. In front of each
-- stored value stands one byte, its form: content encoding, content type and encryption. The server
-- converts a value from the form of the request into the form that the keyspace stores, and on reading
-- into the form that is asked for. A value that is missing can be asked for at another service by
-- FindX, whose threads make one HTTP request for each id. Some keyspaces hold counters instead.
--
-- MagicByte: internal/magicbyte/magicbyte.go. `new`, `new_from`, `get` and the tables of texts.
-- Keyspaces: internal/keyspaces/kind.go. A kind is a number; a text is read by `unmarshal_text`.
-- Errors: the values of Go's `error` that the other parts pass on.
-- RedisCrypto: internal/rediscrypto/crypto.go and cmd/keygen/keygen.go. `Aead` is the interface of
-- Go's AES-GCM, with the two laws that its documentation states; the child modules hold the hex
-- codec, the cipher (`NewAesGCM`, `Encrypt`, `Decrypt`), and the globals of `Init`.
-- Conversion: internal/conversion. `Libraries` holds what is called outside of the package; `Codec`
-- is one function for each layer, `Convert` the three chains of `Convert` with their counting, and
-- `Metrics` the counters of a keyspace. `Convert` reads no state but the counters, so it is a
-- function from them and the random source.
-- FindX: internal/findx. `Service` has `Start`, `Add`, `Reject`, `Close` on one record, `Requests`
-- the bodies of the threads' loops, and `Workers` the step of a caller or of a thread: a schedule
-- is a list of such steps, so every interleaving of callers and threads is a list.
-- Logger: internal/logger/logger.go. A logger holds the address of its level, and the levels are a
-- store, since the loggers that `With` makes share it.
-- WebLog: internal/logger/weblog/weblog.go. `Writer` is the interface of a response writer and the two
-- writers that record, `Body` the reading of a body, `Middleware` the middlewares. A handler is the
-- tree of the calls that it makes of its writer, each of which may depend on the answers to the ones
-- before.
-- Sections: internal/config, its files for TLS, the HTTP client and the web server; the files that they
-- name are parameters.
-- Server: cmd/xdas. `Http` is the part of Go's net/http that the handlers see, `Store` the Redis
-- client (a record of operations over a state) and cmd/xdas/redis.go, `Util` cmd/xdas/util.go,
-- `Config` the validation in cmd/xdas/config.go and internal/config/redis.go, `State` what handlers
-- share, `Get`, `Put`, `Multi` and `Atomic` the handlers, `Routes` cmd/xdas/routes.go with the
-- middleware of cmd/xdas/xdas.go, and `RequestMetrics` and `OwnMetrics` cmd/xdas/metrics.go, its
-- middleware and newMetrics with createBuildInfoMetrics over the registry as a state. A handler takes
-- the world, the request and the response so far, and returns the new world and response, or panics.
-- `Setup` is getConfig of cmd/xdas/config.go and main up to where it listens, `Lifecycle` newFindX and
-- newConvert there, and `Shutdown` the function shutdown with the waits of Close, and the end of main.
-- `System` is the server that runs, as a step relation on the world: a step is a request, a goroutine
-- of findX, a caller or a thread of a service of FindX, or a change of Redis by others.
-- Prelude: the shared types, lists, maps, texts and numbers. Examples: tests and applications.
--
-- Integers are native numbers. An `int` is its 64-bit pattern, so a negative number is one from 2^63 on,
-- and counters and durations wrap modulo 2^64. A panic is a value, `panics`. There is no fuel, but for
-- the digits of a decimal, where a number has at most as many digits as itself and one more; the end of the
-- threads of FindX is by induction on a measure that every step of a thread lowers, and as many rounds of a fair
-- schedule as the measure says are enough.
--
-- The names of headers are folded in ASCII, as Go does, and ids by the table of Unicode 15. The
-- limits of the runtime on channels and wait groups are those of 64-bit Linux; memory that runs out
-- is not modelled. The making of the Redis client, and what main asks it for only to log, are left
-- out. In `System` a request is one step, so what other requests do between two of its calls of
-- Redis is not seen. In shutdown a service stands, when its turn comes, as it stood at the start of
-- the loop. What the web server of net/http does in its Shutdown is a parameter. The buffers'
-- pools, the log lines of the handlers, the matching of a path with a route, the buckets of the
-- metrics and signals are not modelled: they are output, or calls of libraries; and the middleware
-- that logs stands beside the chain of `serve`, which goes through the one of the metrics: it needs
-- a handler as the tree of its calls, where those of `serve` are functions on the response. A
-- configuration file that sets a section or a keyspace to null is not modelled. The text of an
-- error is not kept, only which it is.
pub mod Prelude
pub mod MagicByte
pub mod Keyspaces
pub mod Errors
pub mod RedisCrypto
pub mod Conversion
pub mod FindX
pub mod Sections
pub mod Server
pub mod Logger
pub mod WebLog
pub mod Examples
