-- ===== src/FindX/Service.antt =====
-- internal/findx/findx.go: the service and what its callers do, `Start`, `Add`, `Reject`, `Close`.
use xdas.Prelude.{
  ℕ, String, List, [], ◌∷◌, ◌++◌, Bool, true, false, Option, none, some, length, is_pos, ltb, leb,
  ◌*◌, ◌%◌, ◌^◌, ◌-◌, ◌&&◌, if◌then◌else◌, Run, returns, panics,
}
use xdas.Errors.{Error, external}
use xdas.FindX.Metrics.{
  Metrics, inc_add_suc, inc_add_fail, inc_add_rej, Registration, init_prometheus,
}

abbrev pub default_channel_buffer_size : ℕ
default_channel_buffer_size = 128

abbrev pub default_thread : ℕ
default_thread = 1

-- The fields of `FindX`, without the HTTP client and the user agent, which only its requests read.
-- `ch` holds the ids that wait in the channel and `closed` whether it is closed. Sizes are `int`s.
pub record FindX : Type 0 where
  pub is_enabled : Bool
  pub keyspace : String
  pub url : String
  pub channel_buffer_size : ℕ
  pub thread : ℕ
  pub registration : Registration
  pub metrics : Metrics
  pub enabled : Bool
  pub ch : List String
  pub closed : Bool
  -- The threads, which all run one loop: how many wait at the channel, the ids of those that are at a
  -- request, and how many have left the loop.
  pub waiting : ℕ
  pub in_flight : List String
  pub left : ℕ
  -- The callers of `Add` that have passed its test of `enabled` and have not reached the channel.
  pub adding : List String

-- An `int` below 1 is replaced.
abbrev pub at_least_one : ℕ → ℕ → ℕ
at_least_one n default = if is_pos n then n else default

-- The runtime's limits, on 64-bit Linux: `make` panics for a channel that would take more than the
-- 2^48 bytes of the heap with its header of 96 bytes, where a string takes 16; and `Add` of a wait group
-- keeps 32 bits of its argument and panics if they are those of a negative number.
abbrev pub can_start : ℕ → ℕ → Bool
can_start size threads = leb (size * 16) (2 ^ 48 - 96) && ltb (threads % 2 ^ 32) (2 ^ 31)

-- The sizes that `Start` gives a service.
abbrev pub buffer_size : FindX → ℕ
buffer_size f = at_least_one f.channel_buffer_size default_channel_buffer_size

abbrev pub threads : FindX → ℕ
threads f = at_least_one f.thread default_thread

module _ (parse_request_uri : String → Option Error)
    (register : String → String → String → Option Error) where
  -- `Start`: the service it leaves and the error. An error of the metrics is ignored.
  unfoldable pub start : FindX → Run (FindX × Option Error)
  unfolding init_prometheus
  start f =
      if f.is_enabled
      then (elim (parse_request_uri f.url) [
        | some e ↦ returns (record f { is_enabled = false }, some e)
        | none ↦
            if can_start (buffer_size f) (threads f)
            then returns (
              record f {
                registration = (init_prometheus register f.registration).0;
                channel_buffer_size = buffer_size f;
                thread = threads f;
                ch = [];
                closed = false;
                waiting = threads f;
                in_flight = [];
                left = 0;
                enabled = true;
              },
              none,
            )
            else panics
      ])
      else returns (f, some (external 4))

-- The `select` of `Add`: a full channel drops the id, and a closed one panics.
unfoldable pub send : FindX → String → Run FindX
send f id =
    if f.closed
    then panics
    else if ltb (length f.ch) f.channel_buffer_size
    then returns (record f { ch = f.ch ++ id ∷ []; metrics = inc_add_suc f.metrics })
    else returns (record f { metrics = inc_add_fail f.metrics })

-- `Add`, where nothing comes between its test and its `select`
unfoldable pub add : FindX → String → Run FindX
unfolding send
add f id = if f.enabled then send f id else returns f

-- `Reject`
unfoldable pub reject : FindX → FindX
reject f = if f.enabled then record f { metrics = inc_add_rej f.metrics } else f

-- `Close`, up to its wait for the threads
unfoldable pub close : FindX → FindX
close f = if f.enabled then record f { is_enabled = false; enabled = false; closed = true } else f
