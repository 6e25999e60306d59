-- ===== src/FindX/Workers.antt =====
-- internal/findx/findx.go: callers and threads interleaved, as a run over a schedule.
use xdas.Prelude.{
  ℕ, zero, suc, String, List, [], ◌∷◌, Bool, true, Option, none, some, if◌then◌else◌, Run, returns,
  and_then,
}
use xdas.FindX.Requests.{Reply, process}
use xdas.FindX.Service.{FindX, send, reject, close}

-- One step of a caller, `tests_add` to `closes`, or of a thread.
pub data Event : Type 0 where
  -- the test of `enabled` in `Add`, and its `select`, for the caller at a place
  tests_add : String → Event
  selects_add : ℕ → Event
  rejects closes : Event
  -- a waiting thread receives an id; the thread at a place ends its request; a waiting thread finds
  -- the channel closed and empty and calls `wg.Done`
  receives : Event
  ends_request : ℕ → Event
  leaves : Event

-- The entry at a place, and the list without it.
abbrev pub pick : ℕ → List String → Option (String × List String)
pick n [] = none
pick zero (x ∷ xs) = some (x, xs)
pick (suc n) (x ∷ xs) = elim (pick n xs) [ none ↦ none | some (y, ys) ↦ some (y, x ∷ ys) ]

abbrev pub receive : FindX → List String → ℕ → FindX
receive f (id ∷ rest) (suc waiting) = record f {
  ch = rest;
  waiting = waiting;
  in_flight = id ∷ f.in_flight;
}
receive f _ _ = f

abbrev pub leave : FindX → List String → Bool → ℕ → FindX
leave f [] true (suc waiting) = record f { waiting = waiting; left = suc f.left }
leave f _ _ _ = f

module _ (reply : String → Reply) where
  -- An event that cannot happen changes nothing.
  unfoldable pub step : FindX → Event → Run FindX
  unfolding process send
  step f (tests_add id) = returns (if f.enabled then record f { adding = id ∷ f.adding } else f)
  step f (selects_add n) = elim (pick n f.adding) [
    | none ↦ returns f
    | some (id, rest) ↦ send (record f { adding = rest }) id
  ]
  step f rejects = returns (reject f)
  step f closes = returns (close f)
  step f receives = returns (receive f f.ch f.waiting)
  step f (ends_request n) = elim (pick n f.in_flight) [
    | none ↦ returns f
    | some (id, rest) ↦ and_then (process reply f.url f.keyspace id f.metrics) λ counted.
        returns (record f { metrics = counted; in_flight = rest; waiting = suc f.waiting })
  ]
  step f leaves = returns (leave f f.ch f.closed f.waiting)

  unfoldable pub run : FindX → List Event → Run FindX
  unfolding step
  run f [] = returns f
  run f (e ∷ es) = and_then (step f e) λ next. run next es
