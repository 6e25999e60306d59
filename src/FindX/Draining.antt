-- ===== src/FindX/Draining.antt =====
-- internal/findx/findx.go: `Close` and its wait for the threads.
use xdas.Prelude.{
  Option, none, ℕ, suc, ◌+◌, ◌*◌, ◌%◌, String, List, [], ◌∷◌, false, length, returns, ◌≡◌, inl, inr,
  arith, Run-cases, int_mod,
}
use xdas.Errors.{Error}
use xdas.FindX.Metrics.{Metrics, no_metrics}
use xdas.FindX.Requests.{Reply, process}
use xdas.FindX.Service.{FindX, start}
use xdas.FindX.Workers.{Event, ends_request, step, run}
use xdas.FindX.Threads.{run-start-Inv}
use xdas.FindX.Panics.{CanAsk, process-panics}

-- `wg.Wait` returns: every thread has called `wg.Done`.
pub record IsDone (f : FindX) : Type 0 where
  pub none_waiting : f.waiting ≡ 0
  pub none_sending : f.in_flight ≡ []

-- From a successful `Start` with fresh counters on, whenever every thread has called `wg.Done`, as
-- the wait of `Close` needs, the service is closed, its channel is empty, and every id that was ever
-- accepted has been counted as sent, failed or rejected, modulo the size of the counters.
pub IsDone-drained :
    (parse_request_uri : String → Option Error) (register : String → String → String → Option Error)
    (reply : String → Reply) (f g f' : FindX) (es : List Event)
    → f.metrics ≡ no_metrics
    → start parse_request_uri register f ≡ returns (g, none)
    → run reply g es ≡ returns f'
    → IsDone f'
    → (f'.enabled ≡ false)
      × (f'.ch ≡ [])
      × (f'.metrics.add_suc
          ≡ (f'.metrics.sent_suc + f'.metrics.sent_fail + f'.metrics.sent_rej) % int_mod)
IsDone-drained parse_request_uri register reply f g f' es fresh started e d =
    let v = run-start-Inv parse_request_uri register reply f g f' es fresh started e in
    (ground arith, ground arith, ground arith)

-- What the threads have left to do.
abbrev pub work : FindX → ℕ
work f = (3 * length f.ch + 2 * length f.in_flight) + f.waiting

module _ (reply : String → Reply) where
  pub request-returns :
      (f : FindX) (id : String)
      → CanAsk reply f.url f.keyspace id
      → (m : Metrics) × (process reply f.url f.keyspace id f.metrics ≡ returns m)
  request-returns f id made = elim (Run-cases (process reply f.url f.keyspace id f.metrics)) [
    | inl done ↦ done
    | inr broken ↦
        let (u, asks, bad) = process-panics reply f.url f.keyspace id f.metrics broken in
        absurd (made u asks bad)
  ]

  pub first_ends :
      (f : FindX) (id : String) (flying : List String) (m : Metrics)
      → f.in_flight ≡ id ∷ flying
      → process reply f.url f.keyspace id f.metrics ≡ returns m
      → step reply f (ends_request 0)
        ≡ returns (record f { metrics = m; in_flight = flying; waiting = suc f.waiting })
  unfolding step
  first_ends f id flying m g sent = ground arith
