-- ===== src/FindX/Threads.antt =====
-- internal/findx/findx.go: the accounting of ids and threads, over every schedule.
use xdas.Prelude.{
  ℕ, zero, suc, ◌+◌, ◌%◌, ◌≤◌, ◌<◌, String, List, [], ◌∷◌, Bool, true, false, Option, none, some,
  length, length-append, returns, and_then-eq-returns, ◌≡◌, refl, subst, ◌⊎◌, inl, inr, arith,
  Bool-cases, Option-cases, int_mod, ◌==◌, string_eq, split,
}
use xdas.Errors.{Error}
use xdas.FindX.Metrics.{Metrics, no_metrics, inc_sent_suc, inc_sent_fail, inc_sent_rej}
use xdas.FindX.Requests.{
  Reply, not_created, not_answered, answered, get_req, run_id, run_dm, run_dm_parts, run_url,
  dm_url, process,
}
use xdas.FindX.Service.{FindX, start, send, reject, close}
use xdas.FindX.Workers.{
  Event, tests_add, selects_add, rejects, closes, receives, ends_request, leaves, pick, receive,
  leave, step, run,
}

-- One more request was counted, and nothing else.
abbrev pub CountsOne : Metrics → Metrics → Type 0
CountsOne m m' = (m' ≡ inc_sent_suc m) ⊎ ((m' ≡ inc_sent_fail m) ⊎ (m' ≡ inc_sent_rej m))

get_req-CountsOne : (r : Reply) (m m' : Metrics) → get_req r m ≡ returns m' → CountsOne m m'
unfolding get_req
get_req-CountsOne not_created m m' e = cc
get_req-CountsOne not_answered m m' e = inr (inl (cc))
get_req-CountsOne (answered code) m m' e = ground arith

run_dm_parts-CountsOne :
    (reply : String → Reply) (url : String) (ids : List String) (m m' : Metrics)
    → run_dm_parts reply url ids m ≡ returns m'
    → CountsOne m m'
unfolding run_dm_parts
run_dm_parts-CountsOne reply url [] m m' e = inr (inl (cc))
run_dm_parts-CountsOne reply url (id ∷ []) m m' e = inr (inl (cc))
run_dm_parts-CountsOne reply url (id ∷ devices ∷ rest) m m' e =
    get_req-CountsOne (reply (dm_url reply url id devices)) m m' e

process-CountsOne :
    (reply : String → Reply) (url keyspace id : String) (m m' : Metrics)
    → process reply url keyspace id m ≡ returns m'
    → CountsOne m m'
unfolding process run_id run_dm
process-CountsOne reply url keyspace id m m' e = elim (Bool-cases (keyspace == "dm")) [
  | inl dm ↦ run_dm_parts-CountsOne reply url (split "," id) m m' (rw (dm, process) at e)
  | inr other ↦ get_req-CountsOne (reply (run_url reply url id)) m m' (rw (other, process) at e)
]

-- The ids and the threads of a started service.
pub record Inv (f : FindX) : Type 0 where
  -- the channel holds no more than its size
  pub bounded : length f.ch ≤ f.channel_buffer_size
  -- each thread waits, is at a request, or has left
  pub threads : (f.waiting + length f.in_flight) + f.left ≡ f.thread
  -- each accepted id waits, is at a request, or was counted once, modulo the counters' size
  pub counted :
      f.metrics.add_suc
      ≡ (f.metrics.sent_suc
          + f.metrics.sent_fail
          + f.metrics.sent_rej
          + length f.ch
          + length f.in_flight)
        % int_mod
  -- a thread leaves only a closed channel that is empty, and then nothing is added
  pub drained : (f.left ≡ 0) ⊎ ((f.closed ≡ true) × (f.ch ≡ []))
  -- there is a thread
  pub staffed : 0 < f.thread
  pub shut : (f.closed ≡ false) ⊎ (f.enabled ≡ false)

pub length-pick :
    (n : ℕ) (xs ys : List String) (y : String)
    → pick n xs ≡ some (y, ys)
    → length xs ≡ suc (length ys)
length-pick n [] ys y e = cc
length-pick zero (x ∷ xs) ys y e = ground arith
length-pick (suc n) (x ∷ xs) ys y e = elim (Option-cases (pick n xs)) [
  | inl missed ↦ ground arith
  | inr ((z, zs), found) ↦ ground (arith, length-pick n xs zs z found)
]

send-Inv : (f f' : FindX) (id : String) → send f id ≡ returns f' → Inv f → Inv f'
unfolding send
send-Inv f f' id e v = ground (arith, length-append f.ch (id ∷ []))

receive-Inv :
    (f : FindX) (xs : List String) (n : ℕ)
    → f.ch ≡ xs
    → f.waiting ≡ n
    → Inv f
    → Inv (receive f xs n)
receive-Inv f (id ∷ rest) (suc waiting) e w v = ground arith
receive-Inv f [] n e w v = v
receive-Inv f (id ∷ rest) zero e w v = v

leave-Inv :
    (f : FindX) (xs : List String) (b : Bool) (n : ℕ)
    → f.ch ≡ xs
    → f.closed ≡ b
    → f.waiting ≡ n
    → Inv f
    → Inv (leave f xs b n)
leave-Inv f [] true (suc waiting) e c w v = ground arith
leave-Inv f [] true zero e c w v = v
leave-Inv f [] false n e c w v = v
leave-Inv f (id ∷ rest) b n e c w v = v

request-Inv :
    (f : FindX) (n : ℕ) (id : String) (rest : List String) (counted : Metrics)
    → pick n f.in_flight ≡ some (id, rest)
    → CountsOne f.metrics counted
    → Inv f
    → Inv (record f { metrics = counted; in_flight = rest; waiting = suc f.waiting })
request-Inv f n id rest counted found (inl e) v =
    ground (arith, length-pick n f.in_flight rest id found)
request-Inv f n id rest counted found (inr (inl e)) v =
    ground (arith, length-pick n f.in_flight rest id found)
request-Inv f n id rest counted found (inr (inr e)) v =
    ground (arith, length-pick n f.in_flight rest id found)

module _ (reply : String → Reply) where
  pub step-Inv : (f f' : FindX) (e : Event) → step reply f e ≡ returns f' → Inv f → Inv f'
  unfolding step reject close
  step-Inv f f' (tests_add id) e v = ground arith
  step-Inv f f' (selects_add n) e v = elim (Option-cases (pick n f.adding)) [
    | inl nobody ↦ ground arith
    | inr ((id, rest), found) ↦
        send-Inv (record f { adding = rest }) f' id (rw (found, step) at e) (ground arith)
  ]
  step-Inv f f' rejects e v = ground arith
  step-Inv f f' closes e v = ground arith
  step-Inv f f' receives e v = subst Inv (cc) (receive-Inv f f.ch f.waiting refl refl v)
  step-Inv f f' (ends_request n) e v = elim (Option-cases (pick n f.in_flight)) [
    | inl nobody ↦ ground arith
    | inr ((id, rest), found) ↦
        let (counted, sent, after) =
          and_then-eq-returns (process reply f.url f.keyspace id f.metrics) _
            (rw (found, step) at e) in
        subst Inv (cc) (
          request-Inv f n id rest counted found
            (process-CountsOne reply f.url f.keyspace id f.metrics counted sent) v)
  ]
  step-Inv f f' leaves e v = subst Inv (cc) (leave-Inv f f.ch f.closed f.waiting refl refl refl v)

  run-Inv : (f f' : FindX) (es : List Event) → run reply f es ≡ returns f' → Inv f → Inv f'
  unfolding run
  run-Inv f f' [] e v = subst Inv (cc) v
  run-Inv f f' (ev ∷ es) e v =
      let (next, stepped, rest) = and_then-eq-returns (step reply f ev) _ e in
      run-Inv next f' es rest (step-Inv f next ev stepped v)

module _ (parse_request_uri : String → Option Error)
    (register : String → String → String → Option Error) where
  pub start-Inv :
      (f g : FindX)
      → f.metrics ≡ no_metrics
      → start parse_request_uri register f ≡ returns (g, none)
      → Inv g
  unfolding start
  start-Inv f g fresh e = ground arith

  -- From a successful `Start` with fresh counters on, the accounting holds after every schedule of
  -- callers and threads that does not panic: the channel is never above its size, each thread waits,
  -- is at a request or has left, and each accepted id waits, is at a request, or was counted once.
  pub run-start-Inv :
      (reply : String → Reply) (f g f' : FindX) (es : List Event)
      → f.metrics ≡ no_metrics
      → start parse_request_uri register f ≡ returns (g, none)
      → run reply g es ≡ returns f'
      → Inv f'
  run-start-Inv reply f g f' es fresh started e =
      run-Inv reply g f' es e (start-Inv f g fresh started)
