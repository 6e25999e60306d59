-- ===== src/FindX/Panics.antt =====
-- internal/findx/findx.go: when a caller or a thread panics, which ends the whole process.
use xdas.Prelude.{
  ℕ, String, List, [], ◌∷◌, true, some, panics, ◌≡◌, refl, ◌≢◌, ◌⊎◌, inl, inr, arith, Bool-cases,
  Option-cases, Run-cases, ◌==◌, string_eq, split, Option, none, Run, returns, sym, ap, ◌∙◌, ◌↔◌,
  ◌<>◌, if◌then◌else◌,
}
use xdas.FindX.Metrics.{Metrics, inc_sent_fail}
use xdas.FindX.Requests.{
  Reply, not_created, not_answered, answered, get_req, run_id, run_dm, run_dm_parts, process,
}
use xdas.FindX.Service.{FindX, send, close}
use xdas.FindX.Workers.{
  Event, tests_add, selects_add, rejects, closes, receives, ends_request, leaves, pick, step, run,
}

get_req-panics : (r : Reply) (m : Metrics) → get_req r m ≡ panics → r ≡ not_created
unfolding get_req
get_req-panics not_created m e = refl
get_req-panics not_answered m e = cc
get_req-panics (answered code) m e = ground arith

module _ (url : String) where
  -- The URL of which a round of a thread makes a request, if it makes one.
  abbrev dm_asked : List String → Option String
  dm_asked (id ∷ devices ∷ rest) = some (url <> id <> "?devices=" <> devices)
  dm_asked ids = none

  unfoldable pub asked : String → String → Option String
  unfolding split
  asked keyspace id = if keyspace == "dm" then dm_asked (split "," id) else some (url <> id)

module _ (reply : String → Reply) (url : String) where
  -- A round by the request that it makes.
  round : Option String → Metrics → Run Metrics
  round none m = returns (inc_sent_fail m)
  round (some u) m = get_req (reply u) m

  run_dm_parts_lem :
      (ids : List String) (m : Metrics) → run_dm_parts reply url ids m ≡ round (dm_asked url ids) m
  unfolding run_dm_parts round
  run_dm_parts_lem [] m = refl
  run_dm_parts_lem (id ∷ []) m = refl
  run_dm_parts_lem (id ∷ devices ∷ rest) m = refl

  process_lem :
      (keyspace id : String) (m : Metrics)
      → process reply url keyspace id m ≡ round (asked url keyspace id) m
  unfolding process run_id run_dm asked round
  process_lem keyspace id m = elim (Bool-cases (keyspace == "dm")) [
    | inl dm ↦ rw (dm, process, asked) (run_dm_parts_lem (split "," id) m)
    | inr other ↦ rw (other, process, asked) refl
  ]

  -- The request of a round can be made.
  abbrev pub CanAsk : String → String → Type 0
  CanAsk keyspace id = (u : String) → asked url keyspace id ≡ some u → reply u ≢ not_created

  pub process-panics :
      (keyspace id : String) (m : Metrics)
      → process reply url keyspace id m ≡ panics
      → (u : String) × (asked url keyspace id ≡ some u) × (reply u ≡ not_created)
  unfolding round
  process-panics keyspace id m e = elim (Option-cases (asked url keyspace id)) [
    | inl idle ↦ absurd (counts (sym (rw idle at (process_lem keyspace id m)) ∙ e))
    | inr (u, asks) ↦
        (u, asks, get_req-panics (reply u) m (sym (rw asks at (process_lem keyspace id m)) ∙ e))
  ]
    where
      counts : ◌≡◌ {A = Run Metrics} (returns (inc_sent_fail m)) panics → ⊥
      counts h = cc

  -- The other way round.
  process_of_bad_url :
      (keyspace id u : String) (m : Metrics)
      → asked url keyspace id ≡ some u
      → reply u ≡ not_created
      → process reply url keyspace id m ≡ panics
  unfolding round get_req
  process_of_bad_url keyspace id u m asks bad = process_lem keyspace id m ∙ rw asks (rw bad refl)

-- The two causes of a panic.
abbrev pub LateAdd : FindX → Event → Type 0
LateAdd f e =
    (n : ℕ) × (id : String) × (rest : List String) × (e ≡ selects_add n)
    × (pick n f.adding ≡ some (id, rest))
    × (f.closed ≡ true)

-- A thread ends its request for an id of whose URL the HTTP library makes no request.
abbrev pub BadRequest : (String → Reply) → FindX → Event → Type 0
BadRequest reply f e =
    (n : ℕ) × (id : String) × (rest : List String) × (u : String) × (e ≡ ends_request n)
    × (pick n f.in_flight ≡ some (id, rest))
    × (asked f.url f.keyspace id ≡ some u)
    × (reply u ≡ not_created)

send-panics : (f : FindX) (id : String) → send f id ≡ panics → f.closed ≡ true
unfolding send
send-panics f id e = ground arith

send_of_closed : (f : FindX) (id : String) → f.closed ≡ true → send f id ≡ panics
unfolding send
send_of_closed f id e = rw e refl

module _ (reply : String → Reply) where
  panics-cause :
      (f : FindX) (e : Event) → step reply f e ≡ panics → LateAdd f e ⊎ BadRequest reply f e
  unfolding step
  panics-cause f (tests_add id) p = cc
  panics-cause f (selects_add n) p = elim (Option-cases (pick n f.adding)) [
    | inl nobody ↦ ground arith
    | inr ((id, rest), found) ↦ inl (
      n,
      id,
      rest,
      refl,
      found,
      send-panics (record f { adding = rest }) id (rw (found, step) at p),
    )
  ]
  panics-cause f rejects p = cc
  panics-cause f closes p = cc
  panics-cause f receives p = cc
  panics-cause f (ends_request n) p = elim (Option-cases (pick n f.in_flight)) [
    | inl nobody ↦ ground arith
    | inr ((id, rest), found) ↦ elim (Run-cases (process reply f.url f.keyspace id f.metrics)) [
      | inl (counted, sent) ↦ ground arith
      | inr broken ↦
          let (u, asks, bad) = process-panics reply f.url f.keyspace id f.metrics broken in
          inr (n, id, rest, u, refl, found, asks, bad)
    ]
  ]
  panics-cause f leaves p = cc

  cause-panics :
      (f : FindX) (e : Event) → LateAdd f e ⊎ BadRequest reply f e → step reply f e ≡ panics
  unfolding step
  cause-panics f e (inl (n, id, rest, same, found, closed)) =
      ap (step reply f) same
      ∙ rw (found, step) (send_of_closed (record f { adding = rest }) id closed)
  cause-panics f e (inr (n, id, rest, u, same, found, asks, bad)) =
      ap (step reply f) same
      ∙ rw (found, step)
          (rw (process_of_bad_url reply f.url f.keyspace id u f.metrics asks bad) refl)

  -- A step panics exactly where a caller of `Add` that has passed its test reaches the channel after it
  -- was closed, or where a thread ends its request for an id of whose URL, the one that `run` or
  -- `runDM` builds from it, the HTTP library makes no request.
  pub step_panics :
      (f : FindX) (e : Event) → (step reply f e ≡ panics) ↔ (LateAdd f e ⊎ BadRequest reply f e)
  step_panics f e = (panics-cause f e, cause-panics f e)

  -- In every enabled service, a caller of `Add` that passes its test before `Close`, and reaches the
  -- channel after it, panics.
  pub add-close-panics :
      (f : FindX) (id : String)
      → f.enabled ≡ true
      → run reply f (tests_add id ∷ closes ∷ selects_add 0 ∷ []) ≡ panics
  unfolding run step close send
  add-close-panics f id e = ground arith
