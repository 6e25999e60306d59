-- ===== src/FindX/Fifo.antt =====
-- internal/findx/findx.go: the channel of the service as a bounded queue, in the order of `Add`.
pub mod Queue
use xdas.Prelude.{
  ℕ, zero, suc, subst, ◌+◌, ◌%◌, String, List, [], ◌∷◌, ◌++◌, Bool, true, false, Option, none, some,
  length, ltb, if◌then◌else◌, ◌==◌, nat_eq, string_eq, str_eq_refl, nat_beq-true, nat_beq-false,
  Run, returns, panics, ◌≡◌, refl, ◌≢◌, ◌⊎◌, inl, inr, arith, Bool-cases, Option-cases, sym, ◌∙◌,
  and_then-eq-returns, int_mod, lt→ltb, le→ltb,
}
use xdas.Errors.{Error}
use xdas.FindX.Metrics.{Metrics, incremented, inc_add_suc, inc_add_fail}
use xdas.FindX.Requests.{Reply, process}
use xdas.FindX.Service.{
  FindX, start, send, reject, close, at_least_one, default_channel_buffer_size,
}
use xdas.FindX.Workers.{
  Event, tests_add, selects_add, rejects, closes, receives, ends_request, leaves, pick, receive,
  leave, step, run,
}
use xdas.FindX.Fifo.Queue.{
  Label, silent, accepts, drops, takes, act, replay, replay-step, replay-order, accepted, taken,
}

-- What a step shows: an `Add` by the counter of accepted ids, and a receive by the requests.
abbrev pub first_of : List String → List String → Label
first_of before [] = silent
first_of before (id ∷ after) = if length before == length after then takes id else silent

abbrev pub added : ℕ → ℕ → Option (String × List String) → Label
added before after none = silent
added before after (some (id, rest)) = if before == after then drops id else accepts id

abbrev pub observed : FindX → FindX → Event → Label
observed f f' (selects_add n) = added f.metrics.add_suc f'.metrics.add_suc (pick n f.adding)
observed f f' receives = first_of f.in_flight f'.in_flight
observed f f' _ = silent

module _ (reply : String → Reply) where
  -- What a schedule shows, up to its end or to a panic.
  unfoldable pub trace : FindX → List Event → List Label
  unfolding step
  trace f [] = []
  trace f (e ∷ es) = elim (step reply f e) [
    | panics ↦ []
    | returns f' ↦ observed f f' e ∷ trace f' es
  ]

incremented≢ : (n : ℕ) → n ≢ incremented n
incremented≢ n e = omega arith

first_of-same : (xs : List String) → first_of xs xs ≡ silent
first_of-same [] = refl
first_of-same (x ∷ xs) = rw (nat_beq-false (suc (length xs)) (length xs) (omega arith)) refl

first_of-more : (id : String) (xs : List String) → first_of xs (id ∷ xs) ≡ takes id
first_of-more id xs = rw (nat_beq-true (length xs) (length xs) refl) refl

-- The channel makes the step that the label shows, and its size stays.
Shows : FindX → FindX → Event → Type 0
Shows f f' e =
    (act f.channel_buffer_size f.ch (observed f f' e) ≡ some f'.ch)
    × (f'.channel_buffer_size ≡ f.channel_buffer_size)

quiet-Shows :
    (f f' : FindX) (e : Event)
    → f'.ch ≡ f.ch
    → f'.channel_buffer_size ≡ f.channel_buffer_size
    → observed f f' e ≡ silent
    → Shows f f' e
unfolding Shows
quiet-Shows f f' e same size still = (rw still (cc), size)

accepts-Shows :
    (f : FindX) (id : String) (rest : List String) (n : ℕ)
    → pick n f.adding ≡ some (id, rest)
    → ltb (length f.ch) f.channel_buffer_size ≡ true
    → Shows f
        (record f { adding = rest; ch = f.ch ++ id ∷ []; metrics = inc_add_suc f.metrics })
        (selects_add n)
unfolding Shows
accepts-Shows f id rest n found room =
    let other = nat_beq-false _ _ (incremented≢ f.metrics.add_suc) in
    (rw found (rw other (rw room refl)), refl)

drops-Shows :
    (f : FindX) (id : String) (rest : List String) (n : ℕ)
    → pick n f.adding ≡ some (id, rest)
    → ltb (length f.ch) f.channel_buffer_size ≡ false
    → Shows f (record f { adding = rest; metrics = inc_add_fail f.metrics }) (selects_add n)
unfolding Shows
drops-Shows f id rest n found full =
    let same = nat_beq-true f.metrics.add_suc _ refl in (rw found (rw same (rw full refl)), refl)

send-Shows :
    (f f' : FindX) (id : String) (rest : List String) (n : ℕ)
    → pick n f.adding ≡ some (id, rest)
    → send (record f { adding = rest }) id ≡ returns f'
    → Shows f f' (selects_add n)
unfolding send
send-Shows f f' id rest n found e = elim (Bool-cases f.closed) [
  | inl shut ↦ absurd (panics≢ f' (rw (shut, send) at e))
  | inr opened ↦ elim (Bool-cases (ltb (length f.ch) f.channel_buffer_size)) [
    | inl room ↦
        let stepped = rw (opened, send) at (rw (room, send) at e) in
        subst (λ g. Shows f g (selects_add n)) (cc) (accepts-Shows f id rest n found room)
    | inr full ↦
        let stepped = rw (opened, send) at (rw (full, send) at e) in
        subst (λ g. Shows f g (selects_add n)) (cc) (drops-Shows f id rest n found full)
  ]
]
  where
    panics≢ : (g : FindX) → ◌≡◌ {A = Run FindX} panics (returns g) → ⊥
    panics≢ g m = cc

receive-Shows :
    (f : FindX) (xs : List String) (n : ℕ)
    → f.ch ≡ xs
    → f.waiting ≡ n
    → Shows f (receive f xs n) receives
unfolding Shows
receive-Shows f [] n e w = (rw (first_of-same f.in_flight) refl, refl)
receive-Shows f (id ∷ rest) zero e w = (rw (first_of-same f.in_flight) refl, refl)
receive-Shows f (id ∷ rest) (suc waiting) e w =
    (rw (first_of-more id f.in_flight) (rw e (rw (str_eq_refl id) refl)), refl)

leave-Shows : (f : FindX) (xs : List String) (b : Bool) (n : ℕ) → Shows f (leave f xs b n) leaves
unfolding Shows
leave-Shows f [] true (suc waiting) = (refl, refl)
leave-Shows f [] true zero = (refl, refl)
leave-Shows f [] false n = (refl, refl)
leave-Shows f (id ∷ rest) b n = (refl, refl)

start-empty :
    (parse_request_uri : String → Option Error) (register : String → String → String → Option Error)
    (f g : FindX)
    → start parse_request_uri register f ≡ returns (g, none)
    → g.ch ≡ []
unfolding start
start-empty parse_request_uri register f g e = ground arith

module _ (reply : String → Reply) where
  request-Shows :
      (f f' : FindX) (n : ℕ)
      → step reply f (ends_request n) ≡ returns f'
      → Shows f f' (ends_request n)
  unfolding Shows step
  request-Shows f f' n e = elim (Option-cases (pick n f.in_flight)) [
    | inl nobody ↦ ground arith
    | inr ((id, rest), found) ↦
        let (counted, sent, after) =
          and_then-eq-returns (process reply f.url f.keyspace id f.metrics) _
            (rw (found, step) at e) in
        (cc, cc)
  ]

  add-Shows :
      (f f' : FindX) (n : ℕ)
      → step reply f (selects_add n) ≡ returns f'
      → Shows f f' (selects_add n)
  unfolding step
  add-Shows f f' n e = elim (Option-cases (pick n f.adding)) [
    | inl nobody ↦ quiet-Shows f f' (selects_add n) (cc) (cc) (rw nobody refl)
    | inr ((id, rest), found) ↦ send-Shows f f' id rest n found (rw (found, step) at e)
  ]

  step-Shows : (f f' : FindX) (e : Event) → step reply f e ≡ returns f' → Shows f f' e
  unfolding step reject close
  step-Shows f f' (selects_add n) e = add-Shows f f' n e
  step-Shows f f' receives e =
      subst (λ g. Shows f g receives) (cc) (receive-Shows f f.ch f.waiting refl refl)
  step-Shows f f' (ends_request n) e = request-Shows f f' n e
  step-Shows f f' leaves e =
      subst (λ g. Shows f g leaves) (cc) (leave-Shows f f.ch f.closed f.waiting)
  step-Shows f f' (tests_add id) e =
      quiet-Shows f f' (tests_add id) (ground arith) (ground arith) refl
  step-Shows f f' rejects e = quiet-Shows f f' rejects (ground arith) (ground arith) refl
  step-Shows f f' closes e = quiet-Shows f f' closes (ground arith) (ground arith) refl

  run-replays :
      (f f' : FindX) (es : List Event) (cap : ℕ)
      → f.channel_buffer_size ≡ cap
      → run reply f es ≡ returns f'
      → replay cap f.ch (trace reply f es) ≡ some f'.ch
  unfolding trace run replay Shows
  run-replays f f' [] cap size ran = cc
  run-replays f f' (e ∷ es) cap size ran =
      let (next, stepped, rest) = and_then-eq-returns (step reply f e) _ ran in
      let (moved, kept) = step-Shows f next e stepped in
      rw (stepped, trace)
        (replay-step cap f.ch next.ch f'.ch (observed f next e) (trace reply next es)
          (rw (sym size) moved) (run-replays next f' es cap (kept ∙ size) rest))

  -- A successful `Start` and every schedule of callers and threads on it that does not panic run the
  -- queue of the specification, of the size that `Start` has set: each `Add` is accepted exactly when
  -- the queue is not full and is dropped otherwise, each receive gives the oldest id, and so the ids
  -- that were accepted are those that the threads have taken, in the same order and each once, and
  -- then those in the channel.
  pub run-refines-queue :
      (parse_request_uri : String → Option Error)
      (register : String → String → String → Option Error) (f started f' : FindX) (es : List Event)
      → start parse_request_uri register f ≡ returns (started, none)
      → run reply started es ≡ returns f'
      → let labels = trace reply started es in
        (replay started.channel_buffer_size [] labels ≡ some f'.ch)
        × (accepted labels ≡ taken labels ++ f'.ch)
  run-refines-queue parse_request_uri register f started f' es e ran =
      let labels = trace reply started es in
      let empty = start-empty parse_request_uri register f started e in
      let replayed = run-replays started f' es started.channel_buffer_size refl ran in
      let from_nothing =
        subst (λ xs. replay started.channel_buffer_size xs labels ≡ some f'.ch) empty replayed in
      (from_nothing, replay-order started.channel_buffer_size [] f'.ch labels from_nothing)
