-- ===== src/FindX/Fairness.antt =====
-- internal/findx/findx.go: `Close` waits no longer than a fair schedule of the threads needs.
use xdas.Prelude.{
  ℕ, zero, suc, ◌+◌, ◌*◌, ◌≤◌, ◌<◌, String, List, [], ◌∷◌, ◌++◌, true, length, All, returns, ◌≡◌,
  refl, sym, ap, ◌∙◌, and_then-eq-returns, subst, ◌⊎◌, inl, inr, arith,
}
use mathlib.Core.List.{Memᴰ}
use xdas.FindX.Requests.{Reply}
use xdas.FindX.Service.{FindX, close}
use xdas.FindX.Workers.{Event, receives, ends_request, leaves, step, run}
use xdas.FindX.Panics.{CanAsk}
use xdas.FindX.Draining.{IsDone, work, request-returns, first_ends}
use xdas.FindX.Progress.{IsClosing, AllAsked, Moves, step-Steps}

-- A round of a fair schedule: any events, and among them one of each kind of step of a thread.
pub record IsRound (es : List Event) : Type 0 where
  pub receives_once : Memᴰ receives es
  pub ends_once : Memᴰ (ends_request 0) es
  pub leaves_once : Memᴰ leaves es

abbrev pub joined : List (List Event) → List Event
joined [] = []
joined (es ∷ rounds) = es ++ joined rounds

length-zero : (xs : List String) → length xs ≡ 0 → xs ≡ []
length-zero [] e = refl
length-zero (x ∷ xs) e = absurd (omega arith)

module _ (reply : String → Reply) where
  done-idle : (f f' : FindX) → IsDone f → 0 < f.waiting + length f.in_flight → ⊥
  done-idle f f' d busy =
      let none_flying = ap (length {A = String}) d.none_sending in
      let none_waiting = d.none_waiting in omega arith

  -- A thread that waits at a closed channel, or is at a request, changes something.
  idle-IsDone :
      (f : FindX) (ch flying : List String) (waiting : ℕ)
      → IsClosing reply f
      → f.ch ≡ ch
      → f.in_flight ≡ flying
      → f.waiting ≡ waiting
      → step reply f receives ≡ returns f
      → step reply f (ends_request 0) ≡ returns f
      → step reply f leaves ≡ returns f
      → IsDone f
  unfolding step
  idle-IsDone f ch (id ∷ flying) waiting c e g w r s l =
      let (asked, others) = subst (AllAsked reply f) g c.flying_asked in
      let (m, sent) = request-returns reply f id asked in
      let moved = first_ends reply f id flying m g sent in absurd (ground arith)
  idle-IsDone f (id ∷ ch) [] (suc waiting) c e g w r s l = absurd (ground arith)
  idle-IsDone f [] [] (suc waiting) c e g w r s l = let shut = c.shut in absurd (ground arith)
  idle-IsDone f ch [] zero c e g w r s l = record { none_waiting = w; none_sending = g }

  -- What a list of events does: nothing at all, or it leaves less to do.
  Ends : FindX → List Event → FindX → Type 0
  Ends f es f' =
      ((f' ≡ f) × ((e : Event) → Memᴰ e es → step reply f e ≡ returns f))
      ⊎ ((work f' < work f) × (0 < f.waiting + length f.in_flight))

  idle-more :
      (f : FindX) (e : Event) (es : List Event)
      → step reply f e ≡ returns f
      → ((d : Event) → Memᴰ d es → step reply f d ≡ returns f)
      → (d : Event) → Memᴰ d (e ∷ es)
      → step reply f d ≡ returns f
  idle-more f e es now later d (Memᴰ.head same) = rw same now
  idle-more f e es now later d (Memᴰ.tail m) = later d m

  Ends-more :
      (f next f' : FindX) (e : Event) (es : List Event)
      → step reply f e ≡ returns next
      → Moves reply f next
      → Ends next es f'
      → Ends f (e ∷ es) f'
  unfolding Ends
  Ends-more f next f' e es now (inl still) (inl (same, later)) = inl (
    cc,
    idle-more f e es (cc)
        (subst (λ g. (d : Event) → Memᴰ d es → step reply g d ≡ returns g) still later),
  )
  Ends-more f next f' e es now (inl still) (inr less) =
      subst (λ g. Ends f (e ∷ es) f') still (inr (rw still at less))
  Ends-more f next f' e es now (inr (less, busy)) (inl (same, later)) =
      inr (rw (sym same) at less, busy)
  Ends-more f next f' e es now (inr (less, busy)) (inr (less', busy')) = inr (omega arith, busy)

  run-Ends :
      (f : FindX) (es : List Event)
      → IsClosing reply f
      → (f' : FindX) × (run reply f es ≡ returns f') × (IsClosing reply f' × Ends f es f')
  unfolding run Ends
  run-Ends f [] c = (f, refl, (c, inl (refl, λ d m. elim m [ ])))
  run-Ends f (e ∷ es) c =
      let (next, stepped, (c', moved)) = step-Steps reply f e c in
      let (f', ran, (closing, ends)) = run-Ends next es c' in
      (f', rw (stepped, run) ran, (closing, Ends-more f next f' e es stepped moved ends))

  run-done :
      (f : FindX) (es : List Event) → IsClosing reply f → IsDone f → run reply f es ≡ returns f
  unfolding Ends
  run-done f es c d =
      let (f', ran, (closing, ends)) = run-Ends f es c in
      elim ends [
        | inl (same, idle) ↦ ran ∙ ap returns same
        | inr (less, busy) ↦ absurd (done-idle f f' d busy)
      ]

  run-append :
      (f g : FindX) (es rest : List Event)
      → run reply f es ≡ returns g
      → run reply f (es ++ rest) ≡ run reply g rest
  unfolding run
  run-append f g [] rest e = cc
  run-append f g (e ∷ es) rest ran =
      let (next, stepped, later) = and_then-eq-returns (step reply f e) _ ran in
      rw (stepped, run) (run-append next g es rest later)

  rounds-IsDone :
      (rounds : List (List Event)) (f : FindX)
      → IsClosing reply f
      → All IsRound rounds
      → work f ≤ length rounds
      → (f' : FindX) × (run reply f (joined rounds) ≡ returns f') × IsDone f'
  unfolding run Ends
  rounds-IsDone [] f c r h = (
    f,
    refl,
    record { none_waiting = omega arith; none_sending = length-zero f.in_flight (omega arith) },
  )
  rounds-IsDone (es ∷ rounds) f c (r, rs) h =
      let (f', ran, (closing, ends)) = run-Ends f es c in
      elim ends [
        | inr (less, busy) ↦
            let (last, rest, done) = rounds-IsDone rounds f' closing rs (omega arith) in
            (last, run-append f f' es (joined rounds) ran ∙ rest, done)
        | inl (same, idle) ↦
            let done =
              idle-IsDone f f.ch f.in_flight f.waiting c refl refl refl
                (idle receives r.receives_once) (idle (ends_request 0) r.ends_once)
                (idle leaves r.leaves_once) in
            (
              f,
              run-append f f es (joined rounds) (ran ∙ ap returns same)
                  ∙ run-done f (joined rounds) c done,
              done,
            )
      ]

  -- After `Close` of an enabled service, with no caller of `Add` between its test and its `select`,
  -- and if the requests for the ids in its channel and for those that are at a request can be made:
  -- whatever the callers and threads do, if their steps can be cut into rounds that each hold a receive,
  -- the end of the first request and a leave, then after three rounds for each id in the channel, two
  -- for each at a request and one for each waiting thread, no step has panicked and every thread has
  -- called `wg.Done`, so the wait of `Close` is over.
  pub fair-close-IsDone :
      (f : FindX) (rounds : List (List Event))
      → f.enabled ≡ true
      → f.adding ≡ []
      → All (CanAsk reply f.url f.keyspace) f.ch
      → All (CanAsk reply f.url f.keyspace) f.in_flight
      → All IsRound rounds
      → (3 * length f.ch + 2 * length f.in_flight) + f.waiting ≤ length rounds
      → (f' : FindX) × (run reply (close f) (joined rounds) ≡ returns f') × IsDone f'
  unfolding close
  fair-close-IsDone f rounds e nobody waiting flying r h =
      rounds-IsDone rounds (close f)
        (record {
          shut = rw e refl;
          refuses = rw e refl;
          none_adding = rw e nobody;
          ch_asked = rw e waiting;
          flying_asked = rw e flying;
        })
        r (rw e h)
