-- ===== src/FindX/Progress.antt =====
-- internal/findx/findx.go: after `Close` each step of a thread leaves less to do.
use xdas.Prelude.{
  ℕ, zero, suc, ◌+◌, ◌<◌, String, List, [], ◌∷◌, Bool, true, false, length, returns, ◌≡◌, refl, ◌⊎◌,
  inl, inr, arith, Option-cases, Option, none, some, All, ap, subst,
}
use xdas.FindX.Requests.{Reply}
use xdas.FindX.Service.{FindX, reject, close}
use xdas.FindX.Workers.{
  Event, tests_add, selects_add, rejects, closes, receives, ends_request, leaves, pick, receive,
  leave, step,
}
use xdas.FindX.Threads.{length-pick}
use xdas.FindX.Panics.{CanAsk}
use xdas.FindX.Draining.{work, request-returns}

module _ (reply : String → Reply) where
  -- The requests for some ids can be made.
  abbrev pub AllAsked : FindX → List String → Type 0
  AllAsked f ids = All (CanAsk reply f.url f.keyspace) ids

  -- After `Close`, with no caller of `Add` between its test and its `select`, where the requests for the
  -- ids that the service still has can be made.
  pub record IsClosing (f : FindX) : Type 0 where
    pub shut : f.closed ≡ true
    pub refuses : f.enabled ≡ false
    pub none_adding : f.adding ≡ []
    pub ch_asked : AllAsked f f.ch
    pub flying_asked : AllAsked f f.in_flight

  -- A step changes nothing, or is a step of a thread that is not done and leaves less to do.
  abbrev pub Moves : FindX → FindX → Type 0
  Moves f f' = (f' ≡ f) ⊎ ((work f' < work f) × (0 < f.waiting + length f.in_flight))

  abbrev pub Steps : FindX → FindX → Type 0
  Steps f f' = IsClosing f' × Moves f f'

  receive-Steps :
      (f : FindX) (xs : List String) (n : ℕ)
      → f.ch ≡ xs
      → f.waiting ≡ n
      → IsClosing f
      → Steps f (receive f xs n)
  receive-Steps f [] n e w c = (c, inl refl)
  receive-Steps f (id ∷ rest) zero e w c = (c, inl refl)
  receive-Steps f (id ∷ rest) (suc waiting) e w c =
      let (first, others) = subst (AllAsked f) e c.ch_asked in
      (
        record {
          shut = c.shut;
          refuses = c.refuses;
          none_adding = c.none_adding;
          ch_asked = others;
          flying_asked = (first, c.flying_asked);
        },
        inr (ground arith),
      )

  leave-Steps :
      (f : FindX) (xs : List String) (b : Bool) (n : ℕ)
      → f.waiting ≡ n
      → IsClosing f
      → Steps f (leave f xs b n)
  leave-Steps f [] true (suc waiting) w c = (
    record {
      shut = c.shut;
      refuses = c.refuses;
      none_adding = c.none_adding;
      ch_asked = c.ch_asked;
      flying_asked = c.flying_asked;
    },
    inr (ground arith),
  )
  leave-Steps f [] true zero w c = (c, inl refl)
  leave-Steps f [] false n w c = (c, inl refl)
  leave-Steps f (id ∷ rest) b n w c = (c, inl refl)

  -- The id that is picked can be asked for, and so can the others.
  pick-All :
      (P : String → Type 0) (n : ℕ) (xs ys : List String) (y : String)
      → pick n xs ≡ some (y, ys)
      → All P xs
      → P y × All P ys
  pick-All P n [] ys y e a = absurd (cc e)
  pick-All P zero (x ∷ xs) ys y e (p, ps) = (
    subst P (ap (λ r. elim r [ none ↦ y | some s ↦ s.0 ]) e) p,
    subst (All P) (ap (λ r. elim r [ none ↦ ys | some s ↦ s.1 ]) e) ps,
  )
  pick-All P (suc n) (x ∷ xs) ys y e (p, ps) = elim (Option-cases (pick n xs)) [
    | inl missed ↦ ground arith
    | inr ((z, zs), found) ↦
        let (picked, others) = pick-All P n xs zs z found ps in
        let same : ◌≡◌ {A = Option (String × List String)} (some (z, x ∷ zs)) (some (y, ys)) =
          rw found at e in
        (
          subst P (ap (λ r. elim r [ none ↦ y | some s ↦ s.0 ]) same) picked,
          subst (All P) (ap (λ r. elim r [ none ↦ ys | some s ↦ s.1 ]) same) (p, others),
        )
  ]

  request-Steps :
      (f : FindX) (n : ℕ)
      → IsClosing f
      → (f' : FindX) × (step reply f (ends_request n) ≡ returns f') × Steps f f'
  unfolding step
  request-Steps f n c = elim (Option-cases (pick n f.in_flight)) [
    | inl nobody ↦ (f, rw (nobody, step) refl, (c, inl refl))
    | inr ((id, rest), found) ↦
        let (asked_for, others) =
          pick-All (CanAsk reply f.url f.keyspace) n f.in_flight rest id found c.flying_asked in
        let (m, sent) = request-returns reply f id asked_for in
        let less = length-pick n f.in_flight rest id found in
        (
          record f { metrics = m; in_flight = rest; waiting = suc f.waiting },
          rw (found, step) (rw (sent, step) refl),
          (
            record {
              shut = c.shut;
              refuses = c.refuses;
              none_adding = c.none_adding;
              ch_asked = c.ch_asked;
              flying_asked = others;
            },
            inr (omega arith, omega arith),
          ),
        )
  ]

  pub step-Steps :
      (f : FindX) (e : Event)
      → IsClosing f
      → (f' : FindX) × (step reply f e ≡ returns f') × Steps f f'
  unfolding step reject close
  step-Steps f (tests_add id) c = (f, rw c.refuses refl, (c, inl refl))
  step-Steps f (selects_add n) c = (f, rw c.none_adding refl, (c, inl refl))
  step-Steps f rejects c = (f, rw c.refuses refl, (c, inl refl))
  step-Steps f closes c = (f, rw c.refuses refl, (c, inl refl))
  step-Steps f receives c =
      (receive f f.ch f.waiting, refl, receive-Steps f f.ch f.waiting refl refl c)
  step-Steps f (ends_request n) c = request-Steps f n c
  step-Steps f leaves c =
      (leave f f.ch f.closed f.waiting, refl, leave-Steps f f.ch f.closed f.waiting refl c)
