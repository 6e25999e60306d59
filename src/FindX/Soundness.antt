-- ===== src/FindX/Soundness.antt =====
-- internal/findx/findx.go: what every step keeps, of a service that was started and of one that was not.
use xdas.Prelude.{
  suc, String, List, [], ◌∷◌, true, false, zero, returns, and_then-eq-returns, returns-inj, ◌≡◌,
  refl, ap, sym, ◌∙◌, ◌⊎◌, inl, inr, arith, Option-cases, Bool, ℕ, if◌then◌else◌,
}
use xdas.FindX.Requests.{Reply, process}
use xdas.FindX.Service
use xdas.FindX.Service.{FindX, send, reject, close}
use xdas.FindX.Workers.{
  Event, tests_add, selects_add, rejects, closes, receives, ends_request, leaves, pick, receive,
  leave, step, run,
}
use xdas.FindX.Threads.{Inv, step-Inv}

-- A service is disabled, or its accounting holds.
abbrev pub IsSound : FindX → Type 0
IsSound f = (f.enabled ≡ false) ⊎ Inv f

-- Such a service is not both enabled and closed.
pub IsSound-shut : (f : FindX) → IsSound f → (f.closed ≡ false) ⊎ (f.enabled ≡ false)
IsSound-shut f (inl off) = inr off
IsSound-shut f (inr v) = v.shut

send-enabled : (f f' : FindX) (id : String) → send f id ≡ returns f' → f'.enabled ≡ f.enabled
unfolding send
send-enabled f f' id e = ground arith

receive-enabled : (f : FindX) (xs : List String) (n : ℕ) → (receive f xs n).enabled ≡ f.enabled
receive-enabled f (id ∷ rest) (suc waiting) = refl
receive-enabled f [] n = refl
receive-enabled f (id ∷ rest) zero = refl

leave-enabled :
    (f : FindX) (xs : List String) (b : Bool) (n : ℕ) → (leave f xs b n).enabled ≡ f.enabled
leave-enabled f [] true (suc waiting) = refl
leave-enabled f [] true zero = refl
leave-enabled f [] false n = refl
leave-enabled f (id ∷ rest) b n = refl

module _ (reply : String → Reply) where
  step-disabled :
      (f f' : FindX) (e : Event)
      → step reply f e ≡ returns f'
      → f.enabled ≡ false
      → f'.enabled ≡ false
  unfolding step reject close
  step-disabled f f' (tests_add id) e off = ground arith
  step-disabled f f' (selects_add n) e off = elim (Option-cases (pick n f.adding)) [
    | inl nobody ↦ ground arith
    | inr ((id, rest), found) ↦
        send-enabled (record f { adding = rest }) f' id (rw (found, step) at e) ∙ off
  ]
  step-disabled f f' rejects e off = ground arith
  step-disabled f f' closes e off = ground arith
  step-disabled f f' receives e off =
      ap (λ g. g.enabled) (sym (returns-inj e)) ∙ receive-enabled f f.ch f.waiting ∙ off
  step-disabled f f' (ends_request n) e off = elim (Option-cases (pick n f.in_flight)) [
    | inl nobody ↦ ground arith
    | inr ((id, rest), found) ↦
        let (counted, sent, after) =
          and_then-eq-returns (process reply f.url f.keyspace id f.metrics) _
            (rw (found, step) at e) in
        ap (λ g. g.enabled) (sym (returns-inj after)) ∙ off
  ]
  step-disabled f f' leaves e off =
      ap (λ g. g.enabled) (sym (returns-inj e)) ∙ leave-enabled f f.ch f.closed f.waiting ∙ off

  pub run-disabled :
      (f f' : FindX) (es : List Event)
      → run reply f es ≡ returns f'
      → f.enabled ≡ false
      → f'.enabled ≡ false
  unfolding run
  run-disabled f f' [] e off = ap (λ g. g.enabled) (sym (returns-inj e)) ∙ off
  run-disabled f f' (ev ∷ es) e off =
      let (next, stepped, rest) = and_then-eq-returns (step reply f ev) _ e in
      run-disabled next f' es rest (step-disabled f next ev stepped off)

  pub step-IsSound :
      (f f' : FindX) (e : Event) → step reply f e ≡ returns f' → IsSound f → IsSound f'
  step-IsSound f f' e stepped (inl off) = inl (step-disabled f f' e stepped off)
  step-IsSound f f' e stepped (inr v) = inr (step-Inv reply f f' e stepped v)

  -- A call of `Add` that returns is two steps of a caller, or changes nothing.
  pub add_steps :
      (f f' : FindX) (id : String)
      → Service.add f id ≡ returns f'
      → (f' ≡ f)
        ⊎ ((g : FindX) × (step reply f (tests_add id) ≡ returns g)
            × (step reply g (selects_add zero) ≡ returns f'))
  unfolding Service.add step
  add_steps f f' id e = go f.enabled refl e
    where
      go :
          (b : Bool)
          → f.enabled ≡ b
          → (if b then send f id else returns f) ≡ returns f'
          → (f' ≡ f)
            ⊎ ((g : FindX) × (step reply f (tests_add id) ≡ returns g)
                × (step reply g (selects_add zero) ≡ returns f'))
      go true on sent = inr (
        record f { adding = id ∷ f.adding },
        ap (λ b. returns (if b then record f { adding = id ∷ f.adding } else f)) on,
        sent,
      )
      go false off same = inl (sym (returns-inj same))
