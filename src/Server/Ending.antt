-- ===== src/Server/Ending.antt =====
-- cmd/xdas/xdas.go: `shutdown` ends.
use xdas.Prelude.{
  if_true, if_false, ◌+◌, ◌*◌, ◌≤◌, String, List, [], ◌∷◌, Option, some, Bool, true, false, nat_eq,
  length, if◌then◌else◌, returns, All, ◌≡◌, ◌⊎◌, refl, ap, ◌∙◌, inl, inr, arith,
}
use xdas.Errors.{Error}
use xdas.FindX.{FindX, Reply, Event, close, run}
use xdas.FindX.Panics.{CanAsk}
use xdas.FindX.Draining.{IsDone}
use xdas.FindX.Soundness.{run-disabled}
use xdas.FindX.Fairness.{IsRound, joined, fair-close-IsDone}
use xdas.Server.Config.{KeyspaceConfig}
use xdas.Server.State.{World}
use xdas.Server.Shutdown.{
  has_ended, close_and_wait, close_all, Down, shutdown, ends, waits, finish_main,
}

-- A service can end: it is not enabled, or no caller of `Add` is between its test and its `select`, the
-- requests for the ids that it still has can be made, and what happens to it meanwhile is fair for long
-- enough.
abbrev pub CanEnd : (String → Reply) → List Event → FindX → Type 0
CanEnd reply events f =
    (f.enabled ≡ false)
    ⊎ ((f.enabled ≡ true)
        × (f.adding ≡ [])
        × All (CanAsk reply f.url f.keyspace) f.ch
        × All (CanAsk reply f.url f.keyspace) f.in_flight
        × ((rounds : List (List Event)) × (events ≡ joined rounds)
            × All IsRound rounds
            × ((3 * length f.ch + 2 * length f.in_flight) + f.waiting ≤ length rounds)))

-- What a service has become.
abbrev pub Closed : FindX → FindX → Type 0
Closed f f' = (f'.enabled ≡ false) × ((f' ≡ f) ⊎ IsDone f')

-- Each keyspace has a service that can end.
abbrev pub AllCanEnd :
    (String → Reply) → (String → List Event) → List (String × KeyspaceConfig) → Type 0
AllCanEnd reply meanwhile =
    All (λ (k, c). (f : FindX) × (c.find_x ≡ some f) × CanEnd reply (meanwhile k) f)

-- The keyspaces are the same, but for their services, which are closed.
abbrev pub AllClosed : List (String × KeyspaceConfig) → List (String × KeyspaceConfig) → Type 0
AllClosed [] [] = Unit
AllClosed [] (x ∷ out) = ⊥
AllClosed (x ∷ ks) [] = ⊥
AllClosed ((k, c) ∷ ks) ((k', c') ∷ out) =
    ((f : FindX) × (f' : FindX) × (k' ≡ k)
      × (c.find_x ≡ some f)
      × (c' ≡ record c { find_x = some f' })
      × Closed f f')
    × AllClosed ks out

finish_main-done :
    {S : Type 0} (b : Bool) (d : Down S)
    → d.done ≡ true
    → finish_main b (some d) ≡ ends (if b then 0 else 1)
unfolding finish_main
finish_main-done true d e = if_true d.done e (ends 0) waits
finish_main-done false d e = refl

module _ (reply : String → Reply) (meanwhile : String → List Event) where
  has_ended-IsDone : (f : FindX) → IsDone f → has_ended f ≡ true
  has_ended-IsDone f d = ground (arith, ap length d.none_sending)

  close-disabled : (f : FindX) → (close f).enabled ≡ false
  unfolding close
  close-disabled f = ground arith

  close_and_wait-Closed :
      (k : String) (f : FindX)
      → CanEnd reply (meanwhile k) f
      → (f' : FindX) × (close_and_wait reply meanwhile k f ≡ returns (some f')) × Closed f f'
  unfolding close_and_wait
  close_and_wait-Closed k f (inl off) = (f, if_false f.enabled off _ _, (off, inl refl))
  close_and_wait-Closed k f (inr (on, nobody, waiting, flying, (rounds, same, fair, enough))) =
      let (f', ran, done) = fair-close-IsDone reply f rounds on nobody waiting flying fair enough in
      let waited : run reply (close f) (meanwhile k) ≡ returns f' =
        ap (run reply (close f)) same ∙ ran in
      (
        f',
        if_true f.enabled on _ _ ∙ rw (waited) (rw (has_ended-IsDone f' done) refl),
        (run-disabled reply (close f) f' (meanwhile k) waited (close-disabled f), inr done),
      )

  close_all-AllClosed :
      (ks : List (String × KeyspaceConfig))
      → AllCanEnd reply meanwhile ks
      → (out : List (String × KeyspaceConfig)) × (close_all reply meanwhile ks ≡ returns (some out))
        × AllClosed ks out
  unfolding close_all
  close_all-AllClosed [] h = ([], refl, tt)
  close_all-AllClosed ((k, c) ∷ rest) ((f, given, can), others) =
      let (f', closed, ended) = close_and_wait-Closed k f can in
      let (out, looped, all) = close_all-AllClosed rest others in
      (
        (k, record c { find_x = some f' }) ∷ out,
        rw (given, close_all) (rw closed (rw looped refl)),
        ((f, f', refl, given, refl, ended), all),
      )

  -- If, when the web server is shut down, every keyspace has a service that is disabled, or that no caller
  -- of `Add` is about to enter, that can make the requests for the ids it still has, and of which the
  -- steps that follow are fair for three rounds for each id in its channel, two for each at a request and
  -- one for each waiting thread, then, whatever errors the web server and the Redis client report,
  -- `shutdown` does not panic and comes to its end: every service is disabled, and one that was enabled has
  -- no thread left; and `main` exits with 0 if the web server was closed, and with 1 otherwise.
  pub shutdown-ends :
      {S : Type 0} (web_shutdown : World S → World S × Option Error) (redis_close : Option Error)
      (s : World S) (server_closed : Bool)
      → AllCanEnd reply meanwhile (web_shutdown s).0.config.keyspaces
      → (d : Down S) × (shutdown reply meanwhile web_shutdown redis_close s ≡ returns (some d))
        × AllClosed (web_shutdown s).0.config.keyspaces d.world.config.keyspaces
        × (finish_main server_closed (some d) ≡ ends (if server_closed then 0 else 1))
  unfolding shutdown finish_main
  shutdown-ends web_shutdown redis_close s server_closed h =
      let (out, looped, all) = close_all-AllClosed (web_shutdown s).0.config.keyspaces h in
      let quiet = (web_shutdown s).0 in
      (
        record {
          world = record quiet { config = record quiet.config { keyspaces = out } };
          keep_alives = false;
          redis_open = false;
          done = true;
        },
        rw looped refl,
        all,
        finish_main-done server_closed _ refl,
      )
