-- ===== src/Examples/Running.antt =====
-- A server that runs, with one keyspace.
use xdas.Prelude.{
  ℕ, suc, String, List, [], ◌∷◌, Option, some, none, length, Result, ok, returns, Returns, ap, ◌≡◌,
  refl, lookup, string_eq, inl, inr, arith, utf8, Bytes, Bool-cases, ◌==◌, sym, true, false, ok-inj,
}
use xdas.Errors.{Error, external}
use xdas.FindX.Fairness.{joined}
use xdas.Server.{Down, shutdown, finish_main, ends}
use xdas.Server.Ending.{AllClosed, shutdown-ends}
use xdas.Examples.Scheduling.{four_rounds, four_rounds-IsRound}
use xdas.FindX.{FindX, receives}
use xdas.FindX.Threads.{Inv}
use xdas.Server.{
  Method, get, Endpoint, keyspace, healthz, multi, Entry, World, KeyspaceConfig, Labels,
  new_response, write_header, serve, Response,
}
use xdas.Server.Served.{OneEach}
use xdas.Server.System.{answers, works, changes, Reach, here, later}
use xdas.Server.System.Accounting.{Reach-Inv}
use xdas.Server.Lasting.{main-serves}
use xdas.Examples.FindX.{parses_all, registers_all, accepting}
use xdas.Examples.Lifecycle.{set_up, of_service, shutting}
use xdas.Examples.Serving.{Memory, services, world, get_request, entries}
use xdas.Examples.Setup.{
  counting, holding, sources, flags, from_json-fresh, up, starts_up, answering, answering_services,
}

length-entries : (s : Memory) (keys : List String) → length (entries s keys) ≡ length keys
length-entries s [] = refl
length-entries s (k ∷ ks) = ap suc (length-entries s ks)

memory-OneEach : OneEach answering_services
memory-OneEach store keys results e = cc (ap_length e, length-entries store keys)
  where
    ap_length :
        ◌≡◌ {A = Result Error (List Entry)} (ok (entries store keys)) (ok results)
        → length (entries store keys) ≡ length results
    ap_length m = ap length (ok-inj m)

abbrev filled_by_others : World Memory
filled_by_others = record answering { store = ("pa:{AB01}", 1 ∷ []) ∷ [] }

ran : Reach answering_services "1" accepting answering filled_by_others
unfolding serve xdas.Server.with_find_x lookup xdas.Prelude.insert xdas.FindX.step
ran =
    later (later (later here (answers get healthz get_request _ refl)) (works "pa" receives refl))
      (changes (("pa:{AB01}", 1 ∷ []) ∷ []))

main-serves_example :
    Returns
      (serve answering_services "1" get (multi "ab01") filled_by_others get_request new_response)
main-serves_example =
    main-serves answering_services "1" accepting memory-OneEach sources from_json-fresh parses_all
      registers_all counting holding [] flags up answering filled_by_others get (multi "ab01")
      get_request new_response starts_up refl refl refl ran (λ e. cc) (inr refl)

abbrev keeping : FindX → World Memory
keeping f = record world { config = record world.config { keyspaces = ("pa", of_service f) ∷ [] } }

-- After a GET of a value that is not there, and after a thread has taken its id.
abbrev asked : FindX
asked = record set_up { ch = "A" ∷ []; metrics = record set_up.metrics { add_suc = 1 } }

abbrev taken : FindX
taken = record asked { ch = []; waiting = 0; in_flight = "A" ∷ [] }

abbrev counted : World Memory → World Memory
counted s = record s {
  counter =
      record { app = "xdas"; code = 404; method = get; keyspace = "pa"; client = [] } ∷ s.counter;
  duration = 1;
}

asked_and_taken : Reach services "1" accepting (keeping set_up) (counted (keeping taken))
unfolding serve xdas.Server.with_find_x lookup xdas.Prelude.insert xdas.FindX.step xdas.FindX.add
asked_and_taken =
    later
      (later here
        (answers get (keyspace "pa" "a") get_request {s' = counted (keeping asked)} _ refl))
      (works "pa" receives refl)

pa_served :
    (j : String) (d : KeyspaceConfig)
    → lookup j (keeping set_up).config.keyspaces ≡ some d
    → (g : FindX) × (d.find_x ≡ some g)
unfolding lookup
pa_served j d found = elim (Bool-cases ("pa" == j)) [
  | inl hit ↦ (set_up, ap (λ c. c.find_x) (sym (some-inj (rw (hit, lookup) at found))))
  | inr miss ↦ absurd (nothing (rw (miss, lookup) at found))
]
  where
    some-inj : {a b : KeyspaceConfig} → ◌≡◌ {A = Option KeyspaceConfig} (some a) (some b) → a ≡ b
    some-inj m = cc

    nothing : ◌≡◌ {A = Option KeyspaceConfig} none (some d) → ⊥
    nothing m = cc

Reach-Inv_example :
    (c : KeyspaceConfig) × (f : FindX) × (f' : FindX) × (lookup {K = String} "pa"
        (keeping set_up).config.keyspaces
      ≡ some c)
    × (c.find_x ≡ some f)
    × ((of_service taken).find_x ≡ some f')
    × (Inv f → Inv f')
unfolding lookup
Reach-Inv_example =
    Reach-Inv services "1" accepting (keeping set_up) (counted (keeping taken)) "pa"
      (of_service taken) pa_served asked_and_taken refl

-- The web server does not become quiet in time, and is told so.
abbrev times_out : World Memory → World Memory × Option Error
times_out s = (s, some (external 3))

shutdown-ends_example :
    let ks = (keeping shutting).config.keyspaces in
    (d : Down Memory) × (shutdown accepting
        (λ k. joined four_rounds)
        times_out
        none
        (keeping shutting)
      ≡ returns (some d))
    × AllClosed ks d.world.config.keyspaces
    × (finish_main true (some d) ≡ ends 0)
shutdown-ends_example =
    shutdown-ends accepting (λ k. joined four_rounds) times_out none (keeping shutting) true
      (
        (
          shutting,
          refl,
          inr (
            refl,
            refl,
            ((λ u asks e. cc), tt),
            tt,
            (four_rounds, refl, four_rounds-IsRound, omega arith),
          ),
        ),
        tt,
      )
