-- ===== src/Server/System/Steps.antt =====
-- cmd/xdas with internal/findx: what every step of the running server keeps.
use xdas.Prelude.{
  String, ◌++◌, some, Run, returns, zero, lookup, string_eq, ◌==◌, nat_eq, ◌≡◌, lookup-insert,
  str_eq→eq, ◌⊎◌, ◌∙◌, sym, ap, subst, inl, inr, Bool-cases,
}
use xdas.Conversion.Counting.{IsCounted}
use xdas.FindX.{FindX, Reply, Event, tests_add, selects_add, rejects, step, reject}
use xdas.FindX
use xdas.FindX.Soundness.{add_steps}
use xdas.Server.Http.{Response, new_response}
use xdas.Server.Store.{Redis, redis_key}
use xdas.Server.State.{World, Services, with_find_x, find_x_pld}
use xdas.Server.Tame.{Known, none_new}
use xdas.Server.Serving.{Recounts, Recounting, serve-Recounting}
use xdas.Server.System.{Step, answers, looks_up, works, changes, Reach, here, later}
use xdas.Server.System.Holding.{Holds, Holds-tame, with_find_x-returns, Holds-with_find_x}

-- What the goroutine of `findX` does: one call of the service of the keyspace pld.
pld_call :
    {S : Type 0} (redis : Redis S) (id : String) (s s' : World S)
    → find_x_pld redis id s ≡ returns s'
    → (with_find_x "pld" s (λ f. returns (reject f)) ≡ returns s')
      ⊎ (with_find_x "pld" s (λ f. FindX.add f id) ≡ returns s')
unfolding find_x_pld
pld_call redis id s s' e = elim (Bool-cases (redis.exists s.store (redis_key "pa" id) == 0)) [
  | inl missing ↦ inl (rw (missing, find_x_pld) at e)
  | inr present ↦ inr (rw (present, find_x_pld) at e)
]

module _ {S Message : Type 0} (services : Services S Message) (version_text : String)
    (reply : String → Reply) where
  serves :
      (s s' : World S) (w : Response) (run : Run (World S × Response))
      → run ≡ returns (s', w)
      → Recounting s run
      → Recounts s s'
  serves s s' w run e h = subst (Recounting s) e h

  module _ (P : String → FindX → Type 0)
      (keep : (k : String) (f f' : FindX) (e : Event)
        → step reply f e ≡ returns f'
        → P k f
        → P k f') where
    keep_add :
        (k : String) (f f' : FindX) (id : String) → FindX.add f id ≡ returns f' → P k f → P k f'
    keep_add k f f' id e p = elim (add_steps reply f f' id e) [
      | inl same ↦ subst (P k) (sym same) p
      | inr (g, tested, selected) ↦
          keep k g f' (selects_add zero) selected (keep k f g (tests_add id) tested p)
    ]

    keep_reject : (k : String) (f f' : FindX) → returns (reject f) ≡ returns f' → P k f → P k f'
    unfolding step
    keep_reject k f f' e p = keep k f f' rejects e p

    -- What the steps of a service keep, every step of the server keeps of each service.
    pub Step-Holds :
        {s s' : World S} → Step services version_text reply s s' → Holds P s → Holds P s'
    Step-Holds {s} {s'} (answers m e r w ran) h =
        let (t, v, same) =
          serves s s' w _ ran (serve-Recounting services version_text m e s r new_response) in
        let kept = Holds-tame P keep_add s t v h in
        λ k c known.
          kept k c (ap {A = World S} (λ u. lookup k u.config.keyspaces) (sym same) ∙ known)
    Step-Holds {s} {s'} (looks_up before id after listed ran) h =
        let less : World S = record s { spawned = before ++ after } in
        elim (pld_call services.redis id less s' ran) [
          | inl rejected ↦ Holds-with_find_x P "pld" less s' _ (keep_reject "pld") rejected h
          | inr added ↦
              Holds-with_find_x P "pld" less s' _ (λ f f' e. keep_add "pld" f f' id e) added h
        ]
    Step-Holds {s} {s'} (works keyspace e ran) h =
        Holds-with_find_x P keyspace s s' _ (λ f f' stepped. keep keyspace f f' e stepped) ran h
    Step-Holds (changes store) h = h

    pub Reach-Holds :
        {s s' : World S} → Reach services version_text reply s s' → Holds P s → Holds P s'
    Reach-Holds here h = h
    Reach-Holds (later reached stepped) h = Step-Holds stepped (Reach-Holds reached h)

  -- No keyspace is new, and each stays as countable as it was.
  abbrev pub Countable : World S → World S → Type 0
  Countable s s' =
      (k : String) → Known k s' → Known k s × (IsCounted k s.metrics → IsCounted k s'.metrics)

  call-Countable :
      (keyspace : String) (s s' : World S) (call : FindX → Run FindX)
      → with_find_x keyspace s call ≡ returns s'
      → Countable s s'
  call-Countable keyspace s s' call e =
      let (c, f, f', known, given, ran, same) = with_find_x-returns keyspace s s' call e in
      subst (Countable s) same (λ k (d, found). (
        elim (Bool-cases (keyspace == k)) [
          | inl hit ↦ (
            c,
            subst (λ j. lookup j s.config.keyspaces ≡ some c) (str_eq→eq keyspace k hit) known,
          )
          | inr miss ↦ (
            d,
            rw (lookup-insert keyspace k (record c { find_x = some f' }) s.config.keyspaces, miss)
                at found,
          )
        ],
        λ h. h,
      ))

  pub Step-Countable : {s s' : World S} → Step services version_text reply s s' → Countable s s'
  Step-Countable {s} {s'} (answers m e r w ran) =
      let (t, v, same) =
        serves s s' w _ ran (serve-Recounting services version_text m e s r new_response) in
      subst (Countable s) (sym same) (λ k known. (none_new s t v k known, v.countable k))
  Step-Countable {s} {s'} (looks_up before id after listed ran) =
      let less : World S = record s { spawned = before ++ after } in
      elim (pld_call services.redis id less s' ran) [
        | inl rejected ↦ call-Countable "pld" less s' _ rejected
        | inr added ↦ call-Countable "pld" less s' _ added
      ]
  Step-Countable {s} {s'} (works keyspace e ran) = call-Countable keyspace s s' _ ran
  Step-Countable (changes store) = λ k known. (known, λ h. h)
