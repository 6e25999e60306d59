-- ===== src/Server/Running.antt =====
-- cmd/xdas/xdas.go: what holds of the configured keyspaces once the server is set up.
use mathlib.Core.List.{Memᴰ}
use xdas.Prelude.{
  if_true, if_false, String, List, [], ◌∷◌, Option, none, some, true, false, Result, Run, returns,
  panics, and_then, and_then-eq-returns, lookup, ◌==◌, string_eq, ◌≡◌, refl, sym, ap, ◌∙◌, subst,
  inl, inr, arith, Bool-cases, Option-cases, str_eq→eq,
}
use xdas.Errors.{Error}
use xdas.Conversion.Counting.{IsCounted, init-IsCounted}
use xdas.FindX.{FindX, start, no_metrics}
use xdas.FindX.Threads.{Inv, start-Inv}
use xdas.Server.Config.{KeyspaceConfig}
use xdas.Server.Filled.{missing_empty, lookup_cons}
use xdas.Server.Lifecycle.{
  app_name, keys, new_convert, each_service, start_services, started_service,
}

lookup-Memᴰ :
    (k : String) (keyspaces : List (String × KeyspaceConfig)) (c : KeyspaceConfig)
    → lookup k keyspaces ≡ some c
    → Memᴰ k (keys keyspaces)
unfolding lookup
lookup-Memᴰ k [] c e = absurd (cc e)
lookup-Memᴰ k ((j, d) ∷ rest) c e = elim (Bool-cases (j == k)) [
  | inl hit ↦ Memᴰ.head (sym (str_eq→eq j k hit))
  | inr miss ↦ Memᴰ.tail (lookup-Memᴰ k rest c (rw (miss, lookup) at e))
]

-- Once the server has set up the conversions, those of every configured keyspace can be counted,
-- whatever the registry answers.
pub new_convert-IsCounted :
    {R : Type 0} (register : R → String → String → String → Result Error R) (reg : R)
    (keyspaces : List (String × KeyspaceConfig)) (k : String) (c : KeyspaceConfig)
    → lookup k keyspaces ≡ some c
    → IsCounted k (new_convert register reg keyspaces)
unfolding new_convert
new_convert-IsCounted register reg keyspaces k c e =
    init-IsCounted register (some reg) app_name (keys keyspaces) k (lookup-Memᴰ k keyspaces c e)

-- What a loop over the services has done to a keyspace.
each_service-lookup :
    (act : String → FindX → Run FindX) (keyspaces out : List (String × KeyspaceConfig)) (k : String)
    (c' : KeyspaceConfig)
    → each_service act keyspaces ≡ returns out
    → lookup k out ≡ some c'
    → (c : KeyspaceConfig) × (f : FindX) × (f' : FindX) × (lookup k keyspaces ≡ some c)
      × (c.find_x ≡ some f)
      × (act k f ≡ returns f')
      × (c' ≡ record c { find_x = some f' })
unfolding lookup
each_service-lookup act [] out k c' e h = absurd (missing_empty k out c' (cc e) h)
each_service-lookup act ((j, d) ∷ rest) out k c' e h = elim (Option-cases d.find_x) [
  | inl missing ↦ absurd (nil_service (rw (missing, each_service) at e))
  | inr (f, present) ↦
      let (f', acts, e0) = and_then-eq-returns (act j f) _ (rw (present, each_service) at e) in
      let (others, looped, e1) = and_then-eq-returns (each_service act rest) _ e0 in
      let all : ((j, record d { find_x = some f' }) ∷ others) ≡ out = cc e1 in
      elim (lookup_cons j k (record d { find_x = some f' }) c' others (rw (← all) at h)) [
        | inl (hit, same) ↦ (
          d,
          f,
          f',
          rw hit refl,
          present,
          subst (λ i. act i f ≡ returns f') (str_eq→eq j k hit) acts,
          sym same,
        )
        | inr (miss, later) ↦
            let (c, g, g', known, has, acts, acted) =
              each_service-lookup act rest others k c' looped later in
            (c, g, g', rw (miss, lookup) known, has, acts, acted)
      ]
]
  where
    nil_service : ◌≡◌ {A = Run (List (String × KeyspaceConfig))} panics (returns out) → ⊥
    nil_service m = cc

module _ (parse_request_uri : String → Option Error)
    (register : String → String → String → Option Error) where
  start_enabled :
      (f g : FindX) (e : Option Error)
      → f.enabled ≡ false
      → g.enabled ≡ true
      → start parse_request_uri register f ≡ returns (g, e)
      → (e ≡ none) × (g.keyspace ≡ f.keyspace)
  unfolding start
  start_enabled f g e off on ran = ground arith

  -- The service that `newFindX` starts, with its names filled in.
  named : String → FindX → FindX
  named k f = record f {
    keyspace = k;
    registration = record f.registration { keyspace = k; prom_namespace = app_name };
  }

  started_service_wanted :
      (k : String) (f : FindX)
      → f.is_enabled ≡ true
      → started_service parse_request_uri register k f
        ≡ and_then (start parse_request_uri register (named k f)) (λ (g, e). returns g)
  unfolding started_service named
  started_service_wanted k f wanted = if_true f.is_enabled wanted _ (returns f)

  started_service-Inv :
      (k : String) (f f' : FindX)
      → started_service parse_request_uri register k f ≡ returns f'
      → f.metrics ≡ no_metrics
      → f.enabled ≡ false
      → f'.enabled ≡ true
      → Inv f' × (f'.keyspace ≡ k)
  unfolding started_service named
  started_service-Inv k f f' ran fresh off on = elim (Bool-cases f.is_enabled) [
    | inl wanted ↦
        let ((g, e), started, same) =
          and_then-eq-returns (start parse_request_uri register (named k f)) _
            (sym (started_service_wanted k f wanted) ∙ ran) in
        let taken : g ≡ f' = cc same in
        let (fine, name) =
          start_enabled (named k f) g e off (ap (λ x. x.enabled) taken ∙ on) started in
        subst (λ x. Inv x × (x.keyspace ≡ k)) taken
          (
            start-Inv parse_request_uri register (named k f) g fresh
                (started ∙ ap {A = Option Error} (λ x. returns (g, x)) fine),
            name,
          )
    | inr unwanted ↦ absurd (idle (sym (if_false f.is_enabled unwanted _ (returns f)) ∙ ran))
  ]
    where
      idle : ◌≡◌ {A = Run FindX} (returns f) (returns f') → ⊥
      idle same = let kept : f ≡ f' = cc in cc (off, on, ap (λ x. x.enabled) kept)

  -- After the server has started the services of its keyspaces, each keyspace still has its
  -- configuration but for the service; and if that one was fresh and is enabled now, its accounting
  -- holds, and it serves the keyspace under whose name it stands.
  pub start_services-Inv :
      (keyspaces out : List (String × KeyspaceConfig)) (k : String) (c' : KeyspaceConfig)
      → start_services parse_request_uri register keyspaces ≡ returns out
      → lookup k out ≡ some c'
      → (c : KeyspaceConfig) × (f : FindX) × (f' : FindX) × (lookup k keyspaces ≡ some c)
        × (c.find_x ≡ some f)
        × (c' ≡ record c { find_x = some f' })
        × (f.metrics ≡ no_metrics
            → f.enabled ≡ false
            → f'.enabled ≡ true
            → Inv f' × (f'.keyspace ≡ k))
  unfolding start_services
  start_services-Inv keyspaces out k c' e h =
      let act = started_service parse_request_uri register in
      let (c, f, f', known, has, acts, acted) = each_service-lookup act keyspaces out k c' e h in
      (c, f, f', known, has, acted, started_service-Inv k f f' acts)
