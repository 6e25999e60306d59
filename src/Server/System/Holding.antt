-- ===== src/Server/System/Holding.antt =====
-- cmd/xdas: what holds of the service of each configured keyspace, and how it is kept.
use xdas.Prelude.{
  String, Option, none, some, Run, returns, panics, and_then-eq-returns, returns-inj, lookup,
  insert, lookup-insert, string_eq, str_eq→eq, ◌==◌, ◌≡◌, refl, sym, ap, ◌∙◌, subst, inl, inr,
  Bool-cases, Option-cases,
}
use xdas.FindX.{FindX}
use xdas.FindX
use xdas.Server.Config.{KeyspaceConfig}
use xdas.Server.State.{World, with_find_x}
use xdas.Server.Tame.{Adds, AddsTo, none_added, adds, IsTame}

some-inj : {A : Type 0} {a b : A} → some a ≡ some b → a ≡ b
some-inj m = cc

Adds-kept :
    (P : FindX → Type 0) (f f' : FindX)
    → ((g g' : FindX) (id : String) → FindX.add g id ≡ returns g' → P g → P g')
    → Adds f f'
    → P f
    → P f'
Adds-kept P f f' keep none_added p = p
Adds-kept P f f' keep (adds {g} id earlier ran) p =
    keep g f' id ran (Adds-kept P f g keep earlier p)

module _ {S : Type 0} where
  -- Each keyspace has a service, of which P holds.
  abbrev pub Holds : (String → FindX → Type 0) → World S → Type 0
  Holds P s =
      (k : String) (c : KeyspaceConfig)
      → lookup k s.config.keyspaces ≡ some c
      → (f : FindX) × (c.find_x ≡ some f) × P k f

  -- Inversion of a call of a service that returns.
  pub with_find_x-returns :
      (keyspace : String) (s s' : World S) (call : FindX → Run FindX)
      → with_find_x keyspace s call ≡ returns s'
      → (c : KeyspaceConfig) × (f : FindX) × (f' : FindX) × (lookup keyspace s.config.keyspaces
          ≡ some c)
        × (c.find_x ≡ some f)
        × (call f ≡ returns f')
        × (record s {
          config = record s.config {
            keyspaces = insert keyspace (record c { find_x = some f' }) s.config.keyspaces;
          };
        }
            ≡ s')
  unfolding with_find_x
  with_find_x-returns keyspace s s' call e =
      elim (Option-cases (lookup keyspace s.config.keyspaces)) [
        | inl unknown ↦ absurd (never (rw (unknown, with_find_x) at e))
        | inr (c, known) ↦ elim (Option-cases c.find_x) [
          | inl missing ↦ absurd (never (rw missing at (rw (known, with_find_x) at e)))
          | inr (f, given) ↦
              let (f', ran, done) =
                and_then-eq-returns (call f) _ (rw given at (rw (known, with_find_x) at e)) in
              (c, f, f', known, given, ran, returns-inj done)
        ]
      ]
    where
      never : ◌≡◌ {A = Run (World S)} panics (returns s') → ⊥
      never m = cc

  module _ (P : String → FindX → Type 0) where
    -- Where `Add` keeps P, so does a tame step.
    pub Holds-tame :
        ((k : String) (g g' : FindX) (id : String) → FindX.add g id ≡ returns g' → P k g → P k g')
        → (s s' : World S) → IsTame s s'
        → Holds P s
        → Holds P s'
    Holds-tame keep s s' v h k c' known =
        let (c, before, follows) = v.followed k c' known in
        let (f, given, p) = h k c before in go c f given p c'.find_x refl follows.service
      where
        go :
            (c : KeyspaceConfig) (f : FindX)
            → c.find_x ≡ some f
            → P k f
            → (o : Option FindX) → c'.find_x ≡ o
            → AddsTo c.find_x o
            → (f' : FindX) × (c'.find_x ≡ some f') × P k f'
        go c f given p none e a = absurd (subst (λ o. AddsTo o none) given a)
        go c f given p (some f') e a =
            (f', e, Adds-kept (P k) f f' (keep k) (subst (λ o. AddsTo o (some f')) given a) p)

    -- Where a call keeps P of the service that it is made of, P holds after it.
    pub Holds-with_find_x :
        (keyspace : String) (s s' : World S) (call : FindX → Run FindX)
        → ((f f' : FindX) → call f ≡ returns f' → P keyspace f → P keyspace f')
        → with_find_x keyspace s call ≡ returns s'
        → Holds P s
        → Holds P s'
    Holds-with_find_x keyspace s s' call keep e h k c known =
        let (d, f, f', configured, given, ran, same) = with_find_x-returns keyspace s s' call e in
        let (g, before, p) = h keyspace d configured in
        let kept : P keyspace f' =
          keep f f' ran (subst (P keyspace) (some-inj (sym before ∙ given)) p) in
        let found = ap {A = World S} (λ t. lookup k t.config.keyspaces) same ∙ known in
        elim (Bool-cases (keyspace == k)) [
          | inl hit ↦
              let new : record d { find_x = some f' } ≡ c = some-inj (
                rw
                  (lookup-insert keyspace k (record d { find_x = some f' }) s.config.keyspaces, hit)
                  at found) in
              (
                f',
                ap {A = KeyspaceConfig} (λ x. x.find_x) (sym new),
                subst (λ j. P j f') (str_eq→eq keyspace k hit) kept,
              )
          | inr miss ↦ h k c (
              rw (lookup-insert keyspace k (record d { find_x = some f' }) s.config.keyspaces, miss)
                at found)
        ]
