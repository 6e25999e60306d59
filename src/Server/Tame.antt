-- ===== src/Server/Tame.antt =====
-- cmd/xdas: what the handlers may change, apart from Redis.
use xdas.Prelude.{
  String, Option, none, some, Bool, true, false, Run, returns, panics, and_then, ◌≡◌, refl, sym, ap,
  subst, inl, inr, lookup, insert, lookup-insert, string_eq, str_eq→eq, nat_eq, ◌==◌, Bool-cases,
  Option-cases, if◌then◌else◌, ◌∙◌,
}
use xdas.FindX.{FindX}
use xdas.FindX
use xdas.Conversion.Keeping.{Keeps}
use xdas.Server.Config.{KeyspaceConfig, Configuration}
use xdas.Server.State.{World, with_find_x, find_x}

-- A keyspace that is configured.
abbrev pub Known : {S : Type 0} → String → World S → Type 0
Known k s = (c : KeyspaceConfig) × (lookup k s.config.keyspaces ≡ some c)

-- A service after calls of `Add` that returned.
pub data Adds (f : FindX) : FindX → Type 0 where
  none_added : Adds f f
  adds : {g h : FindX} (id : String) → Adds f g → FindX.add g id ≡ returns h → Adds f h

pub Adds-trans : {f g h : FindX} → Adds f g → Adds g h → Adds f h
Adds-trans a none_added = a
Adds-trans a (adds id b e) = adds id (Adds-trans a b) e

-- A service that is there or not, after such calls.
abbrev pub AddsTo : Option FindX → Option FindX → Type 0
AddsTo none none = Unit
AddsTo (some f) (some f') = Adds f f'
AddsTo none (some f') = ⊥
AddsTo (some f) none = ⊥

-- The configuration of a keyspace is the same, but for ids that its service was given.
pub record Follows (c c' : KeyspaceConfig) : Type 0 where
  pub rest : c' ≡ record c { find_x = c'.find_x }
  pub service : AddsTo c.find_x c'.find_x

AddsTo-refl : (f : Option FindX) → AddsTo f f
AddsTo-refl none = tt
AddsTo-refl (some f) = none_added

AddsTo-trans : (f g h : Option FindX) → AddsTo f g → AddsTo g h → AddsTo f h
AddsTo-trans none none none a b = tt
AddsTo-trans none none (some h) a b = b
AddsTo-trans none (some g) h a b = absurd a
AddsTo-trans (some f) none h a b = absurd a
AddsTo-trans (some f) (some g) none a b = b
AddsTo-trans (some f) (some g) (some h) a b = Adds-trans a b

pub Follows-refl : (c : KeyspaceConfig) → Follows c c
Follows-refl c = record { rest = refl; service = AddsTo-refl c.find_x }

Follows-trans : (c d e : KeyspaceConfig) → Follows c d → Follows d e → Follows c e
Follows-trans c d e v w = record {
  rest = w.rest ∙ ap {A = KeyspaceConfig} (λ x. record x { find_x = e.find_x }) v.rest;
  service = AddsTo-trans c.find_x d.find_x e.find_x v.service w.service;
}

module _ {S : Type 0} where
  -- From one world to another, nothing is counted in `counter`, the configuration is the same but for
  -- the services, which were at most given ids, and each keyspace is as countable as before.
  pub record IsTame (s s' : World S) : Type 0 where
    pub same_counter : s'.counter ≡ s.counter
    pub same_config : s'.config ≡ record s.config { keyspaces = s'.config.keyspaces }
    pub followed :
        (k : String) (c' : KeyspaceConfig)
        → lookup k s'.config.keyspaces ≡ some c'
        → (c : KeyspaceConfig) × (lookup k s.config.keyspaces ≡ some c) × Follows c c'
    pub none_lost : (k : String) → Known k s → Known k s'
    pub countable : Keeps s.metrics s'.metrics

  -- No keyspace is new.
  pub none_new : (s s' : World S) → IsTame s s' → (k : String) → Known k s' → Known k s
  none_new s s' v k (c', known) = let (c, before, _) = v.followed k c' known in (c, before)

  pub IsTame-refl : (s : World S) → IsTame s s
  IsTame-refl s = record {
    same_counter = refl;
    same_config = refl;
    followed = λ k c h. (c, h, Follows-refl c);
    none_lost = λ k h. h;
    countable = λ j h. h;
  }

  pub IsTame-trans : (s t u : World S) → IsTame s t → IsTame t u → IsTame s u
  IsTame-trans s t u v w = record {
    same_counter = w.same_counter ∙ v.same_counter;
    same_config =
        w.same_config
        ∙ ap {A = Configuration} (λ x. record x { keyspaces = u.config.keyspaces }) v.same_config;
    followed = λ k c h.
        let (d, known, later) = w.followed k c h in
        let (e, before, earlier) = v.followed k d known in
        (e, before, Follows-trans e d c earlier later);
    none_lost = λ k h. w.none_lost k (v.none_lost k h);
    countable = λ j h. w.countable j (v.countable j h);
  }

  -- A run that leaves a tame world, if it returns.
  abbrev pub Tames : {A : Type 0} → World S → (A → World S) → Run A → Type 0
  Tames s at (returns a) = IsTame s (at a)
  Tames s at panics = Unit

  pub Tames-if :
      {A : Type 0} (s : World S) (at : A → World S) (b : Bool) (x y : Run A)
      → Tames s at x
      → Tames s at y
      → Tames s at (if b then x else y)
  Tames-if s at true x y hx hy = hx
  Tames-if s at false x y hx hy = hy

  pub Tames-and_then :
      {A B : Type 0} (s : World S) (at : B → World S) (m : Run A) (f : A → Run B)
      → ((a : A) → m ≡ returns a → Tames s at (f a))
      → Tames s at (and_then m f)
  Tames-and_then s at (returns a) f h = h a refl
  Tames-and_then s at panics f h = tt

  -- The world after an id was given to the service of a keyspace.
  given-IsTame :
      (keyspace id : String) (s : World S) (c : KeyspaceConfig) (f f' : FindX)
      → lookup keyspace s.config.keyspaces ≡ some c
      → c.find_x ≡ some f
      → FindX.add f id ≡ returns f'
      → IsTame s (record s {
        config = record s.config {
          keyspaces = insert keyspace (record c { find_x = some f' }) s.config.keyspaces;
        };
      })
  given-IsTame keyspace id s c f f' known given ran = record {
    same_counter = refl;
    same_config = refl;
    followed = before;
    none_lost = after;
    countable = λ j h. h;
  }
    where
      follows : Follows c (record c { find_x = some f' })
      follows = record {
        rest = refl;
        service = subst (λ o. AddsTo o (some f')) (sym given) (adds id none_added ran);
      }

      before :
          (k : String) (d : KeyspaceConfig)
          → lookup k (insert keyspace (record c { find_x = some f' }) s.config.keyspaces) ≡ some d
          → (e : KeyspaceConfig) × (lookup k s.config.keyspaces ≡ some e) × Follows e d
      before k d found = elim (Bool-cases (keyspace == k)) [
        | inl hit ↦ (
          c,
          subst (λ j. lookup j s.config.keyspaces ≡ some c) (str_eq→eq keyspace k hit) known,
          subst (Follows c)
              (cc (
                rw
                  (lookup-insert keyspace k (record c { find_x = some f' }) s.config.keyspaces, hit)
                  at found))
              follows,
        )
        | inr miss ↦ (
          d,
          rw (lookup-insert keyspace k (record c { find_x = some f' }) s.config.keyspaces, miss) at
              found,
          Follows-refl d,
        )
      ]

      after :
          (k : String)
          → Known k s
          → (d : KeyspaceConfig) × (lookup k
                (insert keyspace (record c { find_x = some f' }) s.config.keyspaces)
              ≡ some d)
      after k (d, found) = elim (Bool-cases (keyspace == k)) [
        | inl hit ↦ (
          record c { find_x = some f' },
          rw (lookup-insert keyspace k (record c { find_x = some f' }) s.config.keyspaces, hit)
              refl,
        )
        | inr miss ↦ (
          d,
          rw (lookup-insert keyspace k (record c { find_x = some f' }) s.config.keyspaces, miss)
              found,
        )
      ]

  with_add-Tames :
      (keyspace id : String) (s : World S)
      → Tames s (λ t. t) (with_find_x keyspace s (λ f. FindX.add f id))
  unfolding with_find_x
  with_add-Tames keyspace id s = elim (Option-cases (lookup keyspace s.config.keyspaces)) [
    | inl unknown ↦ rw (unknown, with_find_x) tt
    | inr (c, known) ↦ elim (Option-cases c.find_x) [
      | inl missing ↦ rw (known, with_find_x) (rw missing tt)
      | inr (f, given) ↦
          rw (known, with_find_x)
            (rw given (
              Tames-and_then s (λ t. t) (FindX.add f id) _
                (λ f' ran. given-IsTame keyspace id s c f f' known given ran)))
    ]
  ]

  pub find_x-Tames : (keyspace id : String) (s : World S) → Tames s (λ t. t) (find_x keyspace id s)
  unfolding find_x
  find_x-Tames keyspace id s =
      Tames-if s (λ t. t) (keyspace == "pld") _ _
        (record {
          same_counter = refl;
          same_config = refl;
          followed = λ k c h. (c, h, Follows-refl c);
          none_lost = λ k h. h;
          countable = λ j h. h;
        })
        (with_add-Tames keyspace id s)
