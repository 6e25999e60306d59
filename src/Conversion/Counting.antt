-- ===== src/Conversion/Counting.antt =====
-- internal/conversion/metrics.go: no listed keyspace makes a counter panic.
use mathlib.Core.Option
use mathlib.Core.List.Memᴰ
use mathlib.Core.List.{Memᴰ}
use xdas.Prelude.{
  ℕ, zero, suc, ◌+◌, ◌%◌, int_mod, String, Option, none, some, List, [], ◌∷◌, Result, ok, err,
  returns, panics, ◌≡◌, refl, ◌⊎◌, inl, inr, lookup, insert, lookup-insert, if◌then◌else◌, ◌==◌,
  string_eq, str_eq_refl, Option-cases, Bool-cases, Result-cases, subst, str_eq→eq, Bool, true,
  false,
}
use xdas.Errors.{Error, external}
use xdas.Conversion.Metrics.{
  CounterType, no_counts, Counter, content_encoding, content_type, encryption, bump,
  MetricsProvider, no_metrics, prometheus_metrics, inc, init_counters, init, init_metrics,
  counter_names, register_all,
}

-- Conversions of the keyspace can be counted.
abbrev pub IsCounted : String → MetricsProvider → Type 0
IsCounted keyspace no_metrics = Unit
IsCounted keyspace (prometheus_metrics counters) =
    (c : CounterType) × (lookup keyspace counters ≡ some c)

-- The counts that a keyspace has so far, none without metrics.
abbrev pub counts : String → MetricsProvider → Option CounterType
counts keyspace no_metrics = none
counts keyspace (prometheus_metrics counters) = lookup keyspace counters

pub IsCounted-insert :
    (k j : String) (v : CounterType) (cs : List (String × CounterType))
    → IsCounted j (prometheus_metrics cs)
    → IsCounted j (prometheus_metrics (insert k v cs))
IsCounted-insert k j v cs (c, e) = elim (Bool-cases (k == j)) [
  | inl h ↦ (v, rw (lookup-insert k j v cs, h) refl)
  | inr h ↦ (c, rw (lookup-insert k j v cs, h) e)
]

lookup-bumped :
    (f : CounterType → CounterType) (k j : String) (c : CounterType)
    (cs : List (String × CounterType))
    → lookup k cs ≡ some c
    → lookup j (insert k (f c) cs) ≡ (if k == j then Option.map f (lookup j cs) else lookup j cs)
lookup-bumped f k j c cs e = elim (Bool-cases (k == j)) [
  | inl h ↦
      let found : lookup j cs ≡ some c = subst (λ t. lookup t cs ≡ some c) (str_eq→eq k j h) e in
      rw (lookup-insert k j (f c) cs, h, found) refl
  | inr h ↦ rw (lookup-insert k j (f c) cs, h) refl
]

if_same {ℓ} : {A : Type ℓ} (b : Bool) (x : A) → x ≡ (if b then x else x)
if_same true x = refl
if_same false x = refl

-- The six counts, in the order of `counter_names`, and the place of each counter among them.
abbrev pub readings : CounterType → List ℕ
readings c =
    c.content_encoding_suc ∷ c.content_encoding_fail ∷ c.content_type_suc ∷ c.content_type_fail
    ∷ c.encryption_suc ∷ c.encryption_fail ∷ []

abbrev pub place : Counter → ℕ
place (content_encoding ok') = if ok' then 0 else 1
place (content_type ok') = if ok' then 2 else 3
place (encryption ok') = if ok' then 4 else 5

-- A list with one more at a place, modulo 2^64.
abbrev pub raised_at : ℕ → List ℕ → List ℕ
raised_at n [] = []
raised_at zero (x ∷ xs) = (x + 1) % int_mod ∷ xs
raised_at (suc n) (x ∷ xs) = x ∷ raised_at n xs

-- The counter at its place is raised, and the other five read what they did.
abbrev pub Raises : Counter → CounterType → CounterType → Type 0
Raises counter c c' = readings c' ≡ raised_at (place counter) (readings c)

bump-Raises : (counter : Counter) (c : CounterType) → Raises counter c (bump counter c)
unfolding bump
bump-Raises (content_encoding true) c = refl
bump-Raises (content_encoding false) c = refl
bump-Raises (content_type true) c = refl
bump-Raises (content_type false) c = refl
bump-Raises (encryption true) c = refl
bump-Raises (encryption false) c = refl

-- Where a keyspace can be counted, an increment returns; of that keyspace it raises that counter by one,
-- modulo 2^64, and no other of the six; of any other keyspace it raises none; and it leaves every keyspace
-- as countable as it was. Where the keyspace cannot be counted, the increment panics.
pub inc_cases :
    (counter : Counter) (keyspace : String) (m : MetricsProvider)
    → (IsCounted keyspace m
        → (m' : MetricsProvider) × (inc counter keyspace m ≡ returns m')
          × ((j : String)
              → (counts j m'
                  ≡ (if keyspace == j then Option.map (bump counter) (counts j m) else counts j m))
                × (IsCounted j m → IsCounted j m'))
          × ((c : CounterType) → Raises counter c (bump counter c)))
      × (¬ IsCounted keyspace m → inc counter keyspace m ≡ panics)
unfolding inc
inc_cases counter keyspace no_metrics = (
  λ _. (no_metrics, refl, (λ j. (if_same (keyspace == j) none, λ t. t)), bump-Raises counter),
  λ h. absurd (h tt),
)
inc_cases counter keyspace (prometheus_metrics counters) = (returning, panicking)
  where
    returning :
        IsCounted keyspace (prometheus_metrics counters)
        → (m' : MetricsProvider) × (inc counter keyspace (prometheus_metrics counters) ≡ returns m')
          × ((j : String)
              → (counts j m' ≡ (
                  if keyspace == j
                  then Option.map (bump counter) (lookup j counters)
                  else lookup j counters))
                × (IsCounted j (prometheus_metrics counters) → IsCounted j m'))
          × ((c : CounterType) → Raises counter c (bump counter c))
    returning (c, e) = (
      prometheus_metrics (insert keyspace (bump counter c) counters),
      rw (e, inc) refl,
      (λ j. (
        lookup-bumped (bump counter) keyspace j c counters e,
        IsCounted-insert keyspace j (bump counter c) counters,
      )),
      bump-Raises counter,
    )

    panicking :
        ¬ IsCounted keyspace (prometheus_metrics counters)
        → inc counter keyspace (prometheus_metrics counters) ≡ panics
    panicking h = elim (Option-cases (lookup keyspace counters)) [
      | inl e ↦ rw (e, inc) refl
      | inr (c, e) ↦ absurd (h (c, e))
    ]

module _ {R : Type 0} (register : R → String → String → String → Result Error R) where
  -- What one round adds to what is counted or still to be visited.
  visit :
      (cs : List (String × CounterType)) (j k : String) (js : List String)
      → (IsCounted k (prometheus_metrics cs) ⊎ Memᴰ k (j ∷ js))
      → (IsCounted k (prometheus_metrics (insert j no_counts cs)) ⊎ Memᴰ k js)
  visit cs j k js (inl h) = inl (IsCounted-insert j k no_counts cs h)
  visit cs j k js (inr h) = elim (Memᴰ.cases_cons h) [
    | inl same ↦
        inl (no_counts, rw (lookup-insert j k no_counts cs, same) (rw (str_eq_refl j) refl))
    | inr later ↦ inr later
  ]

  -- The loop keeps what is counted, and adds the keyspaces that it visits.
  init_counters-IsCounted :
      (cs out : List (String × CounterType)) (keyspaces : List String) (r : R)
      → init_counters register cs keyspaces r ≡ ok out
      → (k : String) → (IsCounted k (prometheus_metrics cs) ⊎ Memᴰ k keyspaces)
      → IsCounted k (prometheus_metrics out)
  unfolding init_counters
  init_counters-IsCounted cs out [] r e k (inl (c, h)) = (c, cc)
  init_counters-IsCounted cs out [] r e k (inr h) = absurd (Memᴰ.not-nil h)
  init_counters-IsCounted cs out (j ∷ js) r e k h =
      elim (Result-cases (register_all register j counter_names r)) [
        | inl (next, registered) ↦
            init_counters-IsCounted (insert j no_counts cs) out js next
              (rw (registered, init_counters) at e) k (visit cs j k js h)
        | inr (bad, refused) ↦ absurd (failed bad refused)
      ]
    where
      failed : (bad : Error) → register_all register j counter_names r ≡ err bad → ⊥
      failed bad refused =
          let never : ◌≡◌ {A = Result Error (List (String × CounterType))} (err bad) (ok out) =
            rw (refused, init_counters) at e in
          cc

  -- After `Init`, whatever registry and namespace it was given, and whether or not the registry
  -- refused a counter, each listed keyspace can be counted.
  pub init-IsCounted :
      (prom_reg : Option R) (namespace : String) (keyspaces : List String) (k : String)
      → Memᴰ k keyspaces
      → IsCounted k (init register prom_reg namespace keyspaces)
  unfolding init init_metrics
  init-IsCounted none namespace keyspaces k h = tt
  init-IsCounted (some reg) namespace keyspaces k h =
      elim (Result-cases (init_metrics register reg namespace keyspaces)) [
        | inl (cs, e) ↦ rw (e, init) (counted cs e)
        | inr (bad, e) ↦ rw (e, init) tt
      ]
    where
      counted :
          (cs : List (String × CounterType))
          → init_metrics register reg namespace keyspaces ≡ ok cs
          → IsCounted k (prometheus_metrics cs)
      counted cs e = elim (Bool-cases (namespace == "")) [
        | inl missing ↦
            let never : ◌≡◌ {A = Result Error (List (String × CounterType))} (err (external 1))
                (ok cs) =
              rw (missing, init_metrics) at e in
            cc
        | inr given ↦
            init_counters-IsCounted [] cs keyspaces reg (rw (given, init_metrics) at e) k (inr h)
      ]
