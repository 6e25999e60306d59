-- ===== src/Conversion/Keeping.antt =====
-- internal/conversion: whatever `Convert` counts, each keyspace stays as countable as it was.
use xdas.Prelude.{
  ℕ, String, Bytes, Bool, true, false, not, ◌&&◌, ◌==◌, nat_eq, string_eq, Result, ok, err, Run,
  returns, panics, and_then, of_if, inl, inr, lookup, Option-cases,
}
use xdas.Errors.{Error}
use xdas.MagicByte.{MagicByte}
use xdas.Conversion.Externals.{Libraries}
use xdas.Conversion.Metrics.{
  Counter, content_encoding, content_type, encryption, MetricsProvider, no_metrics,
  prometheus_metrics, inc, bump,
}
use xdas.Conversion.Convert.{
  Converted, target, finish, convert_type, convert_encoding, convert_encryption, convert_to,
  convert,
}
use xdas.Conversion.Counting.{IsCounted, IsCounted-insert}

-- From one state of the counters to another, no keyspace is lost.
abbrev pub Keeps : MetricsProvider → MetricsProvider → Type 0
Keeps m m' = (j : String) → IsCounted j m → IsCounted j m'

-- A run that keeps the counters, if it returns.
abbrev pub Keeping : MetricsProvider → Run (MetricsProvider × Converted) → Type 0
Keeping m (returns (m', c)) = Keeps m m'
Keeping m panics = Unit

Keeping-and_then :
    {A : Type 0} (m : MetricsProvider) (run : Run A) (f : A → Run (MetricsProvider × Converted))
    → ((a : A) → Keeping m (f a))
    → Keeping m (and_then run f)
Keeping-and_then m (returns a) f h = h a
Keeping-and_then m panics f h = tt

counted-Keeping :
    (counter : Counter) (keyspace : String) (m : MetricsProvider) (c : Converted)
    → Keeping m (and_then (inc counter keyspace m) λ m'. returns (m', c))
unfolding inc
counted-Keeping counter keyspace no_metrics c = λ j h. h
counted-Keeping counter keyspace (prometheus_metrics counters) c =
    elim (Option-cases (lookup keyspace counters)) [
      | inl unknown ↦ rw (unknown, inc) tt
      | inr (n, known) ↦
          rw (known, inc) (λ j h. IsCounted-insert keyspace j (bump counter n) counters h)
    ]

finish-Keeping :
    (counter : Bool → Counter) (keyspace : String) (i o : MagicByte) (d : Bytes)
    (m : MetricsProvider) (r : Result Error Bytes)
    → Keeping m (finish counter keyspace i o d m r)
unfolding finish
finish-Keeping counter keyspace i o d m (ok x) = counted-Keeping (counter true) keyspace m _
finish-Keeping counter keyspace i o d m (err e) = counted-Keeping (counter false) keyspace m _

-- `Convert` keeps every keyspace as countable as it was.
pub convert-Keeping :
    {Message : Type 0} (lib : Libraries Message) (random : ℕ → Result Error Bytes)
    (keyspace : String) (i o : MagicByte) (d : Bytes) (m : MetricsProvider)
    → Keeping m (convert lib random keyspace i o d m)
unfolding convert convert_to
convert-Keeping lib random keyspace i o d m =
    let o' = target i o in
    of_if (Keeping m) (not (i.ctv == o'.ctv) && not (o'.ctv == 0)) _ _
      (Keeping-and_then m (convert_type lib random keyspace i o' d) _
        (finish-Keeping content_type keyspace i o' d m))
      (of_if (Keeping m) (not (i.cev == o'.cev)) _ _
        (Keeping-and_then m (convert_encoding lib random i o' d) _
          (finish-Keeping content_encoding keyspace i o' d m))
        (of_if (Keeping m) (not (i.encryption == o'.encryption)) _ _
          (Keeping-and_then m (convert_encryption lib random i o' d) _
            (finish-Keeping encryption keyspace i o' d m))
          (λ j h. h)))
