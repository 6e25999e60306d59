-- ===== src/Conversion/Outcome.antt =====
-- internal/conversion/conversion.go: what `Convert` returns and counts, on every path.
use xdas.Prelude.{
  ℕ, String, none, some, Bytes, Bool, true, false, Result, ok, err, Run, returns, and_then,
  and_then-eq-returns, ◌≡◌, refl, ap, nat_beq-true, nat_beq-false, ◌==◌, nat_eq, if◌then◌else◌, ◌≢◌,
}
use xdas.Errors.{Error}
use xdas.MagicByte.{MagicByte}
use xdas.Conversion.Externals.{Libraries}
use xdas.Conversion.Metrics.{
  Counter, content_encoding, content_type, encryption, MetricsProvider, inc,
}
use xdas.Conversion.Convert.{
  Converted, target, finish, convert_type, convert_encoding, convert_encryption, convert_to,
  convert,
}
use xdas.Conversion.Branches.{
  difference, types, encodings, encryptions, nothing, IsSettled, target-IsSettled, convert_to_type,
  convert_to_encoding, convert_to_encryption, convert_to_same,
}

-- The counter of a conversion, by the outermost layer in which the forms differ.
abbrev pub counter_of : MagicByte → MagicByte → Bool → Counter
counter_of i o =
    if i.ctv == o.ctv
    then (if i.cev == o.cev then encryption else content_encoding)
    else content_type

-- The three ways in which a conversion from `i` to the settled form `o` can end.
module _ (keyspace : String) (i o : MagicByte) (in_data : Bytes) (m : MetricsProvider) where
  pub data Outcome (m' : MetricsProvider) (c : Converted) : Type 0 where
    unchanged :
        i ≡ o
        → c ≡ record { magic_byte = i; content = in_data; error = none }
        → m' ≡ m
        → Outcome m' c
    converted :
        i ≢ o
        → (result : Bytes) → c ≡ record { magic_byte = o; content = result; error = none }
        → inc (counter_of i o true) keyspace m ≡ returns m'
        → Outcome m' c
    failed :
        i ≢ o
        → (e : Error) → c ≡ record { magic_byte = i; content = in_data; error = some e }
        → inc (counter_of i o false) keyspace m ≡ returns m'
        → Outcome m' c

  finish-Outcome :
      (r : Result Error Bytes) (m' : MetricsProvider) (c : Converted)
      → i ≢ o
      → finish (counter_of i o) keyspace i o in_data m r ≡ returns (m', c)
      → Outcome m' c
  unfolding finish
  finish-Outcome (ok result) m' c differ e =
      let (counted, bumped, rest) =
        and_then-eq-returns (inc (counter_of i o true) keyspace m) _ e in
      converted differ result (cc) (cc (bumped, rest))
  finish-Outcome (err bad) m' c differ e =
      let (counted, bumped, rest) =
        and_then-eq-returns (inc (counter_of i o false) keyspace m) _ e in
      failed differ bad (cc) (cc (bumped, rest))

module _ {Message : Type 0} (lib : Libraries Message) (random : ℕ → Result Error Bytes)
    (keyspace : String) (i o : MagicByte) (in_data : Bytes) (m : MetricsProvider) where
  -- The chain that is taken, before the counting.
  chained :
      (r : Run (Result Error Bytes)) (counter : Bool → Counter) (m' : MetricsProvider)
      (c : Converted)
      → i ≢ o
      → counter_of i o ≡ counter
      → and_then r (finish counter keyspace i o in_data m) ≡ returns (m', c)
      → Outcome keyspace i o in_data m m' c
  chained r counter m' c differ which e =
      let (result, _, finished) = and_then-eq-returns r (finish counter keyspace i o in_data m) e in
      finish-Outcome keyspace i o in_data m result m' c differ (rw which finished)

  convert_to-Outcome :
      (m' : MetricsProvider) (c : Converted)
      → IsSettled i o
      → convert_to lib random keyspace i o in_data m ≡ returns (m', c)
      → Outcome keyspace i o in_data m m' c
  convert_to-Outcome m' c settled e = elim (difference i o) [
    | types t ↦
        chained (convert_type lib random keyspace i o in_data) content_type m' c
          (λ same. t (ap (λ r. r.ctv) same)) (rw (nat_beq-false i.ctv o.ctv t) refl)
          (rw (convert_to_type lib random keyspace i o in_data m settled t) at e)
    | encodings t d ↦
        chained (convert_encoding lib random i o in_data) content_encoding m' c
          (λ same. d (ap (λ r. r.cev) same))
          (rw (nat_beq-true i.ctv o.ctv t, nat_beq-false i.cev o.cev d) refl)
          (rw (convert_to_encoding lib random keyspace i o in_data m t d) at e)
    | encryptions t d n ↦
        chained (convert_encryption lib random i o in_data) encryption m' c
          (λ same. n (ap (λ r. r.encryption) same))
          (rw (nat_beq-true i.ctv o.ctv t, nat_beq-true i.cev o.cev d) refl)
          (rw (convert_to_encryption lib random keyspace i o in_data m t d n) at e)
    | nothing same ↦
        let done : ◌≡◌ {A = Run (MetricsProvider × Converted)}
            (returns (m, record { magic_byte = i; content = in_data; error = none }))
            (returns (m', c)) =
          rw (convert_to_same lib random keyspace i o in_data m same) at e in
        unchanged same (cc) (cc)
  ]

-- Whatever `Convert` returns, it is one of three: equal forms give the input back and count nothing;
-- a success carries the requested form, with the content type of the input where none is requested;
-- a failure gives the input back beside the error. The last two count once, under the outermost
-- layer in which the forms differ.
pub convert-Outcome :
    {Message : Type 0} (lib : Libraries Message) (random : ℕ → Result Error Bytes)
    (keyspace : String) (i o : MagicByte) (in_data : Bytes) (m m' : MetricsProvider) (c : Converted)
    → convert lib random keyspace i o in_data m ≡ returns (m', c)
    → Outcome keyspace i (target i o) in_data m m' c
unfolding convert
convert-Outcome lib random keyspace i o in_data m m' c e =
    convert_to-Outcome lib random keyspace i (target i o) in_data m m' c (target-IsSettled i o) e
