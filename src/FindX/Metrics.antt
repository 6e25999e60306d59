-- ===== src/FindX/Metrics.antt =====
-- internal/findx/metrics.go
use xdas.Prelude.{
  ℕ, ◌+◌, ◌%◌, String, List, [], ◌∷◌, Bool, true, ◌==◌, string_eq, if◌then◌else◌, Option, none,
  some, int_mod,
}
use xdas.Errors.{Error, external}

-- The fields of the struct that a caller sets. `prom_reg` says whether the registerer is set.
pub record Registration : Type 0 where
  pub keyspace : String
  pub prom_namespace : String
  pub prom_reg : Bool

-- The counters are `atomic.Uint64`, and wrap.
pub record Metrics : Type 0 where
  pub add_suc : ℕ
  pub add_fail : ℕ
  pub add_rej : ℕ
  pub sent_suc : ℕ
  pub sent_fail : ℕ
  pub sent_rej : ℕ

abbrev pub no_metrics : Metrics
no_metrics = record {
  add_suc = 0;
  add_fail = 0;
  add_rej = 0;
  sent_suc = 0;
  sent_fail = 0;
  sent_rej = 0;
}

abbrev pub incremented : ℕ → ℕ
incremented n = (n + 1) % int_mod

abbrev pub inc_add_suc : Metrics → Metrics
inc_add_suc m = record m { add_suc = incremented m.add_suc }

abbrev pub inc_add_fail : Metrics → Metrics
inc_add_fail m = record m { add_fail = incremented m.add_fail }

abbrev pub inc_add_rej : Metrics → Metrics
inc_add_rej m = record m { add_rej = incremented m.add_rej }

abbrev pub inc_sent_suc : Metrics → Metrics
inc_sent_suc m = record m { sent_suc = incremented m.sent_suc }

abbrev pub inc_sent_fail : Metrics → Metrics
inc_sent_fail m = record m { sent_fail = incremented m.sent_fail }

abbrev pub inc_sent_rej : Metrics → Metrics
inc_sent_rej m = record m { sent_rej = incremented m.sent_rej }

-- The loop of `initPrometheus` over its six counters, up to the first that is refused. `register` is
-- the registerer's answer for a keyspace, a name and a code.
module _ (register : String → String → String → Option Error) where
  unfoldable pub register_all : String → List (String × String) → Option Error
  register_all keyspace [] = none
  register_all keyspace ((name, code) ∷ counters) = elim (register keyspace name code) [
    | none ↦ register_all keyspace counters
    | some e ↦ some e
  ]

  unfoldable pub init_prometheus : Registration → Registration × Option Error
  unfolding register_all
  init_prometheus m =
      let m' : Registration = record m { prom_reg = true } in
      if m'.keyspace == ""
      then (m', some (external 2))
      else if m'.prom_namespace == ""
      then (m', some (external 3))
      else (
        m',
        register_all m'.keyspace (
            ("add", "suc")
            ∷ ("add", "fail")
            ∷ ("add", "rej")
            ∷ ("sent", "suc")
            ∷ ("sent", "fail")
            ∷ ("sent", "rej")
            ∷ []),
      )
