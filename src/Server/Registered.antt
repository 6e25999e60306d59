-- ===== src/Server/Registered.antt =====
-- cmd/xdas/metrics.go: the server's own metrics do not stand in each other's way.
use xdas.Prelude.{
  ◌<>◌, if◌then◌else◌, String, List, [], ◌∷◌, true, false, ◌==◌, string_eq, Result, ok, returns,
  ◌≡◌, ◌⊎◌, ◌≢◌, refl, All, inl, inr, sym, subst, ap, ◌∙◌, str_eq_refl,
}
use xdas.Errors.{Error}
use xdas.Server.OwnMetrics.{
  Descriptor, api_requests_total, api_request_duration, redis_read_errors, redis_write_errors,
  build_information, must_register, create_build_info_metrics, new_metrics,
}

differ : (a b : String) → (a == b) ≡ false → a ≢ b
differ a b e same = cc (e, subst (λ x. (a == x) ≡ true) same (str_eq_refl a))

-- `prometheus.BuildFQName`
abbrev pub fq_name : Descriptor → String
fq_name d = if d.namespace == "" then d.name else d.namespace <> "_" <> d.name

-- Two metrics can stand in one registry: their full names differ, or they have the same help and the same
-- labels, and another constant value.
abbrev pub Compatible : Descriptor → Descriptor → Type 0
Compatible d e =
    (fq_name d ≢ fq_name e)
    ⊎ ((d.help ≡ e.help) × (d.label_names ≡ e.label_names) × (d.const_labels ≢ e.const_labels))

-- What Prometheus documents of a registry that holds metrics: it takes one that is compatible with each
-- of them, and then holds it too.
pub record IsRegistry {R : Type 0} (register : R → Descriptor → Result Error R)
    (held : R → List Descriptor) : Type 0 where
  pub takes :
      (reg : R) (d : Descriptor)
      → All (Compatible d) (held reg)
      → (next : R) × (register reg d ≡ ok next) × (held next ≡ d ∷ held reg)

-- Each of some metrics is compatible with those that are held, and with those before it.
abbrev AllCompatible : List Descriptor → List Descriptor → Type 0
AllCompatible [] held = Unit
AllCompatible (d ∷ ds) held = All (Compatible d) held × AllCompatible ds (d ∷ held)

-- `ds` on top of what is held, the last one first.
abbrev pub stacked : List Descriptor → List Descriptor → List Descriptor
stacked [] held = held
stacked (d ∷ ds) held = stacked ds (d ∷ held)

abbrev own_metrics : List Descriptor
own_metrics =
    api_requests_total ∷ api_request_duration ∷ redis_read_errors ∷ redis_write_errors ∷ []

-- A metric with none of the names of the server's own.
pub record IsForeign (e : Descriptor) : Type 0 where
  pub not_requests : fq_name api_requests_total ≢ fq_name e
  pub not_duration : fq_name api_request_duration ≢ fq_name e
  pub not_errors : fq_name redis_read_errors ≢ fq_name e
  pub not_build : fq_name build_information ≢ fq_name e

-- A metric of the server can stand beside those of other names.
foreign-Compatible :
    (d : Descriptor) (held : List Descriptor)
    → ((e : Descriptor) → IsForeign e → fq_name d ≢ fq_name e)
    → All IsForeign held
    → All (Compatible d) held
foreign-Compatible d [] apart h = tt
foreign-Compatible d (e ∷ held) apart (other, h) =
    (inl (apart e other), foreign-Compatible d held apart h)

own-AllCompatible : (held : List Descriptor) → All IsForeign held → AllCompatible own_metrics held
own-AllCompatible held h = (
  foreign-Compatible api_requests_total held (λ e o. o.not_requests) h,
  (
    (
      inl (differ "api_request_duration_seconds" "api_requests_total" refl),
      foreign-Compatible api_request_duration held (λ e o. o.not_duration) h,
    ),
    (
      (
        inl (differ "xdas_redis_errors_total" "api_request_duration_seconds" refl),
        (
          inl (differ "xdas_redis_errors_total" "api_requests_total" refl),
          foreign-Compatible redis_read_errors held (λ e o. o.not_errors) h,
        ),
      ),
      (
        (
          inr (refl, refl, other_ops),
          (
            inl (differ "xdas_redis_errors_total" "api_request_duration_seconds" refl),
            (
              inl (differ "xdas_redis_errors_total" "api_requests_total" refl),
              foreign-Compatible redis_write_errors held (λ e o. o.not_errors) h,
            ),
          ),
        ),
        tt,
      ),
    ),
  ),
)
  where
    other_ops : redis_write_errors.const_labels ≢ redis_read_errors.const_labels
    other_ops e = differ "write" "read" refl (cc e)

module _ {R : Type 0} (register : R → Descriptor → Result Error R) (held : R → List Descriptor)
    (laws : IsRegistry register held) where
  must_register-takes :
      (ds : List Descriptor) (reg : R)
      → AllCompatible ds (held reg)
      → (next : R) × (must_register register ds reg ≡ returns next)
        × (held next ≡ stacked ds (held reg))
  unfolding must_register
  must_register-takes [] reg h = (reg, refl, refl)
  must_register-takes (d ∷ ds) reg (here, rest) =
      let (next, taken, holds) = laws.takes reg d here in
      let (last, all, stack) =
        must_register-takes ds next (subst (AllCompatible ds) (sym holds) rest) in
      (last, rw (taken, must_register) all, stack ∙ ap (stacked ds) holds)

  -- A registry that holds no metric of the names of the server's own takes the five of them, so `newMetrics` does not panic.
  pub new_metrics-takes :
      (reg : R)
      → All IsForeign (held reg)
      → (next : R) × (new_metrics register reg ≡ returns next)
        × (held next ≡ stacked (build_information ∷ []) (stacked own_metrics (held reg)))
  unfolding new_metrics create_build_info_metrics
  new_metrics-takes reg foreign =
      let (next, first, holds) =
        must_register-takes own_metrics reg (own-AllCompatible (held reg) foreign) in
      let (last, second, all) =
        must_register-takes (build_information ∷ []) next
          (subst (AllCompatible (build_information ∷ [])) (sym holds) build-AllCompatible) in
      (last, rw first second, all ∙ ap (stacked (build_information ∷ [])) holds)
    where
      build-AllCompatible : AllCompatible (build_information ∷ []) (stacked own_metrics (held reg))
      build-AllCompatible = (
        (
          inl (differ "xdas_build_info" "xdas_redis_errors_total" refl),
          (
            inl (differ "xdas_build_info" "xdas_redis_errors_total" refl),
            (
              inl (differ "xdas_build_info" "api_request_duration_seconds" refl),
              (
                inl (differ "xdas_build_info" "api_requests_total" refl),
                foreign-Compatible build_information (held reg) (λ e o. o.not_build) foreign,
              ),
            ),
          ),
        ),
        tt,
      )
