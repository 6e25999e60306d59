-- ===== src/Server/Durations.antt =====
-- cmd/xdas/util.go: the time to live that a header asks for.
use xdas.Prelude.{
  ℕ, ◌*◌, ◌≤◌, ◌<◌, String, Option, some, true, ◌==◌, string_eq, is_neg, atoi, decimal, ◌≡◌, refl,
  ap, ◌∙◌, ◌↔◌, arith, Bool-cases, inl, inr, str_eq→eq, subst, sym,
}
use xdas.Prelude.Decimals.{atoi-decimal}
use xdas.Server.Util.{second, seconds, get_ttl}

seconds_lem : (n : ℕ) → n ≤ 18_446_744_073 → seconds n ≡ n * second
seconds_lem n h = omega arith

is_neg-seconds_iff :
    (n : ℕ) → n ≤ 18_446_744_073 → (is_neg (n * second) ≡ true) ↔ (9_223_372_036 < n)
is_neg-seconds_iff n h = (λ e. ground arith, λ e. ground arith)

module _ (parse_duration : String → Option ℕ) where
  get_ttl-atoi : (t : String) (t2 n : ℕ) → atoi t ≡ some n → get_ttl parse_duration t t2 ≡ seconds n
  unfolding get_ttl atoi
  get_ttl-atoi t t2 n e = elim (Bool-cases (t == "")) [
    | inl empty ↦ absurd (no_number t (str_eq→eq t "" empty) e)
    | inr full ↦ rw (full, get_ttl) (rw e refl)
  ]
    where
      no_number : (t : String) → t ≡ "" → atoi t ≡ some n → ⊥
      no_number t empty e = cc (ap atoi empty, e)

  -- For a number of seconds in decimal, up to 18446744073, the time to live is that many seconds,
  -- whatever the keyspace has; but as an int64 of nanoseconds it is negative exactly if there are more
  -- than 9223372036 of them.
  pub get_ttl-decimal :
      (n t2 : ℕ)
      → n ≤ 18_446_744_073
      → (get_ttl parse_duration (decimal n) t2 ≡ n * second)
        × ((is_neg (get_ttl parse_duration (decimal n) t2) ≡ true) ↔ (9_223_372_036 < n))
  get_ttl-decimal n t2 h =
      let same : get_ttl parse_duration (decimal n) t2 ≡ n * second =
        get_ttl-atoi (decimal n) t2 n (atoi-decimal n (omega arith)) ∙ seconds_lem n h in
      (
        same,
        subst (λ x. (is_neg x ≡ true) ↔ (9_223_372_036 < n)) (sym same) (is_neg-seconds_iff n h),
      )
