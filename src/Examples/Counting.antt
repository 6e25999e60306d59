-- ===== src/Examples/Counting.antt =====
-- A counter at concrete requests, over a store of numbers.
use xdas.Prelude.{
  ℕ, String, List, [], ◌∷◌, ◌++◌, Bytes, Option, none, some, Bool, true, false, lookup, insert,
  lookup-insert, string_eq, str_eq_refl, Result, ok, err, returns, ◌≡◌, refl, ◌⊎◌, inl, inr, utf8,
  itoa, if◌then◌else◌, Option-cases, arith, subst,
}
use xdas.Errors.{Error, redis_nil, external}
use xdas.Keyspaces.{ks_atomic}
use xdas.Server.{
  Request, new_response, bytes, write, Redis, KeyspaceConfig, World, Services, xdas_get, get_id,
  query_get, get_header, get_ttl,
}
use xdas.Server.{increment_of}
use xdas.Server.Counters.{
  sum, fits, Counting, told, total, all_incs, no_more, one_more, xdas_get-atomic_inc,
}
use xdas.Examples.Fixtures.{toy_lib, toy_random}
use xdas.Examples.Serving.{pa_config, world, get_request}

abbrev Numbers : Type 0
Numbers = List (String × ℕ)

abbrev found : Option ℕ → Result Error Bytes
found none = err redis_nil
found (some v) = ok (utf8 (itoa v))

abbrev or_zero : Option ℕ → ℕ
or_zero none = 0
or_zero (some v) = v

abbrev added : Numbers → String → ℕ → ℕ → Numbers × Result Error ℕ
added s key v n = if fits v n then (insert key (sum v n) s, ok (sum v n)) else (s, err (external 7))

abbrev numbers : Redis Numbers
numbers = record {
  get = λ s key. found (lookup key s);
  set = λ s key value ttl. (s, ok "OK");
  del = λ s key. (s, ok 0);
  mget = λ s keys. ok [];
  exists = λ s key. 0;
  incr_by = λ s key n. added s key (or_zero (lookup key s)) n;
  expire = λ s key ttl. (s, ok true);
}

numbers-stand :
    (s : Numbers) (key : String) (v : ℕ)
    → (lookup key s ≡ some v) ⊎ ((found (lookup key s) ≡ err redis_nil) × (v ≡ 0))
    → or_zero (lookup key s) ≡ v
numbers-stand s key v (inl e) = rw e refl
numbers-stand s key v (inr (missing, zeroed)) = elim (Option-cases (lookup key s)) [
  | inl absent ↦ rw (absent, zeroed) refl
  | inr (n, e) ↦ absurd (no_number n (rw e at missing))
]
  where
    no_number : (n : ℕ) → found (some n) ≡ err redis_nil → ⊥
    no_number n e = cc e

numbers-Counting : Counting numbers
numbers-Counting = record {
  Holds = λ s key v. lookup key s ≡ some v;
  adds = λ s key v n stands whole. (
    insert key (sum v n) s,
    rw (numbers-stand s key v stands, whole) refl,
    rw (lookup-insert key key (sum v n) s) (rw (str_eq_refl key) refl),
  );
  expires = λ s key v ttl holds to_come. (s, refl, holds);
  shows = λ s key v holds. rw holds refl;
}

abbrev counting_services : Services Numbers Bytes
counting_services = record {
  redis = numbers;
  lib = toy_lib [];
  parse_duration = λ t. none;
  random = λ n. toy_random;
  boundary = "b";
  create_part = λ n. none;
  valid_string = λ b. true;
}

abbrev hits_config : KeyspaceConfig
hits_config = record pa_config { kind = ks_atomic }

abbrev hits_world : World Numbers
hits_world = record {
  store = [];
  config = record world.config { keyspaces = ("hits", hits_config) ∷ [] };
  metrics = world.metrics;
  redis_read_err = 0;
  redis_write_err = 0;
  spawned = [];
  counter = [];
  duration = 0;
}

-- By 5, by -7, and by 1.
abbrev by : String → Request
by n = record get_request { keyspace = "hits"; query = ("n", n) ∷ [] }

abbrev later_incs : List Request
later_incs = by "-7" ∷ by "" ∷ []

xdas_get-atomic_inc_example :
    let (s', ws) = all_incs counting_services hits_world (by "5" ∷ later_incs) in
    (ws ≡ told 0 (by "5" ∷ later_incs))
    × (xdas_get counting_services s' (by "") new_response
        ≡ returns (s', write (bytes (utf8 (itoa (total 0 (by "5" ∷ later_incs))))) new_response))
unfolding lookup get_id query_get get_header xdas.Prelude.parse_int get_ttl
xdas_get-atomic_inc_example =
    xdas_get-atomic_inc counting_services numbers-Counting "hits" "AB01" hits_config hits_world 0
      (by "5") (by "") later_incs refl refl (inr (refl, refl))
      (one_more refl refl refl refl
        (one_more refl refl refl refl (one_more refl refl refl refl no_more)))
      refl refl

-- The text of the sum.
hits_total : utf8 (itoa (total 0 (by "5" ∷ later_incs))) ≡ utf8 "-1"
unfolding query_get xdas.Prelude.parse_int itoa utf8
hits_total = refl

-- A text that leaves 64 bits before a letter adds the largest number, and one with a letter first adds 1.
out_of_range : increment_of "99999999999999999999x" ≡ 9_223_372_036_854_775_807
unfolding xdas.Prelude.parse_int
out_of_range = refl

no_number : increment_of "12x" ≡ 1
unfolding xdas.Prelude.parse_int
no_number = refl
