-- ===== src/Server/Counters.antt =====
-- cmd/xdas/handler_atomic.go: what the clients of a counter see.
use xdas.Prelude.{
  ℕ, ◌+◌, ◌%◌, String, List, [], ◌∷◌, some, Bool, true, not, ◌≡◌, refl, ◌⊎◌, inl, ok, err, returns,
  lookup, string_eq, nat_eq, is_neg, is_pos, int_mod, itoa, utf8, if◌then◌else◌,
}
use xdas.Errors.{redis_nil}
use xdas.Keyspaces.{ks_atomic}
use xdas.Server.Http.{Request, Response, new_response, text, bytes, write, query_get, get_header}
use xdas.Server.Store.{Redis, redis_key}
use xdas.Server.Util.{get_ttl}
use xdas.Server.Config.{KeyspaceConfig}
use xdas.Server.State.{World, Services, get_id}
use xdas.Server.Get.{xdas_get, xdas_common_get, atomic_get}
use xdas.Server.Atomic.{increment_of, atomic_inc, atomic_incr_by}

-- The sum of two `int64`s, and whether it is one.
abbrev pub sum : ℕ → ℕ → ℕ
sum v n = (v + n) % int_mod

abbrev pub fits : ℕ → ℕ → Bool
fits v n =
    if is_neg v
    then if is_neg n then is_neg (sum v n) else true
    else if is_neg n
    then true
    else not (is_neg (sum v n))

-- What Redis promises of the numbers that it keeps: INCRBY adds to the number at a key, or to 0 if
-- the key is missing, unless the sum overflows; EXPIRE with a time that is to come keeps the number;
-- and GET gives a number in decimal.
pub record Counting {S : Type 0} (redis : Redis S) : Type 1 where
  pub Holds : S → String → ℕ → Type 0
  pub adds :
      (s : S) (key : String) (v n : ℕ)
      → Holds s key v ⊎ ((redis.get s key ≡ err redis_nil) × (v ≡ 0))
      → fits v n ≡ true
      → (s' : S) × (redis.incr_by s key n ≡ (s', ok (sum v n))) × Holds s' key (sum v n)
  pub expires :
      (s : S) (key : String) (v ttl : ℕ)
      → Holds s key v
      → is_pos ttl ≡ true
      → (s' : S) × (redis.expire s key ttl ≡ (s', ok true)) × Holds s' key v
  pub shows : (s : S) (key : String) (v : ℕ) → Holds s key v → redis.get s key ≡ ok (utf8 (itoa v))

-- What a request adds.
abbrev pub addend : Request → ℕ
addend r = increment_of (query_get "n" r.query)

-- The counter after a list of requests, and what each of them is told.
abbrev pub total : ℕ → List Request → ℕ
total v [] = v
total v (r ∷ rs) = total (sum v (addend r)) rs

abbrev pub told : ℕ → List Request → List Response
told v [] = []
told v (r ∷ rs) = let v' = sum v (addend r) in write (text (itoa v')) new_response ∷ told v' rs

module _ {S Message : Type 0} (services : Services S Message) where
  open services use {redis, parse_duration}

  -- The requests one after the other, each with its response.
  unfoldable pub all_incs : World S → List Request → World S × List Response
  all_incs s [] = (s, [])
  all_incs s (r ∷ rs) =
      let (s', w) = atomic_inc services s r new_response in
      let (s'', ws) = all_incs s' rs in (s'', w ∷ ws)

  -- Requests for one counter, of which none asks for a time to live that is past or overflows.
  pub data Increments (keyspace id : String) (ks : KeyspaceConfig) : ℕ → List Request → Type 0 where
    no_more : {v : ℕ} → Increments keyspace id ks v []
    one_more :
        {v : ℕ} {r : Request} {rs : List Request}
        → r.keyspace ≡ keyspace
        → get_id r ≡ id
        → is_pos (get_ttl parse_duration (get_header "Xttl" r.header) ks.ttl) ≡ true
        → fits v (addend r) ≡ true
        → Increments keyspace id ks (sum v (addend r)) rs
        → Increments keyspace id ks v (r ∷ rs)

  -- Both commands succeed.
  atomic_incr_by-acks :
      (key : String) (n ttl v : ℕ) (s : World S) (w : Response) (s1 s2 : S) (b : Bool)
      → redis.incr_by s.store key n ≡ (s1, ok v)
      → redis.expire s1 key ttl ≡ (s2, ok b)
      → atomic_incr_by services key n ttl s w ≡ (record s { store = s2 }, write (text (itoa v)) w)
  unfolding atomic_incr_by
  atomic_incr_by-acks key n ttl v s w s1 s2 b added kept =
      rw (added, kept, atomic_incr_by) (rw (added, kept) refl)

  module _ (law : Counting redis) where
    -- A counter that stands at v, where a missing one stands at 0.
    abbrev StandsAt : S → String → ℕ → Type 0
    StandsAt store key v = law.Holds store key v ⊎ ((redis.get store key ≡ err redis_nil) × (v ≡ 0))

    -- One increment.
    atomic_inc-adds :
        (s : World S) (r : Request) (w : Response) (ks_conf : KeyspaceConfig) (v : ℕ)
        → lookup r.keyspace s.config.keyspaces ≡ some ks_conf
        → is_pos (get_ttl parse_duration (get_header "Xttl" r.header) ks_conf.ttl) ≡ true
        → StandsAt s.store (redis_key r.keyspace (get_id r)) v
        → fits v (addend r) ≡ true
        → (store : S) × (atomic_inc services s r w
            ≡ (record s { store = store }, write (text (itoa (sum v (addend r)))) w))
          × law.Holds store (redis_key r.keyspace (get_id r)) (sum v (addend r))
    unfolding atomic_inc
    atomic_inc-adds s r w ks_conf v known to_come stands whole =
        let key = redis_key r.keyspace (get_id r) in
        let ttl = get_ttl parse_duration (get_header "Xttl" r.header) ks_conf.ttl in
        let (s1, added, holds) = law.adds s.store key v (addend r) stands whole in
        let (s2, kept, still) = law.expires s1 key (sum v (addend r)) ttl holds to_come in
        (
          s2,
          rw (known, atomic_inc)
              (atomic_incr_by-acks key (addend r) ttl (sum v (addend r)) s w s1 s2 true added kept),
          still,
        )

    -- Requests to a counter that holds a number.
    all_incs-held :
        (keyspace id : String) (ks_conf : KeyspaceConfig) (s : World S) (v : ℕ) (rs : List Request)
        → lookup keyspace s.config.keyspaces ≡ some ks_conf
        → law.Holds s.store (redis_key keyspace id) v
        → Increments keyspace id ks_conf v rs
        → (store : S) × (all_incs s rs ≡ (record s { store = store }, told v rs))
          × law.Holds store (redis_key keyspace id) (total v rs)
    unfolding all_incs
    all_incs-held keyspace id ks_conf s v [] known held none_left = (s.store, refl, held)
    all_incs-held keyspace id ks_conf s v (r ∷ rs) known held
          (one_more same_ks same_id to_come whole more) =
        let (store, added, now) =
          atomic_inc-adds s r new_response ks_conf v (rw same_ks known) to_come
            (inl (rw (same_id, same_ks) held)) whole in
        let (last, ran, holds) =
          all_incs-held keyspace id ks_conf (record s { store = store }) (sum v (addend r)) rs known
            (rw (same_id, same_ks) at now) more in
        (last, rw (added, ran) refl, holds)

    -- Requests to one that may be missing.
    all_incs-stands :
        (keyspace id : String) (ks_conf : KeyspaceConfig) (s : World S) (v : ℕ) (r : Request)
        (rs : List Request)
        → lookup keyspace s.config.keyspaces ≡ some ks_conf
        → StandsAt s.store (redis_key keyspace id) v
        → Increments keyspace id ks_conf v (r ∷ rs)
        → (store : S) × (all_incs s (r ∷ rs) ≡ (record s { store = store }, told v (r ∷ rs)))
          × law.Holds store (redis_key keyspace id) (total v (r ∷ rs))
    unfolding all_incs
    all_incs-stands keyspace id ks_conf s v r rs known stands
          (one_more same_ks same_id to_come whole more) =
        let (store, added, now) =
          atomic_inc-adds s r new_response ks_conf v (rw same_ks known) to_come
            (rw (same_id, same_ks) stands) whole in
        let (last, ran, holds) =
          all_incs-held keyspace id ks_conf (record s { store = store }) (sum v (addend r)) rs known
            (rw (same_id, same_ks) at now) more in
        (last, rw (added, ran) refl, holds)

    -- A GET of a counter.
    xdas_get-held :
        (s : World S) (q : Request) (w : Response) (ks_conf : KeyspaceConfig) (v : ℕ)
        → lookup q.keyspace s.config.keyspaces ≡ some ks_conf
        → ks_conf.kind ≡ ks_atomic
        → law.Holds s.store (redis_key q.keyspace (get_id q)) v
        → xdas_get services s q w ≡ returns (s, write (bytes (utf8 (itoa v))) w)
    unfolding xdas_get xdas_common_get atomic_get
    xdas_get-held s q w ks_conf v known kind holds =
        rw (known, xdas_get, xdas_common_get)
          (rw kind
            (rw (law.shows s.store (redis_key q.keyspace (get_id q)) v holds, atomic_get) refl))

    -- Redis counting as it promises, from a counter of an atomic keyspace that is missing or holds a
    -- number, one or more increments of that counter, by any clients, of which no sum overflows and no
    -- time to live is past, are each told the sum so far; and a GET of the counter after them answers
    -- with the whole sum in decimal and changes nothing.
    pub xdas_get-atomic_inc :
        (keyspace id : String) (ks_conf : KeyspaceConfig) (s : World S) (v : ℕ) (r q : Request)
        (rs : List Request)
        → lookup keyspace s.config.keyspaces ≡ some ks_conf
        → ks_conf.kind ≡ ks_atomic
        → law.Holds s.store (redis_key keyspace id) v
          ⊎ ((redis.get s.store (redis_key keyspace id) ≡ err redis_nil) × (v ≡ 0))
        → Increments keyspace id ks_conf v (r ∷ rs)
        → q.keyspace ≡ keyspace
        → get_id q ≡ id
        → let (s', ws) = all_incs s (r ∷ rs) in
          (ws ≡ told v (r ∷ rs))
          × (xdas_get services s' q new_response
              ≡ returns (s', write (bytes (utf8 (itoa (total v (r ∷ rs))))) new_response))
    xdas_get-atomic_inc keyspace id ks_conf s v r q rs known kind stands incs same_ks same_id =
        let (store, ran, holds) = all_incs-stands keyspace id ks_conf s v r rs known stands incs in
        rw ran (
          refl,
          xdas_get-held (record s { store = store }) q new_response ks_conf (total v (r ∷ rs))
              (rw same_ks known) kind (rw (same_id, same_ks) holds),
        )
