-- ===== src/Server/RoundTrip.antt =====
-- cmd/xdas/handler.go: a value that was put is got back.
use xdas.Prelude.{ℕ, String, ◌∷◌, Bytes, ok, returns, ◌≡◌, sym, subst, ◌≢◌, string_eq}
use xdas.Keyspaces.{ks_atomic}
use xdas.MagicByte.{MagicByte, new_from}
use xdas.MagicByte
use xdas.MagicByte.RoundTrip.{IsValid, new_from-get}
use xdas.Conversion.{MetricsProvider, Converted, Counter, target, inc}
use xdas.Conversion.Layers.{payload, Works, IsSupported}
use xdas.Conversion.Counting.{IsCounted, inc_cases}
use xdas.Conversion.Outcome.{Outcome, unchanged, converted, failed, convert-Outcome}
use xdas.Conversion.Preservation.{convert-payload}
use xdas.Server.Http.{Request, Response, fprintln, query_get}
use xdas.Server.Store.{Redis, redis_key}
use xdas.Server.Config.{KeyspaceConfig}
use xdas.Server.State.{World, Services, get_id}
use xdas.Server.Get.{send_value, xdas_get}
use xdas.Server.Put.{xdas_put}
use xdas.Server.Storing.{form_of, IsAccepted, put-stores, get-answers}

-- What Redis promises: a write succeeds, and a read finds what was written last at its key.
abbrev pub Keeps : {S : Type 0} → Redis S → Type 0
Keeps {S} redis =
    (s : S) (key : String) (value : Bytes) (ttl : ℕ)
    → (s' : S) × (reply : String) × (redis.set s key value ttl ≡ (s', ok reply))
      × (redis.get s' key ≡ ok value)

-- A conversion leaves the keyspace countable.
Outcome-IsCounted :
    (keyspace : String) (i o : MagicByte) (in_data : Bytes) (m m' : MetricsProvider) (c : Converted)
    → IsCounted keyspace m
    → Outcome keyspace i o in_data m m' c
    → IsCounted keyspace m'
Outcome-IsCounted keyspace i o in_data m m' c counted outcome = elim outcome [
  | unchanged same unconverted uncounted ↦ subst (IsCounted keyspace) (sym uncounted) counted
  | converted differ result carried e ↦ after_inc _ e
  | failed differ bad carried e ↦ after_inc _ e
]
  where
    after_inc : (counter : Counter) → inc counter keyspace m ≡ returns m' → IsCounted keyspace m'
    after_inc counter e =
        let (m'', bumped, keeps, _) = (inc_cases counter keyspace m).0 counted in
        subst (IsCounted keyspace) (cc (bumped, e)) ((keeps keyspace).1 counted)

module _ {S Message : Type 0} (services : Services S Message) where
  open services use {redis, lib, random}

  -- Redis keeping what is written and the libraries working, an accepted PUT to a keyspace that is
  -- not atomic and can be counted, whose stored and output forms are supported, fit into their bits
  -- and have the content type of the request, succeeds with a reply of Redis, if its body opens to a
  -- payload; and a GET of the same keyspace and id after it, without a format, answers with a value
  -- in the output form of which the payload, under encryption and compression, is the one that was
  -- put.
  pub xdas_get-xdas_put :
      (s : World S) (r q : Request) (w v : Response) (ks_conf : KeyspaceConfig) (content p : Bytes)
      → Works lib (random 0)
      → Keeps redis
      → IsCounted r.keyspace s.metrics
      → IsAccepted s r ks_conf content
      → ks_conf.kind ≢ ks_atomic
      → let stored = target (form_of r) ks_conf.store.magic_byte in
        let sent = target stored ks_conf.output.magic_byte in
        IsSupported stored
        → IsValid stored
        → (form_of r).ctv ≡ stored.ctv
        → IsSupported sent
        → stored.ctv ≡ sent.ctv
        → payload lib (form_of r) content ≡ returns (ok p)
        → q.keyspace ≡ r.keyspace
        → get_id q ≡ get_id r
        → query_get "format" q.query ≡ ""
        → (s' : World S) × (reply : String) × (xdas_put services s r w
            ≡ returns (s', fprintln reply w))
          × ((m : MetricsProvider) × (c : Bytes) × (xdas_get services s' q v
                ≡ returns (record s' { metrics = m }, send_value sent c v))
              × (payload lib sent c ≡ returns (ok p)))
  xdas_get-xdas_put s r q w v ks_conf content p works keeps counted a kind supported valid same_in
        out_supported same_out plain same_ks same_id format =
      let stored = target (form_of r) ks_conf.store.magic_byte in
      let (m1, c1, converts, under) =
        convert-payload lib (random 0) r.keyspace (form_of r) ks_conf.store.magic_byte content
          s.metrics p works counted supported same_in plain in
      let counted1 =
        Outcome-IsCounted r.keyspace (form_of r) stored content s.metrics m1 _ counted (
          convert-Outcome lib (random 0) r.keyspace (form_of r) ks_conf.store.magic_byte content
            s.metrics m1 _ converts) in
      let (store, reply, sets, gets) =
        keeps s.store (redis_key r.keyspace (get_id r)) (MagicByte.get stored ∷ c1) _ in
      let s' : World S = record s { metrics = m1; store = store } in
      let (m2, c2, converts2, under2) =
        convert-payload lib (random 0) r.keyspace stored ks_conf.output.magic_byte c1 m1 p works
          counted1 out_supported same_out under in
      (
        s',
        reply,
        put-stores services s r w ks_conf content c1 stored m1 store reply a converts sets,
        (
          m2,
          c2,
          get-answers services s' q v ks_conf c1 c2 (MagicByte.get stored) _ m2
              (rw same_ks a.configured) kind format (rw (same_id, same_ks) gets)
              (rw (same_ks, new_from-get stored valid) converts2),
          under2,
        ),
      )
