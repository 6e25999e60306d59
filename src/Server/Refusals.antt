-- ===== src/Server/Refusals.antt =====
-- cmd/xdas/handler.go: the steps of a PUT that write to Redis, or refuse to.
use xdas.Prelude.{
  ℕ, String, ◌∷◌, Bytes, ok, subst, arith, none, Bool, true, false, Run, returns,
  and_then-eq-returns, ◌≡◌, refl, ◌⊎◌, ◌≢◌, ◌↔◌, inl, inr, string_eq, nat_eq, Bool-cases,
  Option-cases, Result-cases,
}
use xdas.Errors.{Error}
use xdas.MagicByte.{MagicByte}
use xdas.MagicByte
use xdas.Conversion.{MetricsProvider, Converted, unpack}
use xdas.Server.Http.{Response, new_response, status_of}
use xdas.Server.Util.{write_to_buf_pool}
use xdas.Server.State.{
  World, Services, send_redis_write_err, send_request_body_read_err, is_max_bytes,
}
use xdas.Server.Put.{checked, store_value, put_converted}

module _ {S Message : Type 0} (services : Services S Message) where
  open services use {redis, lib, random, parse_duration}

  -- Redis was not written, and the client is told of a failure.
  abbrev pub IsRefused : World S → World S → Response → Type 0
  IsRefused s s' w' = (s'.store ≡ s.store) × (status_of w' ≢ 200)

  -- The one write to Redis, which is acknowledged exactly when it succeeded.
  abbrev pub IsStored : String → ℕ → Bytes → World S → World S → Response → Type 0
  IsStored key ttl value s s' w' =
      let (store, result) = redis.set s.store key value ttl in
      (s'.store ≡ store) × ((status_of w' ≡ 200) ↔ ((reply : String) × (result ≡ ok reply)))

  pub refused :
      (store : S) (s s' : World S) (w w' : Response)
      → ◌≡◌ {A = Run (World S × Response)} (returns (s, w)) (returns (s', w'))
      → s.store ≡ store
      → status_of w ≢ 200
      → (s'.store ≡ store) × (status_of w' ≢ 200)
  refused store s s' w w' e kept bad =
      subst {A = World S × Response} (λ x. (x.0.store ≡ store) × (status_of x.1 ≢ 200)) {x = (s, w)}
        {y = (s', w')} (cc e) (kept, bad)

  store_value-IsStored :
      (key : String) (ttl : ℕ) (o : MagicByte) (c : Bytes) (s : World S)
      → let (s', w') = store_value services key ttl o c s new_response in
        IsStored key ttl (MagicByte.get o ∷ c) s s' w'
  unfolding store_value write_to_buf_pool send_redis_write_err
  store_value-IsStored key ttl o c s =
      elim (Result-cases (redis.set s.store key (MagicByte.get o ∷ c) ttl).1) [
        | inl (reply, e) ↦ rw (e, store_value) (refl, (λ _. (reply, refl), λ _. refl))
        | inr (bad, e) ↦
            rw (e, store_value) (refl, (λ h. absurd (omega arith), λ (reply, f). absurd (cc f)))
      ]

  pub put_converted-IsStored :
      (key : String) (ttl : ℕ) (s s' : World S) (w' : Response) (m' : MetricsProvider)
      (c : Converted)
      → put_converted services key ttl s new_response (m', c) ≡ returns (s', w')
      → IsRefused s s' w'
        ⊎ ((c.error ≡ none) × IsStored key ttl (MagicByte.get c.magic_byte ∷ c.content) s s' w')
  unfolding put_converted
  put_converted-IsStored key ttl s s' w' m' c e = elim (Option-cases c.error) [
    | inl fine ↦
        let done : ◌≡◌ {A = Run (World S × Response)}
            (returns (
              store_value services key ttl c.magic_byte c.content (record s { metrics = m' })
                new_response))
            (returns (s', w')) =
          rw (fine, put_converted) at e in
        inr (
          fine,
          subst (λ x. IsStored key ttl (MagicByte.get c.magic_byte ∷ c.content) s x.0 x.1)
              {x = store_value services key ttl c.magic_byte c.content (record s { metrics = m' })
                new_response}
              {y = (s', w')} (cc done)
              (store_value-IsStored key ttl c.magic_byte c.content (record s { metrics = m' })),
        )
    | inr (bad, failed) ↦ inl (
        refused s.store (record s { metrics = m' }) s' _ w' (rw (failed, put_converted) at e) refl
          (λ h. omega arith))
  ]

  pub checked-IsRefused :
      (asked : Bool) (keyspace : String) (m : MagicByte) (content : Bytes) (s s' : World S)
      (w' : Response) (next : Run (World S × Response))
      → checked services asked keyspace m content s new_response next ≡ returns (s', w')
      → IsRefused s s' w' ⊎ (next ≡ returns (s', w'))
  unfolding checked
  checked-IsRefused false keyspace m content s s' w' next e = inr e
  checked-IsRefused true keyspace m content s s' w' next e =
      let (unpacked, ran, after) = and_then-eq-returns (unpack lib keyspace m content) _ e in
      elim (Result-cases unpacked) [
        | inl (pb, fine) ↦ inr (rw fine at after)
        | inr (bad, failed) ↦
            inl (refused s.store s s' _ w' (rw failed at after) refl (λ h. omega arith))
      ]

  pub unread : (x : Error) → status_of (send_request_body_read_err x new_response) ≢ 200
  unfolding send_request_body_read_err
  unread x h = elim (Bool-cases (is_max_bytes x)) [
    | inl over ↦ absurd (omega (arith, read_at 413 (rw (over, send_request_body_read_err) at h)))
    | inr broken_off ↦
        absurd (omega (arith, read_at 400 (rw (broken_off, send_request_body_read_err) at h)))
  ]
    where
      read_at : (n : ℕ) → n ≡ 200 → n ≡ 200
      read_at n e = e
