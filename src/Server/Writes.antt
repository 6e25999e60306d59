-- ===== src/Server/Writes.antt =====
-- cmd/xdas/handler.go: what a PUT can do to Redis, whatever the request and whatever fails.
use xdas.Prelude.{
  ℕ, String, ◌∷◌, Bytes, arith, none, some, Bool, false, Run, returns, and_then,
  and_then-eq-returns, ◌≡◌, refl, ◌⊎◌, inl, inr, lookup, string_eq, ◌==◌, nat_eq, ◌&&◌, not,
  Bool-cases, Option-cases,
}
use xdas.MagicByte.{MagicByte}
use xdas.MagicByte
use xdas.Conversion.{MetricsProvider, Converted, convert}
use xdas.Server.Http.{Request, Response, new_response, get_header}
use xdas.Server.Store.{redis_key}
use xdas.Server.Util.{read_all, get_ttl}
use xdas.Server.Config.{KeyspaceConfig}
use xdas.Server.State.{World, Services, get_id}
use xdas.Server.Put.{mismatches, checked, put_converted, put_body, after_reading, xdas_put}
use xdas.Server.Storing.{form_of}
use xdas.Server.Refusals.{
  IsRefused, IsStored, refused, put_converted-IsStored, checked-IsRefused, unread,
}

module _ {S Message : Type 0} (services : Services S Message) where
  open services use {redis, lib, random, parse_duration}

  -- The write of a PUT: the body in the form that `Convert` gave it, under the request's key.
  abbrev pub IsWritten : World S → Request → Bytes → KeyspaceConfig → World S → Response → Type 0
  IsWritten s r content ks_conf s' w' =
      (m' : MetricsProvider) × (o : MagicByte) × (c : Bytes) × (convert lib (random 0) r.keyspace
          (form_of r) ks_conf.store.magic_byte content s.metrics
        ≡ returns (m', record { magic_byte = o; content = c; error = none }))
      × IsStored services (redis_key r.keyspace (get_id r))
          (get_ttl parse_duration (get_header "Xttl" r.header) ks_conf.ttl) (MagicByte.get o ∷ c) s
          s' w'

  put_body-IsWritten :
      (s s' : World S) (r : Request) (w' : Response) (ks_conf : KeyspaceConfig) (content : Bytes)
      → put_body services r.keyspace ks_conf
          (redis_key r.keyspace (get_id r))
          (form_of r)
          content
          s
          r
          new_response
        ≡ returns (s', w')
      → IsRefused services s s' w' ⊎ IsWritten s r content ks_conf s' w'
  unfolding put_body
  put_body-IsWritten s s' r w' ks_conf content e =
      elim (checked-IsRefused services s.config.validate_content r.keyspace (form_of r) content s s'
        w' second e) [
          | inl kept ↦ inl kept
          | inr e2 ↦
              elim (checked-IsRefused services unpacks r.keyspace (form_of r) content s s' w'
                (and_then chain (put_converted services key ttl s new_response)) e2) [
                  | inl kept ↦ inl kept
                  | inr e3 ↦ converted e3
                ]
        ]
    where
      unpacks : Bool
      unpacks = ks_conf.store.magic_byte.cev == 0 && not ((form_of r).cev == 0)

      key : String
      key = redis_key r.keyspace (get_id r)

      chain : Run (MetricsProvider × Converted)
      chain =
          convert lib (random 0) r.keyspace (form_of r) ks_conf.store.magic_byte content s.metrics

      ttl : ℕ
      ttl = get_ttl parse_duration (get_header "Xttl" r.header) ks_conf.ttl

      second : Run (World S × Response)
      second =
          checked services unpacks r.keyspace (form_of r) content s new_response
            (and_then chain (put_converted services key ttl s new_response))

      converted :
          and_then chain (put_converted services key ttl s new_response) ≡ returns (s', w')
          → IsRefused services s s' w' ⊎ IsWritten s r content ks_conf s' w'
      converted e3 =
          let ((m', c), ran, after) = and_then-eq-returns chain _ e3 in
          elim (put_converted-IsStored services _ ttl s s' w' m' c after) [
            | inl kept ↦ inl kept
            | inr (fine, written) ↦ inr (m', c.magic_byte, c.content, cc (ran, fine), written)
          ]

  -- If a PUT with a fresh response returns, then either Redis was not written and the status is not
  -- 200, or the keyspace is configured, the headers match its input form, the body was read to its
  -- end and converted from the request's form into the keyspace's stored form, the one write was
  -- that result with its form's byte in front, under the key of the request's keyspace and id, and
  -- the status is 200 exactly when that write succeeded.
  pub xdas_put-IsWritten :
      (s s' : World S) (r : Request) (w' : Response)
      → xdas_put services s r new_response ≡ returns (s', w')
      → IsRefused services s s' w'
        ⊎ ((ks_conf : KeyspaceConfig) × (content : Bytes) × (lookup r.keyspace s.config.keyspaces
              ≡ some ks_conf)
            × (mismatches ks_conf.input.magic_byte (form_of r) ≡ false)
            × (read_all r.body ≡ returns (content, none))
            × IsWritten s r content ks_conf s' w')
  unfolding xdas_put
  xdas_put-IsWritten s s' r w' e = elim (Option-cases (lookup r.keyspace s.config.keyspaces)) [
    | inl unknown ↦
        inl
          (refused services s.store s s' _ w' (rw (unknown, xdas_put) at e) refl (λ h. omega arith))
    | inr (ks_conf, known) ↦ elim (Bool-cases (mismatches ks_conf.input.magic_byte (form_of r))) [
      | inl bad ↦ inl (
          refused services s.store s s' _ w' (rw bad at (rw (known, xdas_put) at e)) refl
            (λ h. omega arith))
      | inr good ↦ body ks_conf known good (rw good at (rw (known, xdas_put) at e))
    ]
  ]
    where
      body :
          (ks_conf : KeyspaceConfig)
          → lookup r.keyspace s.config.keyspaces ≡ some ks_conf
          → mismatches ks_conf.input.magic_byte (form_of r) ≡ false
          → and_then (read_all r.body) (
              after_reading services r.keyspace ks_conf
                (redis_key r.keyspace (get_id r))
                (form_of r)
                s
                r
                new_response)
            ≡ returns (s', w')
          → IsRefused services s s' w'
            ⊎ ((ks_conf : KeyspaceConfig) × (content : Bytes) × (lookup r.keyspace
                    s.config.keyspaces
                  ≡ some ks_conf)
                × (mismatches ks_conf.input.magic_byte (form_of r) ≡ false)
                × (read_all r.body ≡ returns (content, none))
                × IsWritten s r content ks_conf s' w')
      body ks_conf known good e2 =
          let ((content, bad), read, after) = and_then-eq-returns (read_all r.body) _ e2 in
          elim (Option-cases bad) [
            | inr (x, cut) ↦ inl (
                refused services s.store s s' _ w' (rw (cut, after_reading) at after) refl
                  (unread services x))
            | inl whole ↦
                elim (put_body-IsWritten s s' r w' ks_conf content
                  (rw (whole, after_reading) at after)) [
                    | inl kept ↦ inl kept
                    | inr written ↦ inr (ks_conf, content, known, good, cc (read, whole), written)
                  ]
          ]
