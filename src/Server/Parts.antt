-- ===== src/Server/Parts.antt =====
-- cmd/xdas/handler.go: the status of a GET over several keyspaces, and the parts that it writes.
pub mod Loop
use xdas.Prelude.{
  ℕ, suc, ◌+◌, ◌<◌, String, List, [], ◌∷◌, ◌++◌, Bytes, none, some, returns, and_then-eq-returns,
  ◌≡◌, refl, ap, ◌∙◌, ◌≢◌, ◌⊎◌, inl, inr, arith, nat_eq, Bool-cases, Option-cases, Result-cases,
  subst, nat_beq-false, ◌<>◌,
}
use native.Mathlib.Decide.{ℕ_discrete}
use xdas.MagicByte.{new_from}
use xdas.Conversion.{MetricsProvider, Converted, convert}
use xdas.Server.Http.{
  Request, Response, new_response, Header, Chunk, text, bytes, part, closing, write, status_of,
  set_response_header,
}
use xdas.Server.Store.{Entry, nil, other, string}
use xdas.Server.Util.{parse_bool}
use xdas.Server.State.{World, Services, get_id, send_redis_read_err, find_x}
use xdas.Server.Get.{not_found}
use xdas.Server.Multi.{
  Wanted, Progress, wanted, wanted_keys, req_keyspaces, namespace, multi_part, multi_converted,
  multi_entry, multi_entries, multi_end, multi_results, xdas_multi_get,
}
use xdas.Server.Reads.{find_x-store}
use xdas.Server.Parts.Loop.{parts, parts-append, IsCounting, multi_entries-IsCounting}

-- What a client can conclude from the status of a multi GET.
abbrev pub Multipart : Response → Type 0
Multipart w =
    ((status_of w ≡ 200) × (0 < parts w.body)) ⊎ ((status_of w ≢ 200) × (parts w.body ≡ 0))

not_found-Multipart : (w : Response) → w.sent ≡ none → parts w.body ≡ 0 → Multipart (not_found w)
unfolding not_found
not_found-Multipart w unsent empty = inr (
  rw unsent (ground arith),
  rw unsent (rw (parts-append w.body (text "Not Found\n" ∷ []), empty) refl),
)

closing-Multipart :
    (w : Response) (h : Header)
    → w.sent ≡ some (200, h)
    → 0 < parts w.body
    → Multipart (write closing w)
closing-Multipart w h sent some_part =
    inl (rw sent refl, rw sent (rw (parts-append w.body (closing ∷ [])) (omega arith)))

module _ {S Message : Type 0} (services : Services S Message) where
  open services use {redis}

  multi_end-Multipart :
      (store : S) (p : Progress S)
      → IsCounting store p
      → ((multi_end services p).0.store ≡ store) × Multipart (multi_end services p).1
  unfolding multi_end
  multi_end-Multipart store p v = elim (ℕ_discrete p.valid 0) [
    | yes none_valid ↦
        rw (none_valid, multi_end)
          (v.kept, not_found-Multipart p.response (v.unsent none_valid) (v.counted ∙ none_valid))
    | no some_valid ↦
        let (h, sent) = v.sent (omega arith) in
        rw (nat_beq-false p.valid 0 some_valid, multi_end)
          (v.kept, closing-Multipart p.response h sent (omega (arith, v.counted)))
  ]

  answered :
      (store : S) (result : World S × Response) (s' : World S) (w' : Response)
      → returns result ≡ returns (s', w')
      → (result.0.store ≡ store) × Multipart result.1
      → (s'.store ≡ store) × Multipart w'
  answered store result s' w' e h =
      subst (λ x. (x.0.store ≡ store) × Multipart x.1) {x = result} {y = (s', w')} (cc e) h

  multi_results-Multipart :
      (ks : List Wanted) (id : String) (s s' : World S) (r : Request) (w' : Response)
      → multi_results services ks id s r new_response ≡ returns (s', w')
      → (s'.store ≡ s.store) × Multipart w'
  unfolding multi_results send_redis_read_err
  multi_results-Multipart ks id s s' r w' e =
      elim (Result-cases (redis.mget s.store (wanted_keys ks))) [
        | inr (x, failed) ↦
            answered s.store _ s' w' (rw (failed, multi_results) at e)
              (refl, inr (λ h. omega arith, refl))
        | inl (results, got) ↦
            let (p, looped, ended) =
              and_then-eq-returns (multi_entries services 0 ks id r.query (begun) results) _
                (rw (got, multi_results) at e) in
            answered s.store _ s' w' ended (
              multi_end-Multipart s.store p (
                multi_entries-IsCounting services s.store 0 ks id r.query begun p results looped
                  (record {
                    kept = refl;
                    counted = refl;
                    unsent = λ _. refl;
                    sent = λ h. absurd (omega arith);
                  })))
      ]
    where
      begun : Progress S
      begun = record {
        world = s;
        response =
            set_response_header "Content-Type" ("multipart/mixed; boundary=" <> services.boundary)
              new_response;
        valid = 0;
      }

  -- If a multi GET with a fresh response returns, Redis is as it was, and either the status is 200
  -- and there is at least one part, or the status is another one and there is no part.
  pub xdas_multi_get-Multipart :
      (s s' : World S) (r : Request) (w' : Response)
      → xdas_multi_get services s r new_response ≡ returns (s', w')
      → (s'.store ≡ s.store) × Multipart w'
  unfolding xdas_multi_get
  xdas_multi_get-Multipart s s' r w' e =
      go (wanted s.config.keyspaces (get_id r) r.query (req_keyspaces s.config r.query)) refl
    where
      go :
          (ks : List Wanted)
          → wanted s.config.keyspaces (get_id r) r.query (req_keyspaces s.config r.query) ≡ ks
          → (s'.store ≡ s.store) × Multipart w'
      go [] found =
          answered s.store (s, not_found new_response) s' w' (rw (found, xdas_multi_get) at e)
            (refl, not_found-Multipart new_response refl refl)
      go (k ∷ ks) found =
          multi_results-Multipart (k ∷ ks) (get_id r) s s' r w' (rw (found, xdas_multi_get) at e)
