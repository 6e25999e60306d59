-- ===== src/Server/Answers.antt =====
-- cmd/xdas/handler.go: the parts of a multi GET, in the order of the keyspaces that are asked for.
pub mod Entries
use xdas.Prelude.{
  ℕ, ◌+◌, String, List, [], ◌∷◌, ◌++◌, Bytes, none, some, Run, returns, and_then-eq-returns,
  returns-inj, ok, err, arith, of_if, ◌≡◌, refl, sym, ap, ◌∙◌, ◌≢◌, inl, inr, nat_eq, ◌==◌,
  Bool-cases, Option-cases, Result-cases, subst, ◌<>◌,
}
use mathlib.Core.List.{append-nil, append_assoc}
use xdas.Errors.{Error}
use xdas.MagicByte.{new_from, set_content_headers}
use xdas.Conversion.{MetricsProvider, Converted, convert}
use xdas.Server.Http.{
  Request, Response, new_response, Header, Chunk, text, bytes, part, closing, write, write_header,
  http_error, status_of, set_header, set_response_header,
}
use xdas.Server.Store.{Entry, nil, other, string}
use xdas.Server.Util.{parse_bool}
use xdas.Server.State.{World, Services, get_id, send_redis_read_err, find_x}
use xdas.Server.Get.{not_found}
use xdas.Server.Multi.{
  Wanted, Progress, wanted, wanted_keys, req_keyspaces, namespace, multi_part, multi_converted,
  multi_entry, multi_entries, multi_end, multi_results, xdas_multi_get,
}
use xdas.Server.Answers.Entries.{parts_of, parts_of-write, Answers, Adds, multi_entries-Answers}

module _ {S Message : Type 0} (services : Services S Message) where
  open services use {redis}

  not_found-parts : (w : Response) → parts_of (not_found w).body ≡ parts_of w.body
  unfolding not_found
  not_found-parts w =
      parts_of-write (write_header 404 w) _ ∙ append-nil _ ∙ ap parts_of (write_header-body w)
    where
      write_header-body : (w : Response) → (write_header 404 w).body ≡ w.body
      write_header-body w = ground arith

  multi_end-parts :
      (p : Progress S) → parts_of (multi_end services p).1.body ≡ parts_of p.response.body
  unfolding multi_end
  multi_end-parts p =
      of_if (λ (x : World S × Response). parts_of x.1.body ≡ parts_of p.response.body)
        (p.valid == 0) (p.world, not_found p.response) (p.world, write closing p.response)
        (not_found-parts p.response)
        (parts_of-write p.response closing ∙ append-nil (parts_of p.response.body))

  -- The entries of a multi GET that are read, and what they give.
  multi_results-Answers :
      (ks : List Wanted) (id : String) (s s' : World S) (r : Request) (w' : Response)
      → multi_results services ks id s r new_response ≡ returns (s', w')
      → status_of w' ≡ 200
      → (results : List Entry) × (redis.mget s.store (wanted_keys ks) ≡ ok results)
        × Answers services 0 ks results (parts_of w'.body)
  unfolding multi_results Adds send_redis_read_err http_error
  multi_results-Answers ks id s s' r w' e fine =
      elim (Result-cases (redis.mget s.store (wanted_keys ks))) [
        | inr (x, wrong) ↦
            let done : send_redis_read_err s new_response ≡ (s', w') =
              returns-inj (rw (wrong, multi_results) at e) in
            absurd (omega (arith, ap (λ x. status_of x.1) done, fine))
        | inl (results, got) ↦
            let (p, looped, done) =
              and_then-eq-returns (multi_entries services 0 ks id r.query begun results) _
                (rw (got, multi_results) at e) in
            let (ps, added, answers) =
              multi_entries-Answers services 0 ks id r.query begun p results looped in
            let last : multi_end services p ≡ (s', w') = cc done in
            (
              results,
              got,
              subst (Answers services 0 ks results)
                  (sym added ∙ sym (multi_end-parts p) ∙ ap (λ x. parts_of x.1.body) last) answers,
            )
      ]
    where
      begun : Progress S
      begun = record {
        world = s;
        response =
            set_response_header "Content-Type" ("multipart/mixed; boundary=" <> services.boundary)
              new_response;
        valid = 0;
      }

  -- If a multi GET with a fresh response answers with the status 200, Redis has given its results for
  -- the keys of the configured keyspaces among those that are asked for, and the parts of the body are
  -- those that the results give, in their order: none for a value that is missing, empty or no text,
  -- whose conversion fails, or whose key or header is refused; and else one with the converted value,
  -- its content headers, and the name of its keyspace.
  pub xdas_multi_get-Answers :
      (s s' : World S) (r : Request) (w' : Response)
      → xdas_multi_get services s r new_response ≡ returns (s', w')
      → status_of w' ≡ 200
      → (results : List Entry) × (redis.mget s.store (
            wanted_keys
              (wanted s.config.keyspaces (get_id r) r.query (req_keyspaces s.config r.query)))
          ≡ ok results)
        × Answers services 0
            (wanted s.config.keyspaces (get_id r) r.query (req_keyspaces s.config r.query))
            results
            (parts_of w'.body)
  unfolding xdas_multi_get not_found
  xdas_multi_get-Answers s s' r w' e fine =
      go (wanted s.config.keyspaces (get_id r) r.query (req_keyspaces s.config r.query)) refl
    where
      go :
          (ks : List Wanted)
          → wanted s.config.keyspaces (get_id r) r.query (req_keyspaces s.config r.query) ≡ ks
          → (results : List Entry) × (redis.mget s.store (wanted_keys ks) ≡ ok results)
            × Answers services 0 ks results (parts_of w'.body)
      go [] found =
          let done : (s, not_found new_response) ≡ (s', w') =
            returns-inj (rw (found, xdas_multi_get) at e) in
          absurd (omega (arith, ap (λ x. status_of x.1) done, fine))
      go (k ∷ ks) found =
          multi_results-Answers (k ∷ ks) (get_id r) s s' r w' (rw (found, xdas_multi_get) at e) fine
