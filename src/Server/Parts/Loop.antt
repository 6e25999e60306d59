-- ===== src/Server/Parts/Loop.antt =====
-- cmd/xdas/handler.go: what the second loop of a multi GET keeps.
use xdas.Prelude.{
  ℕ, suc, ◌+◌, ◌<◌, String, List, [], ◌∷◌, ◌++◌, Bytes, none, some, returns, and_then-eq-returns,
  ◌≡◌, refl, ap, ◌∙◌, inl, inr, arith, nat_eq, Bool-cases, Option-cases, subst,
}
use native.Mathlib.Decide.{ℕ_discrete}
use xdas.MagicByte.{new_from}
use xdas.Conversion.{MetricsProvider, Converted, convert}
use xdas.Server.Http.{Response, Header, Chunk, text, bytes, part, closing, write}
use xdas.Server.Store.{Entry, nil, other, string}
use xdas.Server.Util.{parse_bool}
use xdas.Server.State.{Services, find_x}
use xdas.Server.Multi.{
  Wanted, Progress, namespace, multi_part, multi_converted, multi_entry, multi_entries,
}
use xdas.Server.Reads.{find_x-store}

-- The parts of a body.
abbrev pub parts : List Chunk → ℕ
parts [] = 0
parts (part h b ∷ cs) = suc (parts cs)
parts (text t ∷ cs) = parts cs
parts (bytes b ∷ cs) = parts cs
parts (closing ∷ cs) = parts cs

pub parts-append : (xs ys : List Chunk) → parts (xs ++ ys) ≡ parts xs + parts ys
parts-append [] ys = omega arith
parts-append (part h b ∷ xs) ys = omega (arith, parts-append xs ys)
parts-append (text t ∷ xs) ys = parts-append xs ys
parts-append (bytes b ∷ xs) ys = parts-append xs ys
parts-append (closing ∷ xs) ys = parts-append xs ys

write-body : (w : Response) (c : Chunk) → (write c w).body ≡ w.body ++ c ∷ []
write-body w c = ground arith

write-sent_first :
    (w : Response) (c : Chunk) → w.sent ≡ none → (write c w).sent ≡ some (200, w.header)
write-sent_first w c e = rw e refl

write-sent_later :
    (w : Response) (c : Chunk) (x : ℕ × Header) → w.sent ≡ some x → (write c w).sent ≡ some x
write-sent_later w c x e = rw e refl

-- The second loop has counted the parts, and has sent a status only with the first.
pub record IsCounting {S : Type 0} (store : S) (p : Progress S) : Type 0 where
  pub kept : p.world.store ≡ store
  pub counted : parts p.response.body ≡ p.valid
  pub unsent : p.valid ≡ 0 → p.response.sent ≡ none
  pub sent : 0 < p.valid → (h : Header) × (p.response.sent ≡ some (200, h))

module _ {S Message : Type 0} (services : Services S Message) (store : S) where
  open services use {redis, lib, random, create_part}

  written :
      (p : Progress S) (h : Header) (b : Bytes)
      → IsCounting store p
      → IsCounting store (record p { response = write (part h b) p.response; valid = p.valid + 1 })
  written p h b v = record {
    kept = v.kept;
    counted = omega (
      arith,
      ap parts (write-body p.response (part h b)),
      parts-append p.response.body (part h b ∷ []),
      v.counted,
    );
    unsent = λ e. absurd (omega arith);
    sent = λ _. elim (ℕ_discrete p.valid 0) [
      | yes first ↦ (p.response.header, write-sent_first p.response (part h b) (v.unsent first))
      | no later ↦
          let (h', e) = v.sent (omega arith) in
          (h', write-sent_later p.response (part h b) (200, h') e)
    ];
  }

  multi_part-IsCounting :
      (n : ℕ) (k : Wanted) (c : Converted) (p : Progress S)
      → IsCounting store p
      → IsCounting store (multi_part services n k c p)
  unfolding multi_part
  multi_part-IsCounting n k c p v = elim (Option-cases (namespace k.keyspace k.key)) [
    | inl unnamed ↦ rw (unnamed, multi_part) v
    | inr (name, named) ↦ elim (Option-cases (create_part n)) [
      | inl fine ↦ rw (named, multi_part) (rw fine (written p _ c.content v))
      | inr (e, failed) ↦ rw (named, multi_part) (rw failed v)
    ]
  ]

  multi_converted-IsCounting :
      (n : ℕ) (k : Wanted) (p : Progress S) (m' : MetricsProvider) (c : Converted)
      → IsCounting store p
      → IsCounting store (multi_converted services n k p (m', c))
  unfolding multi_converted
  multi_converted-IsCounting n k p m' c v = elim (Option-cases c.error) [
    | inl fine ↦
        rw (fine, multi_converted)
          (multi_part-IsCounting n k c (record p { world = record p.world { metrics = m' } })
            (recounted))
    | inr (e, failed) ↦ rw (failed, multi_converted) recounted
  ]
    where
      recounted : IsCounting store (record p { world = record p.world { metrics = m' } })
      recounted = record { kept = v.kept; counted = v.counted; unsent = v.unsent; sent = v.sent }

  multi_entry-IsCounting :
      (n : ℕ) (k : Wanted) (id : String) (query : List (String × String)) (p p' : Progress S)
      (e : Entry)
      → multi_entry services n k id query p e ≡ returns p'
      → IsCounting store p
      → IsCounting store p'
  unfolding multi_entry
  multi_entry-IsCounting n k id query p p' nil h v =
      elim (Bool-cases (parse_bool "nofindx" query)) [
        | inl skipped ↦ subst (IsCounting store) (cc (rw (skipped, multi_entry) at h)) v
        | inr asked ↦
            let (s, found, done) =
              and_then-eq-returns (find_x k.keyspace id p.world) _ (rw (asked, multi_entry) at h) in
            let after : IsCounting store (record p { world = s }) = record {
              kept = find_x-store k.keyspace id p.world s found ∙ v.kept;
              counted = v.counted;
              unsent = v.unsent;
              sent = v.sent;
            } in
            subst (IsCounting store) (cc done) after
      ]
  multi_entry-IsCounting n k id query p p' other h v = subst (IsCounting store) (cc h) v
  multi_entry-IsCounting n k id query p p' (string []) h v = subst (IsCounting store) (cc h) v
  multi_entry-IsCounting n k id query p p' (string (b ∷ rest)) h v =
      let ((m', c), ran, done) =
        and_then-eq-returns
          (convert lib (random n) k.keyspace (new_from b) k.ks_conf.output.magic_byte rest
            p.world.metrics)
          _ h in
      subst (IsCounting store) (cc done) (multi_converted-IsCounting n k p m' c v)

  pub multi_entries-IsCounting :
      (n : ℕ) (ks : List Wanted) (id : String) (query : List (String × String)) (p p' : Progress S)
      (es : List Entry)
      → multi_entries services n ks id query p es ≡ returns p'
      → IsCounting store p
      → IsCounting store p'
  unfolding multi_entries
  multi_entries-IsCounting n ks id query p p' [] h v = subst (IsCounting store) (cc h) v
  multi_entries-IsCounting n [] id query p p' (e ∷ es) h v = absurd (cc h)
  multi_entries-IsCounting n (k ∷ ks) id query p p' (e ∷ es) h v =
      let (next, first, others) = and_then-eq-returns (multi_entry services n k id query p e) _ h in
      multi_entries-IsCounting (n + 1) ks id query next p' es others
        (multi_entry-IsCounting n k id query p next e first v)
