-- ===== src/Server/Answers/Entries.antt =====
-- cmd/xdas/handler.go: what each result gives in the second loop of a multi GET.
use xdas.Prelude.{
  ℕ, ◌+◌, String, List, [], ◌∷◌, ◌++◌, Bytes, none, some, returns, and_then-eq-returns, arith, ◌≡◌,
  refl, sym, ap, ◌∙◌, inl, inr, nat_eq, Bool-cases, Option-cases, subst,
}
use mathlib.Core.List.{append-nil, append_assoc}
use xdas.Errors.{Error}
use xdas.MagicByte.{new_from, set_content_headers}
use xdas.Conversion.{MetricsProvider, Converted, convert}
use xdas.Server.Http.{Response, Header, Chunk, text, bytes, part, closing, write, set_header}
use xdas.Server.Store.{Entry, nil, other, string}
use xdas.Server.Util.{parse_bool}
use xdas.Server.State.{Services, find_x}
use xdas.Server.Multi.{
  Wanted, Progress, namespace, multi_part, multi_converted, multi_entry, multi_entries,
}

-- The parts that stand in a body.
abbrev pub parts_of : List Chunk → List (Header × Bytes)
parts_of [] = []
parts_of (part h b ∷ cs) = (h, b) ∷ parts_of cs
parts_of (text t ∷ cs) = parts_of cs
parts_of (bytes b ∷ cs) = parts_of cs
parts_of (closing ∷ cs) = parts_of cs

parts_of-append : (xs ys : List Chunk) → parts_of (xs ++ ys) ≡ parts_of xs ++ parts_of ys
parts_of-append [] ys = refl
parts_of-append (part h b ∷ xs) ys = ap (λ ps. (h, b) ∷ ps) (parts_of-append xs ys)
parts_of-append (text t ∷ xs) ys = parts_of-append xs ys
parts_of-append (bytes b ∷ xs) ys = parts_of-append xs ys
parts_of-append (closing ∷ xs) ys = parts_of-append xs ys

pub parts_of-write :
    (w : Response) (c : Chunk) → parts_of (write c w).body ≡ parts_of w.body ++ parts_of (c ∷ [])
parts_of-write w c = ap parts_of (the_body w c) ∙ parts_of-append w.body (c ∷ [])
  where
    the_body : (w : Response) (c : Chunk) → (write c w).body ≡ w.body ++ c ∷ []
    the_body w c = ground arith

-- The headers of a part.
abbrev pub headers : Converted → String → Header
headers c name = set_header "Namespace" name (set_content_headers set_header c.magic_byte [])

module _ {S Message : Type 0} (services : Services S Message) where
  open services use {redis, lib, random, create_part}

  -- The n-th result, for a keyspace that is wanted, is converted so.
  unfoldable pub Converts : ℕ → Wanted → ℕ → Bytes → Converted → Type 0
  unfolding convert new_from
  Converts n k b rest c =
      (m : MetricsProvider) × (m' : MetricsProvider) × (convert lib (random n) k.keyspace
          (new_from b) k.ks_conf.output.magic_byte rest m
        ≡ returns (m', c))

  -- What one result gives: no part, or the part of its conversion.
  pub data Answer (n : ℕ) (k : Wanted) : Entry → List (Header × Bytes) → Type 0 where
    missing : Answer n k nil []
    no_text : Answer n k other []
    no_byte : Answer n k (string []) []
    failed :
        {b : ℕ} {rest : Bytes} (c : Converted) {e : Error}
        → Converts n k b rest c
        → c.error ≡ some e
        → Answer n k (string (b ∷ rest)) []
    unnamed :
        {b : ℕ} {rest : Bytes}
        → namespace k.keyspace k.key ≡ none
        → Answer n k (string (b ∷ rest)) []
    uncreated :
        {b : ℕ} {rest : Bytes} {e : Error}
        → create_part n ≡ some e
        → Answer n k (string (b ∷ rest)) []
    answered :
        {b : ℕ} {rest : Bytes} (c : Converted) (name : String)
        → Converts n k b rest c
        → c.error ≡ none
        → namespace k.keyspace k.key ≡ some name
        → create_part n ≡ none
        → Answer n k (string (b ∷ rest)) ((headers c name, c.content) ∷ [])

  -- What the results from the n-th on give, for the keyspaces that are wanted.
  pub data Answers : ℕ → List Wanted → List Entry → List (Header × Bytes) → Type 0 where
    ended : {n : ℕ} {ks : List Wanted} → Answers n ks [] []
    next :
        {n : ℕ} {k : Wanted} {ks : List Wanted} {e : Entry} {es : List Entry}
        {ps qs : List (Header × Bytes)}
        → Answer n k e ps
        → Answers (n + 1) ks es qs
        → Answers n (k ∷ ks) (e ∷ es) (ps ++ qs)

  -- The parts that a step adds.
  unfoldable pub Adds : (List (Header × Bytes) → Type 0) → Response → Response → Type 0
  Adds P w w' = (ps : List (Header × Bytes)) × (parts_of w'.body ≡ parts_of w.body ++ ps) × P ps

  Adds-none : (P : List (Header × Bytes) → Type 0) (w w' : Response) → w' ≡ w → P [] → Adds P w w'
  unfolding Adds
  Adds-none P w w' same h =
      ([], ap (λ v. parts_of v.body) same ∙ sym (append-nil (parts_of w.body)), h)

  multi_part-Answer :
      (n : ℕ) (k : Wanted) (b : ℕ) (rest : Bytes) (c : Converted) (p : Progress S)
      → Converts n k b rest c
      → c.error ≡ none
      → Adds (Answer n k (string (b ∷ rest))) p.response (multi_part services n k c p).response
  unfolding multi_part Adds
  multi_part-Answer n k b rest c p ran fine = elim (Option-cases (namespace k.keyspace k.key)) [
    | inl none_named ↦
        Adds-none (Answer n k (string (b ∷ rest))) p.response (multi_part services n k c p).response
          (rw (none_named, multi_part) refl) (Answer.unnamed none_named)
    | inr (name, named) ↦ elim (Option-cases (create_part n)) [
      | inl made ↦ (
        (headers c name, c.content) ∷ [],
        rw (named, multi_part)
            (rw made (parts_of-write p.response (part (headers c name) c.content))),
        Answer.answered c name ran fine named made,
      )
      | inr (e, refused) ↦
          Adds-none (Answer n k (string (b ∷ rest))) p.response
            (multi_part services n k c p).response (rw (named, multi_part) (rw refused refl))
            (Answer.uncreated refused)
    ]
  ]

  multi_converted-Answer :
      (n : ℕ) (k : Wanted) (b : ℕ) (rest : Bytes) (p : Progress S) (m' : MetricsProvider)
      (c : Converted)
      → Converts n k b rest c
      → Adds
          (Answer n k (string (b ∷ rest)))
          p.response
          (multi_converted services n k p (m', c)).response
  unfolding multi_converted
  multi_converted-Answer n k b rest p m' c ran = elim (Option-cases c.error) [
    | inl fine ↦
        rw (fine, multi_converted)
          (multi_part-Answer n k b rest c (record p { world = record p.world { metrics = m' } }) ran
            fine)
    | inr (e, wrong) ↦
        rw (wrong, multi_converted)
          (Adds-none (Answer n k (string (b ∷ rest))) p.response p.response refl
            (Answer.failed c ran wrong))
  ]

  multi_entry-Answer :
      (n : ℕ) (k : Wanted) (id : String) (query : List (String × String)) (p p' : Progress S)
      (e : Entry)
      → multi_entry services n k id query p e ≡ returns p'
      → Adds (Answer n k e) p.response p'.response
  unfolding multi_entry Converts
  multi_entry-Answer n k id query p p' nil h = elim (Bool-cases (parse_bool "nofindx" query)) [
    | inl skipped ↦
        let same : p ≡ p' = cc (rw (skipped, multi_entry) at h) in
        Adds-none (Answer n k nil) p.response p'.response (ap (λ q. q.response) (sym same))
          Answer.missing
    | inr asked ↦
        let (s, found, done) =
          and_then-eq-returns (find_x k.keyspace id p.world) _ (rw (asked, multi_entry) at h) in
        let same : record p { world = s } ≡ p' = cc done in
        Adds-none (Answer n k nil) p.response p'.response (ap (λ q. q.response) (sym same))
          Answer.missing
  ]
  multi_entry-Answer n k id query p p' other h =
      let same : p ≡ p' = cc h in
      Adds-none (Answer n k other) p.response p'.response (ap (λ q. q.response) (sym same))
        Answer.no_text
  multi_entry-Answer n k id query p p' (string []) h =
      let same : p ≡ p' = cc h in
      Adds-none (Answer n k (string [])) p.response p'.response (ap (λ q. q.response) (sym same))
        Answer.no_byte
  multi_entry-Answer n k id query p p' (string (b ∷ rest)) h =
      let ((m', c), ran, done) =
        and_then-eq-returns
          (convert lib (random n) k.keyspace (new_from b) k.ks_conf.output.magic_byte rest
            p.world.metrics)
          _ h in
      subst {A = Progress S} (λ q. Adds (Answer n k (string (b ∷ rest))) p.response q.response)
        {x = multi_converted services n k p (m', c)} {y = p'} (cc done)
        (multi_converted-Answer n k b rest p m' c (p.world.metrics, m', ran))

  pub multi_entries-Answers :
      (n : ℕ) (ks : List Wanted) (id : String) (query : List (String × String)) (p p' : Progress S)
      (es : List Entry)
      → multi_entries services n ks id query p es ≡ returns p'
      → Adds (Answers n ks es) p.response p'.response
  unfolding multi_entries Adds
  multi_entries-Answers n ks id query p p' [] h =
      let same : p ≡ p' = cc h in
      Adds-none (Answers n ks []) p.response p'.response (ap (λ q. q.response) (sym same))
        Answers.ended
  multi_entries-Answers n [] id query p p' (e ∷ es) h = absurd (cc h)
  multi_entries-Answers n (k ∷ ks) id query p p' (e ∷ es) h =
      let (p1, first, others) = and_then-eq-returns (multi_entry services n k id query p e) _ h in
      let (ps, added, one) = multi_entry-Answer n k id query p p1 e first in
      let (qs, later, rest) = multi_entries-Answers (n + 1) ks id query p1 p' es others in
      (
        ps ++ qs,
        later ∙ ap (λ xs. xs ++ qs) added ∙ append_assoc (parts_of p.response.body) ps qs,
        Answers.next one rest,
      )
