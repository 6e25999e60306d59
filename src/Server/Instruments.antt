-- ===== src/Server/Instruments.antt =====
-- cmd/xdas/metrics.go: what is counted of a request.
use xdas.Prelude.{
  ℕ, zero, split, and_then, push_head, ◌==◌, nat_eq, nat_beq_iff, ◌≢◌, suc, ap, Lacks, ◌≤◌, String,
  List, [], ◌∷◌, ◌++◌, Bytes, Bool, true, false, length, take, drop, ltb, length-take, utf8,
  returns, panics, ◌≡◌, refl, sym, inl, inr, arith, Bool-cases, Run-cases,
}
use Prim.Native.Char.{Char, code}
use mathlib.Core.List.{append-nil}
use xdas.Server.Http.{Method, Request, Response, status_of, get_header}
use xdas.Server.State.{World, Handler}
use xdas.Server.RequestMetrics.{max_ua, first_part, product, client_label, app_metrics}

take-drop : (n : ℕ) (xs : Bytes) → xs ≡ take n xs ++ drop n xs
take-drop zero xs = refl
take-drop (suc n) [] = refl
take-drop (suc n) (x ∷ xs) = ap {B = Bytes} (λ r. x ∷ r) (take-drop n xs)

pub client_label-prefix :
    (r : Request)
    → (length (client_label r) ≤ max_ua)
      × ((rest : Bytes) × (utf8 (product r) ≡ client_label r ++ rest))
unfolding client_label
client_label-prefix r = elim (Bool-cases (ltb max_ua (length (utf8 (product r))))) [
  | inl long ↦
      let size : length (take max_ua (utf8 (product r))) ≡ max_ua =
        length-take max_ua (utf8 (product r)) (ground arith) in
      rw (long, client_label)
        (omega arith, (drop max_ua (utf8 (product r)), take-drop max_ua (utf8 (product r))))
  | inr short ↦ rw (short, client_label) (ground arith, ([], sym (append-nil (utf8 (product r)))))
]

push_head-Lacks :
    (sep c : Char) (ws : List String)
    → code c ≢ code sep
    → Lacks sep (first_part ws)
    → Lacks sep (first_part (push_head c ws))
push_head-Lacks sep c [] h k = (h, tt)
push_head-Lacks sep c (w ∷ ws) h k = (h, k)

split-Lacks : (sep : Char) (s : String) → Lacks sep (first_part (split sep s))
unfolding split
split-Lacks sep String.[] = tt
split-Lacks sep (String.◌∷◌ c s) = elim (Bool-cases (code c == code sep)) [
  | inl hit ↦ rw (hit, split) tt
  | inr miss ↦
      rw (miss, split)
        (push_head-Lacks sep c (split sep s) (ground (arith, nat_beq_iff (code c) (code sep)))
          (split-Lacks sep s))
]

module _ {S : Type 0} (valid_string : Bytes → Bool) where
  invalid_panics :
      (method : Method) (next : Handler S) (s : World S) (r : Request) (w : Response)
      → valid_string (client_label r) ≡ false
      → app_metrics valid_string method next s r w ≡ panics
  unfolding app_metrics
  invalid_panics method next s r w bad = elim (Run-cases (next s r w)) [
    | inl (done, ran) ↦ rw (ran, app_metrics) (rw bad refl)
    | inr broken ↦ rw (broken, app_metrics) refl
  ]

  -- The middleware counts a request after its handler: the label for the client is at most 12 bytes of
  -- the start of the user agent, up to its first slash; where that label is valid UTF-8, the request
  -- is answered as the handler answers it and is counted once, by its method, its keyspace and the
  -- status that the client sees, and so is its duration, and a handler that panics is not counted;
  -- where the label is not valid, every request panics.
  pub app_metrics_cases :
      (method : Method) (next : Handler S) (s : World S) (r : Request) (w : Response)
      → (length (client_label r) ≤ 12)
        × ((rest : Bytes) × (utf8 (product r) ≡ client_label r ++ rest))
        × Lacks "/" (product r)
        × (valid_string (client_label r) ≡ true
            → app_metrics valid_string method next s r w
              ≡ and_then (next s r w) λ (s', w'). returns (
                record s' {
                  counter =
                      record {
                        app = "xdas";
                        code = status_of w';
                        method = method;
                        keyspace = r.keyspace;
                        client = client_label r;
                      }
                      ∷ s'.counter;
                  duration = suc s'.duration;
                },
                w',
              ))
        × (valid_string (client_label r) ≡ false
            → app_metrics valid_string method next s r w ≡ panics)
  unfolding app_metrics product
  app_metrics_cases method next s r w =
      let (size, (rest, same)) = client_label-prefix r in
      (
        size,
        (rest, same),
        split-Lacks "/" (get_header "User-Agent" r.header),
        λ valid. rw (valid, app_metrics) refl,
        λ bad. invalid_panics method next s r w bad,
      )
