-- ===== src/Server/Bounded.antt =====
-- cmd/xdas: the labels that requests can add to the counter, over every sequence of requests.
use xdas.Prelude.{
  suc, ◌≤◌, String, ◌∷◌, Bytes, Bool, true, false, All, length, Run, returns, panics, and_then, ◌≡◌,
  sym, subst, ◌⊎◌, inl, inr, string_eq, if◌then◌else◌,
}
use xdas.Server.Http.{Method, Request, Response, status_of}
use xdas.Server.State.{World, Handler}
use xdas.Server.RequestMetrics.{client_label, app_metrics}
use xdas.Server.Instruments.{client_label-prefix}
use xdas.Server.Tame.{Known, IsTame, none_new, Tames}
use xdas.Server.Untouched.{world_of}

module _ {S : Type 0} where
  -- A keyspace that a label may name.
  abbrev pub Named : World S → String → Type 0
  Named s k = (k ≡ "multi") ⊎ Known k s

  -- Each label that was counted names a keyspace of the first world, or multi, and has at most 12 bytes
  -- for the client; and no keyspace is new.
  pub record IsBounded (first s : World S) : Type 0 where
    pub labels : All (λ l. Named first l.keyspace × (length l.client ≤ 12)) s.counter
    pub configured : (k : String) → Known k s → Known k first

  IsBounded-tame : (first s s' : World S) → IsTame s s' → IsBounded first s → IsBounded first s'
  IsBounded-tame first s s' v b = record {
    labels =
        subst (All (λ l. Named first l.keyspace × (length l.client ≤ 12))) (sym v.same_counter)
          b.labels;
    configured = λ k h. b.configured k (none_new s s' v k h);
  }

  Named-first : (first s : World S) (k : String) → IsBounded first s → Named s k → Named first k
  Named-first first s k b (inl m) = inl m
  Named-first first s k b (inr known) = inr (b.configured k known)

  -- A run that leaves the counter bounded, if it returns.
  abbrev pub Bounds : World S → Run (World S × Response) → Type 0
  Bounds first (returns (s, w)) = IsBounded first s
  Bounds first panics = Unit

  pub Bounds-tame :
      (first s : World S) (m : Run (World S × Response))
      → IsBounded first s
      → Tames s world_of m
      → Bounds first m
  Bounds-tame first s (returns (s', w)) b v = IsBounded-tame first s s' v b
  Bounds-tame first s panics b v = tt

  pub Bounds-if :
      (first : World S) (b : Bool) (x y : Run (World S × Response))
      → Bounds first x
      → Bounds first y
      → Bounds first (if b then x else y)
  Bounds-if first true x y hx hy = hx
  Bounds-if first false x y hx hy = hy

  pub app_metrics-Bounds :
      (first : World S) (valid_string : Bytes → Bool) (m : Method) (next : Handler S) (s : World S)
      (r : Request) (w : Response)
      → IsBounded first s
      → Named s r.keyspace
      → Tames s world_of (next s r w)
      → Bounds first (app_metrics valid_string m next s r w)
  unfolding app_metrics
  app_metrics-Bounds first valid_string m next s r w b named v = after (next s r w) v
    where
      after :
          (run : Run (World S × Response))
          → Tames s world_of run
          → Bounds first (
              and_then run λ (s', w').
                if valid_string (client_label r)
                then returns (
                  record s' {
                    counter =
                        record {
                          app = "xdas";
                          code = status_of w';
                          method = m;
                          keyspace = r.keyspace;
                          client = client_label r;
                        }
                        ∷ s'.counter;
                    duration = suc s'.duration;
                  },
                  w',
                )
                else panics)
      after panics v = tt
      after (returns (s', w')) v =
          let b' = IsBounded-tame first s s' v b in
          Bounds-if first (valid_string (client_label r)) _ panics
            (record {
              labels =
                  ((Named-first first s r.keyspace b named, (client_label-prefix r).0), b'.labels);
              configured = b'.configured;
            })
            tt
