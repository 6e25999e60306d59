-- ===== src/Server/RequestMetrics.antt =====
-- cmd/xdas/metrics.go: the middleware that counts requests.
use xdas.Prelude.{
  ℕ, suc, String, List, [], ◌∷◌, Bytes, Bool, length, take, ltb, if◌then◌else◌, split, utf8,
  returns, panics, and_then,
}
use xdas.Server.Http.{Method, Request, get_header, status_of}
use xdas.Server.State.{Handler}
use xdas.Server.Lifecycle.{app_name}

abbrev pub max_ua : ℕ
max_ua = 12

abbrev pub first_part : List String → String
first_part [] = ""
first_part (part ∷ parts) = part

-- `strings.Split(r.UserAgent(), "/")[0]`
unfoldable pub product : Request → String
unfolding get_header split
product r = first_part (split "/" (get_header "User-Agent" r.header))

-- The label for the client
unfoldable pub client_label : Request → Bytes
unfolding product utf8
client_label r = let ua = utf8 (product r) in if ltb max_ua (length ua) then take max_ua ua else ua

module _ {S : Type 0} (valid_string : Bytes → Bool) where
  -- `appMetrics`, with the two instruments of promhttp: they run the handler, and then count it.
  -- Prometheus panics at a label that is no valid UTF-8.
  unfoldable pub app_metrics : Method → Handler S → Handler S
  unfolding client_label
  app_metrics method next s r w = and_then (next s r w) λ (s', w').
      if valid_string (client_label r)
      then returns (
        record s' {
          counter =
              record {
                app = app_name;
                code = status_of w';
                method = method;
                keyspace = r.keyspace;
                client = client_label r;
              }
              ∷ s'.counter;
          duration = suc s'.duration;
        },
        w',
      )
      else panics
