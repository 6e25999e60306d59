-- ===== src/WebLog/Passing.antt =====
-- internal/logger/weblog/weblog.go: what the middlewares pass on, and what they log.
use xdas.Prelude.{ℕ, List, [], ◌∷◌, ◌++◌, Bytes, none, some, false, ◌≡◌, refl}
use xdas.Logger.{Logger, Levels, debug}
use xdas.WebLog.{
  ResponseWriter, log_response_writer, log_write_header, marshal_json, Request, Calls, finishes,
  aborts, sets_header, writes_header, writes, asserts, Handler, serve_http, Line, line, after,
  web_log, web_log_body, web_log_body_response,
}

-- The writer with its three methods alone.
abbrev pub plain_writer : {W : Type 0} → ResponseWriter W → ResponseWriter W
plain_writer writer = record writer { extension = λ name. none }

module _ {W : Type 0} (writer : ResponseWriter W) where
  -- The codes that a handler gives to `WriteHeader`, and the bytes that it gives to `Write`, where it finds
  -- no method beyond the three.
  unfoldable pub codes : Calls → W → List ℕ
  codes finishes w = []
  codes aborts w = []
  codes (sets_header key value calls) w = codes calls (writer.set_header key value w)
  codes (writes_header status calls) w = status ∷ codes calls (writer.write_header status w)
  codes (writes bytes calls) w = let (w', answer) = writer.write bytes w in codes (calls answer) w'
  codes (asserts name calls) w = codes (calls false) w

  unfoldable pub written : Calls → W → Bytes
  written finishes w = []
  written aborts w = []
  written (sets_header key value calls) w = written calls (writer.set_header key value w)
  written (writes_header status calls) w = written calls (writer.write_header status w)
  written (writes bytes calls) w =
      let (w', answer) = writer.write bytes w in bytes ++ written (calls answer) w'
  written (asserts name calls) w = written (calls false) w

abbrev pub last_or : ℕ → List ℕ → ℕ
last_or code [] = code
last_or code (c ∷ cs) = last_or c cs

module _ {W : Type 0} (writer : ResponseWriter W) where
  serve_http-log :
      (calls : Calls) (w : W) (code : ℕ)
      → serve_http
          (log_response_writer writer)
          calls
          (record { response_writer = w; status_code = code })
        ≡ (
          record {
            response_writer = (serve_http (plain_writer writer) calls w).0;
            status_code = last_or code (codes writer calls w);
          },
          (serve_http (plain_writer writer) calls w).1,
        )
  unfolding serve_http codes log_write_header
  serve_http-log finishes w code = refl
  serve_http-log aborts w code = refl
  serve_http-log (sets_header key value calls) w code =
      serve_http-log calls (writer.set_header key value w) code
  serve_http-log (writes_header status calls) w code =
      serve_http-log calls (writer.write_header status w) status
  serve_http-log (writes bytes calls) w code =
      let (w', answer) = writer.write bytes w in serve_http-log (calls answer) w' code
  serve_http-log (asserts name calls) w code = serve_http-log (calls false) w code

module _ {W : Type 0} (writer : ResponseWriter W) (l : Logger) (levels : Levels) where
  -- For every writer and handler, under `WebLog` the client gets exactly what the handler alone would give
  -- it on a writer with `Header`, `WriteHeader` and `Write` and no method beyond these, and a panic goes
  -- on; when the handler returns, one line is logged, at the level of debug if that is enabled, whose code
  -- is the last one that was given to `WriteHeader`, or 0 where it was not called.
  pub web_log-passes :
      (next : Handler) (r : Request) (w : W)
      → let (w', ending) = serve_http (plain_writer writer) (next r) w in
        web_log writer l levels next r w
        ≡ (w', (ending, after l levels ending (line debug r (last_or 0 (codes writer (next r) w)))))
  unfolding web_log
  web_log-passes next r w = rw (serve_http-log writer (next r) w 0) refl

module _ {W : Type 0} (writer : ResponseWriter W) (l : Logger) (levels : Levels)
    (marshal_text : Bytes → Bytes) where
  abbrev body_line : Handler → Request → Request → W → Bytes → Line
  body_line next r q w left = record (line debug r (last_or 0 (codes writer (next q) w))) {
    body = some (marshal_json marshal_text left);
  }

  abbrev response_line : Handler → Request → Request → W → Bytes → Line
  response_line next r q w left = record (body_line next r q w left) {
    response = some (marshal_json marshal_text (written writer (next q) w));
  }

  -- Both middlewares that log the body, where the handler gets the request `q`.
  Passes : Handler → Request → Request → W → Bytes → Type 0
  Passes next r q w left =
      let (w', ending) = serve_http (plain_writer writer) (next q) w in
      (web_log_body writer l levels marshal_text next r w
        ≡ (w', (ending, after l levels ending (body_line next r q w left))))
      × (web_log_body_response writer l levels marshal_text next r w
          ≡ (w', (ending, after l levels ending (response_line next r q w left))))
