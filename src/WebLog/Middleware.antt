-- ===== src/WebLog/Middleware.antt =====
-- internal/logger/weblog/weblog.go: the three middlewares and the one for chi.
use xdas.Prelude.{
  ℕ, String, List, [], ◌∷◌, Bytes, Option, none, some, Bool, true, false, ok, err, if◌then◌else◌,
}
use xdas.Errors.{Error}
use xdas.Logger.{Logger, Levels, Level, debug, error, enabled}
use xdas.WebLog.Writer.{
  ResponseWriter, new_log_response_writer, new_log_body_response_writer, log_response_writer,
  log_body_response_writer,
}
use xdas.WebLog.Body.{ReadCloser, drain_body, err_read_body, marshal_json}

-- The fields of `http.Request` that are logged, and its body.
pub record Request : Type 0 where
  pub method : String
  pub path : String
  pub remote_addr : String
  pub user_agent : String
  pub body : ReadCloser

-- What a handler does with its writer, call by call; each next call may depend on the answers. It
-- returns or panics. `asserts` calls a method beyond the three, if the writer has it, and goes on by
-- whether it has.
pub data Calls : Type 0 where
  finishes aborts : Calls
  sets_header : String → String → Calls → Calls
  writes_header : ℕ → Calls → Calls
  writes : Bytes → (ℕ × Option Error → Calls) → Calls
  asserts : String → (Bool → Calls) → Calls

abbrev pub Handler : Type 0
Handler = Request → Calls

pub data Ending : Type 0 where
  finished aborted : Ending

module _ {W : Type 0} (writer : ResponseWriter W) where
  -- `next.ServeHTTP(w, r)`
  unfoldable pub serve_http : Calls → W → W × Ending
  serve_http finishes w = (w, finished)
  serve_http aborts w = (w, aborted)
  serve_http (sets_header key value calls) w = serve_http calls (writer.set_header key value w)
  serve_http (writes_header status calls) w = serve_http calls (writer.write_header status w)
  serve_http (writes bytes calls) w =
      let (w', answer) = writer.write bytes w in serve_http (calls answer) w'
  serve_http (asserts name calls) w = elim (writer.extension name) [
    | none ↦ serve_http (calls false) w
    | some f ↦ serve_http (calls true) (f w)
  ]

-- A line of the log with its level: the fields of the request, the code, and, where the middleware
-- logs them, the error, the body and the response.
pub record Line : Type 0 where
  pub level : Level
  pub method : String
  pub path : String
  pub remote_addr : String
  pub user_agent : String
  pub code : ℕ
  pub error : Option Error
  pub body : Option Bytes
  pub response : Option Bytes

abbrev pub line : Level → Request → ℕ → Line
line level r code = record {
  level = level;
  method = r.method;
  path = r.path;
  remote_addr = r.remote_addr;
  user_agent = r.user_agent;
  code = code;
  error = none;
  body = none;
  response = none;
}

module _ (l : Logger) (levels : Levels) where
  abbrev pub logged : Line → List Line
  logged entry = if enabled l entry.level levels then entry ∷ [] else []

  -- A handler that panics takes the middleware with it.
  abbrev pub after : Ending → Line → List Line
  after finished entry = logged entry
  after aborted entry = []

module _ {W : Type 0} (writer : ResponseWriter W) (l : Logger) (levels : Levels) where
  -- `WebLog`: the writer, how it ends, and the lines that are logged.
  unfoldable pub web_log : Handler → Request → W → W × (Ending × List Line)
  unfolding serve_http enabled
  web_log next r w =
      let (lrw, ending) =
        serve_http (log_response_writer writer) (next r) (new_log_response_writer w) in
      (lrw.response_writer, (ending, after l levels ending (line debug r lrw.status_code)))

  -- `WebLogChiMiddleware`
  unfoldable pub web_log_chi_middleware : Handler → Request → W → W × (Ending × List Line)
  unfolding web_log
  web_log_chi_middleware next = web_log next

module _ {W : Type 0} (writer : ResponseWriter W) (l : Logger) (levels : Levels)
    (marshal_text : Bytes → Bytes) where
  -- `WebLogBody`
  unfoldable pub web_log_body : Handler → Request → W → W × (Ending × List Line)
  unfolding serve_http enabled drain_body err_read_body marshal_json
  web_log_body next r w =
      let lrw = new_log_response_writer w in
      elim (drain_body r.body) [
        | err e ↦
            let lrw = err_read_body (log_response_writer writer) e lrw in
            (
              lrw.response_writer,
              (
                finished,
                logged l levels (record (line error r lrw.status_code) { error = some e }),
              ),
            )
        | ok (body, save) ↦
            let (lrw, ending) =
              serve_http (log_response_writer writer) (next (record r { body = save })) lrw in
            (
              lrw.response_writer,
              (
                ending,
                after l levels ending (record (line debug r lrw.status_code) {
                  body = some (marshal_json marshal_text body);
                }),
              ),
            )
      ]

  -- `WebLogBodyResponse`
  unfoldable pub web_log_body_response : Handler → Request → W → W × (Ending × List Line)
  unfolding serve_http enabled drain_body err_read_body marshal_json
  web_log_body_response next r w =
      let lrw = new_log_body_response_writer w in
      elim (drain_body r.body) [
        | err e ↦
            let lrw = err_read_body (log_body_response_writer writer) e lrw in
            (
              lrw.response_writer,
              (
                finished,
                logged l levels (record (line error r lrw.status_code) { error = some e }),
              ),
            )
        | ok (body, save) ↦
            let (lrw, ending) =
              serve_http (log_body_response_writer writer) (next (record r { body = save })) lrw in
            (
              lrw.response_writer,
              (
                ending,
                after l levels ending (record (line debug r lrw.status_code) {
                  body = some (marshal_json marshal_text body);
                  response = some (marshal_json marshal_text lrw.response);
                }),
              ),
            )
      ]
