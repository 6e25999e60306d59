-- ===== src/WebLog/Refusing.antt =====
-- internal/logger/weblog/weblog.go: the answer to a body that cannot be read.
use xdas.Prelude.{ℕ, Bytes, some, err, ◌≡◌, refl, if◌then◌else◌, Bool-cases, inl, inr}
use xdas.Errors.{Error}
use xdas.Server.{status_text}
use xdas.Logger.{Logger, Levels, error}
use xdas.WebLog.{
  ResponseWriter, log_response_writer, log_body_response_writer, log_write_header,
  log_body_write_header, log_body_write, new_log_response_writer, new_log_body_response_writer,
  drain_body, http_error, err_read_body, is_max_bytes_error, Request, Handler, finished, line,
  logged, web_log_body, web_log_body_response,
}

-- The status for a body that cannot be read.
abbrev pub refusal : Error → ℕ
refusal e = if is_max_bytes_error e then 413 else 400

module _ {W : Type 0} (writer : ResponseWriter W) where
  -- What the client gets.
  abbrev refused : Error → W → W
  refused e w = http_error writer (status_text (refusal e)) (refusal e) w

  err_read_body-log :
      (e : Error) (w : W)
      → err_read_body (log_response_writer writer) e (new_log_response_writer w)
        ≡ record { response_writer = refused e w; status_code = refusal e }
  unfolding err_read_body http_error log_write_header
  err_read_body-log e w = elim (Bool-cases (is_max_bytes_error e)) [
    | inl large ↦ rw large refl
    | inr other ↦ rw other refl
  ]

  err_read_body-log_body :
      (e : Error) (w : W)
      → let lrw =
          err_read_body (log_body_response_writer writer) e (new_log_body_response_writer w) in
        (lrw.response_writer ≡ refused e w) × (lrw.status_code ≡ refusal e)
  unfolding err_read_body http_error log_body_write_header log_body_write
  err_read_body-log_body e w = elim (Bool-cases (is_max_bytes_error e)) [
    | inl large ↦ rw large (refl, refl)
    | inr other ↦ rw other (refl, refl)
  ]

module _ {W : Type 0} (writer : ResponseWriter W) (l : Logger) (levels : Levels)
    (marshal_text : Bytes → Bytes) where
  -- Where the body cannot be read or closed, `WebLogBody` and `WebLogBodyResponse` answer in place of
  -- the handler, which is not called: with 413 and its text if the body is above the limit, and with
  -- 400 and its text at any other error; and a line with the error and that code is logged.
  pub web_log_body-refuses :
      (next : Handler) (r : Request) (w : W) (e : Error)
      → drain_body r.body ≡ err e
      → let code : ℕ = if is_max_bytes_error e then 413 else 400 in
        let answer = http_error writer (status_text code) code w in
        let lines = logged l levels (record (line error r code) { error = some e }) in
        (web_log_body writer l levels marshal_text next r w ≡ (answer, (finished, lines)))
        × (web_log_body_response writer l levels marshal_text next r w
            ≡ (answer, (finished, lines)))
  unfolding web_log_body web_log_body_response
  web_log_body-refuses next r w e broken =
      let (client, code) = err_read_body-log_body writer e w in
      (
        rw (broken, web_log_body) (rw (err_read_body-log writer e w) refl),
        rw (broken, web_log_body_response) (rw client (rw code refl)),
      )
