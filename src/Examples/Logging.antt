-- ===== src/Examples/Logging.antt =====
-- The loggers, the logging middlewares, the TLS sections and the label of a client.
use xdas.Prelude.{
  if◌then◌else◌, ◌==◌, string_eq, [], ◌∷◌, ◌++◌, Bytes, some, none, leb, length, utf8, ◌≡◌, refl,
  arith,
}
use xdas.Errors.{max_bytes_error}
use xdas.Logger.{
  Logger, Levels, new_logger, set_level, with, with_group, enabled, rank, debug, info, warn, error,
}
use xdas.Logger.Levels.{IsWired, set_level-shared}
use xdas.WebLog.{
  asserts, writes_header, ResponseWriter, ReadCloser, reader, drain_body, http_error, Request,
  finishes, writes, Handler, finished, serve_http, line, logged, after, web_log_body,
  web_log_body_response, web_log,
}
use xdas.WebLog.Passing.{plain_writer, codes, last_or, web_log-passes}
use xdas.WebLog.Refusing.{web_log_body-refuses}
use xdas.Server.{
  Response, new_response, set_response_header, write_header, write, bytes, status_text,
}

abbrev root : Logger
root = (new_logger []).0

abbrev info_only : Levels
info_only = info ∷ []

root-IsWired : IsWired root info_only
unfolding new_logger
root-IsWired = record { one_var = refl; made = omega arith }

set_level-shared_example :
    let c = with_group (with root ("id" ∷ [])) "g" in
    let (k, more) = new_logger info_only in
    (set_level c debug info_only ≡ set_level root debug info_only)
    × (enabled c warn (set_level root debug info_only) ≡ leb (rank debug) (rank warn))
    × (enabled root warn (set_level c debug info_only) ≡ leb (rank debug) (rank warn))
    × (enabled k warn more ≡ leb (rank info) (rank warn))
    × (enabled root warn (set_level k debug more) ≡ enabled root warn more)
set_level-shared_example = set_level-shared root info_only ("id" ∷ []) "g" debug warn root-IsWired

-- The writer of the server, which takes all that is written.
abbrev response_writer : ResponseWriter Response
response_writer = record {
  set_header = set_response_header;
  write_header = write_header;
  write = λ b w. (write (bytes b) w, (length b, none));
  extension = λ name.
      if name == "requestTooLarge" then some (set_response_header "Connection" "close") else none;
}

-- A handler that writes the method and the body that it gets, without a status.
abbrev echo : Handler
echo r = writes (utf8 r.method) (λ answer. writes (utf8 "!") (λ answer. finishes))

abbrev request : ReadCloser → Request
request body = record {
  method = "PUT";
  path = "/v2/pa/a";
  remote_addr = "127.0.0.1";
  user_agent = "curl/8";
  body = body;
}

abbrev debugging : Levels
debugging = debug ∷ []

abbrev quoted : Bytes → Bytes
quoted b = 34 ∷ b ++ 34 ∷ []

web_log-passes_example :
    let r = request ReadCloser.nil in
    let (w', ending) = serve_http (plain_writer response_writer) (echo r) new_response in
    web_log response_writer root debugging echo r new_response ≡ (
      w',
      (
        ending,
        after root debugging ending
            (line debug r (last_or 0 (codes response_writer (echo r) new_response))),
      ),
    )
web_log-passes_example =
    web_log-passes response_writer root debugging echo (request ReadCloser.nil) new_response

-- The status 200 that a handler leaves to its first `Write` is logged as 0.
implicit_status :
    (web_log response_writer root debugging echo (request ReadCloser.nil) new_response).1.1
    ≡ line debug (request ReadCloser.nil) 0 ∷ []
unfolding web_log new_logger
implicit_status = refl

abbrev json_request : Request
json_request = request (reader (utf8 "{}") none none)

-- The limit on bodies calls `requestTooLarge` of its writer, which under `WebLog` has none, so the header
-- Connection is lost.
abbrev limiting : Handler
limiting r = asserts "requestTooLarge" (λ found. writes_header 413 finishes)

closed_alone :
    (serve_http response_writer (limiting json_request) new_response).0.header
    ≡ ("Connection", "close") ∷ []
unfolding serve_http set_response_header xdas.Server.set_header xdas.Server.canonical
    xdas.Prelude.insert
closed_alone = refl

kept_open :
    (web_log response_writer root debugging limiting json_request new_response).0.header ≡ []
unfolding web_log serve_http xdas.WebLog.log_write_header
kept_open = refl

abbrev cut_request : Request
cut_request = request (reader (utf8 "{") (some max_bytes_error) none)

web_log_body-refuses_example :
    let answer = http_error response_writer (status_text 413) 413 new_response in
    let lines =
      logged root debugging
        (record (line error cut_request 413) { error = some max_bytes_error }) in
    (web_log_body response_writer root debugging quoted echo cut_request new_response
      ≡ (answer, (finished, lines)))
    × (web_log_body_response response_writer root debugging quoted echo cut_request new_response
        ≡ (answer, (finished, lines)))
unfolding drain_body
web_log_body-refuses_example =
    web_log_body-refuses response_writer root debugging quoted echo cut_request new_response
      max_bytes_error refl
