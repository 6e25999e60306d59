-- ===== src/WebLog/Writer.antt =====
-- internal/logger/weblog/weblog.go: response writers, and the two that record what passes.
use xdas.Prelude.{ℕ, String, ◌++◌, Bytes, Option, none, []}
use xdas.Errors.{Error}

-- `http.ResponseWriter`: `Header().Set`, `WriteHeader`, and `Write` with its result; and the methods
-- beyond these, by name, which a type assertion finds, as `Flush` of `http.Flusher`, or the
-- `requestTooLarge` that `http.MaxBytesReader` calls.
pub record ResponseWriter (W : Type 0) : Type 0 where
  pub set_header : String → String → W → W
  pub write_header : ℕ → W → W
  pub write : Bytes → W → W × (ℕ × Option Error)
  pub extension : String → Option (W → W)

pub record LogResponseWriter (W : Type 0) : Type 0 where
  pub response_writer : W
  pub status_code : ℕ

pub record LogBodyResponseWriter (W : Type 0) : Type 0 where
  pub response_writer : W
  pub status_code : ℕ
  pub response : Bytes

module _ {W : Type 0} where
  -- `NewLogResponseWriter` and `NewLogBodyResponseWriter`
  abbrev pub new_log_response_writer : W → LogResponseWriter W
  new_log_response_writer w = record { response_writer = w; status_code = 0 }

  abbrev pub new_log_body_response_writer : W → LogBodyResponseWriter W
  new_log_body_response_writer w = record { response_writer = w; status_code = 0; response = [] }

module _ {W : Type 0} (inner : ResponseWriter W) where
  -- The methods of `logResponseWriter`: its own `WriteHeader`, and the two that it embeds. It has no
  -- others, whatever the embedded writer has.
  unfoldable pub log_write_header : ℕ → LogResponseWriter W → LogResponseWriter W
  log_write_header code lrw = record {
    response_writer = inner.write_header code lrw.response_writer;
    status_code = code;
  }

  abbrev pub log_response_writer : ResponseWriter (LogResponseWriter W)
  log_response_writer = record {
    set_header = λ key value lrw. record lrw {
      response_writer = inner.set_header key value lrw.response_writer;
    };
    write_header = log_write_header;
    write = λ bytes lrw.
        let (w, answer) = inner.write bytes lrw.response_writer in
        (record lrw { response_writer = w }, answer);
    extension = λ name. none;
  }

  -- The methods of `logBodyResponseWriter`
  unfoldable pub log_body_write_header : ℕ → LogBodyResponseWriter W → LogBodyResponseWriter W
  log_body_write_header code lrw = record lrw {
    response_writer = inner.write_header code lrw.response_writer;
    status_code = code;
  }

  unfoldable pub log_body_write :
      Bytes → LogBodyResponseWriter W → LogBodyResponseWriter W × (ℕ × Option Error)
  log_body_write bytes lrw =
      let (w, answer) = inner.write bytes lrw.response_writer in
      (record lrw { response_writer = w; response = lrw.response ++ bytes }, answer)

  abbrev pub log_body_response_writer : ResponseWriter (LogBodyResponseWriter W)
  log_body_response_writer = record {
    set_header = λ key value lrw. record lrw {
      response_writer = inner.set_header key value lrw.response_writer;
    };
    write_header = log_body_write_header;
    write = log_body_write;
    extension = λ name. none;
  }
