-- ===== src/WebLog/Body.antt =====
-- internal/logger/weblog/weblog.go: the reading of the body, and what is logged of it.
use xdas.Prelude.{
  ℕ, String, utf8, [], ◌∷◌, ◌++◌, Bytes, Option, none, some, Bool, true, false, ◌==◌, nat_eq,
  if◌then◌else◌, Result, ok, err,
}
use xdas.Errors.{Error, max_bytes_error}
use xdas.Server.{status_text}
use xdas.WebLog.Writer.{ResponseWriter}

-- An `io.ReadCloser`: nil, `http.NoBody`, or a reader by the bytes that it has left, the error that
-- comes after them, and what its `Close` returns.
pub data ReadCloser : Type 0 where
  nil no_body : ReadCloser
  reader : Bytes → Option Error → Option Error → ReadCloser

-- `io.NopCloser(bytes.NewReader(body))`
abbrev pub nop_closer : Bytes → ReadCloser
nop_closer body = reader body none none

-- `io.ReadAll` until the end of the input
unfoldable pub io_read_all : ReadCloser → Result Error Bytes
io_read_all nil = ok []
io_read_all no_body = ok []
io_read_all (reader left none close) = ok left
io_read_all (reader left (some e) close) = err e

-- `drainBody`: the body and a reader of it in its place.
unfoldable pub drain_body : ReadCloser → Result Error (Bytes × ReadCloser)
drain_body nil = ok ([], no_body)
drain_body no_body = ok ([], no_body)
drain_body (reader left (some e) close) = err e
drain_body (reader left none (some e)) = err e
drain_body (reader left none none) = ok (left, nop_closer left)

abbrev pub is_max_bytes_error : Error → Bool
is_max_bytes_error max_bytes_error = true
is_max_bytes_error _ = false

module _ {W : Type 0} (writer : ResponseWriter W) where
  -- `http.Error`
  unfoldable pub http_error : String → ℕ → W → W
  unfolding utf8
  http_error text status w =
      (writer.write (utf8 text ++ b'\n' ∷ []) (
        writer.write_header status (
          writer.set_header "X-Content-Type-Options" "nosniff"
            (writer.set_header "Content-Type" "text/plain; charset=utf-8" w)))).0

  -- `errReadBody`
  unfoldable pub err_read_body : Error → W → W
  unfolding http_error status_text
  err_read_body e w =
      if is_max_bytes_error e
      then http_error (status_text 413) 413 w
      else http_error (status_text 400) 400 w

-- `strings.Trim(s, " ")`
unfoldable pub trim_left : Bytes → Bytes
trim_left [] = []
trim_left (b ∷ bs) = let rest = trim_left bs in if b == b' ' then rest else b ∷ bs

unfoldable pub trim_right : Bytes → Bytes
trim_right [] = []
trim_right (b ∷ bs) = elim (trim_right bs) [
  | [] ↦ if b == b' ' then [] else b ∷ []
  | (c ∷ cs) ↦ b ∷ c ∷ cs
]

abbrev pub starts_with : ℕ → Bytes → Bool
starts_with c [] = false
starts_with c (b ∷ bs) = b == c

-- `RawJSON.MarshalJSON`, with `json.Marshal` of a text
unfoldable pub marshal_json : (Bytes → Bytes) → Bytes → Bytes
unfolding trim_left trim_right
marshal_json marshal_text r =
    let s = trim_left (trim_right r) in if starts_with b'{' s then r else marshal_text s
