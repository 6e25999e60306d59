-- ===== src/Server/Http.antt =====
-- What the handlers of cmd/xdas see of Go's `net/http`: the request, and the response writer.
use Prim.Native.Char.{code}
use xdas.Prelude.{
  ℕ, String, List, [], ◌∷◌, ◌++◌, Bytes, Option, none, some, Bool, true, lookup, lookup_or, insert,
  ◌==◌, nat_eq, string_eq, if◌then◌else◌, ◌<>◌, to_upper_char, to_lower_char,
}
use xdas.Errors.{Error}

-- `textproto.CanonicalMIMEHeaderKey`: capitals at the start and after a dash
canonical_from : Bool → String → String
canonical_from start String.[] = String.[]
canonical_from start (String.◌∷◌ c s) =
    String.◌∷◌ (if start then to_upper_char c else to_lower_char c)
      (canonical_from (code c == b'-') s)

unfoldable pub canonical : String → String
unfolding canonical_from to_upper_char to_lower_char lookup
canonical key = canonical_from true key

abbrev pub Header : Type 0
Header = List (String × String)

-- `Header.Set` and `Header.Get`
unfoldable pub set_header : String → String → Header → Header
unfolding canonical insert
set_header key value h = insert (canonical key) value h

unfoldable pub get_header : String → Header → String
unfolding canonical lookup_or
get_header key h = lookup_or (canonical key) "" h

-- The methods that the router tells apart.
pub data Method : Type 0 where
  get put post delete other_method : Method

-- The reading of a body: all of it, an error after a part, or a panic, of `bytes.ErrTooLarge` or else.
pub data Reading : Type 0 where
  at_eof : Bytes → Reading
  broken : Bytes → Error → Reading
  too_large other_panic : Reading

-- A request: the URL parameters of the route, the query, the headers, and the reading of its body.
pub record Request : Type 0 where
  pub keyspace : String
  pub id : String
  pub query : List (String × String)
  pub header : Header
  pub body : Reading

-- `r.URL.Query().Get(key)`
unfoldable pub query_get : String → List (String × String) → String
unfolding lookup_or
query_get key query = lookup_or key "" query

-- What is written to a body: text, bytes, a part of a multipart message, and its closing line.
pub data Chunk : Type 0 where
  text : String → Chunk
  bytes : Bytes → Chunk
  part : Header → Bytes → Chunk
  closing : Chunk

-- `header` is the map that `w.Header()` gives; `sent` is the status with the headers of that moment.
pub record Response : Type 0 where
  pub header : Header
  pub sent : Option (ℕ × Header)
  pub body : List Chunk

abbrev pub new_response : Response
new_response = record { header = []; sent = none; body = [] }

-- `w.Header().Set(key, value)`
unfoldable pub set_response_header : String → String → Response → Response
unfolding set_header
set_response_header key value w = record w { header = set_header key value w.header }

-- `w.WriteHeader(code)`: only the first has an effect.
abbrev pub write_header : ℕ → Response → Response
write_header status w = elim w.sent [
  | none ↦ record w { sent = some (status, w.header) }
  | some first ↦ w
]

-- `w.Write`, which sends the status 200 if none was sent
abbrev pub write : Chunk → Response → Response
write chunk w = let w' = write_header 200 w in record w' { body = w'.body ++ chunk ∷ [] }

abbrev status_texts : List (ℕ × String)
status_texts =
    (200, "OK")
    ∷ (400, "Bad Request")
    ∷ (404, "Not Found")
    ∷ (413, "Request Entity Too Large")
    ∷ (500, "Internal Server Error")
    ∷ []

-- `http.StatusText`, at the codes that the handlers use
unfoldable pub status_text : ℕ → String
unfolding lookup_or
status_text status = lookup_or status "" status_texts

-- `fmt.Fprintln(w, s)`
abbrev pub fprintln : String → Response → Response
fprintln s w = write (text (s <> "\n")) w

-- `http.Error(w, s, code)`
unfoldable pub http_error : String → ℕ → Response → Response
unfolding set_response_header
http_error s status w = fprintln s (
    write_header status (
      set_response_header "X-Content-Type-Options" "nosniff"
        (set_response_header "Content-Type" "text/plain; charset=utf-8" w)))

-- The status that the client sees.
abbrev pub status_of : Response → ℕ
status_of w = elim w.sent [ none ↦ 200 | some (status, h) ↦ status ]
