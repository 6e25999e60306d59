-- ===== src/Server/Util.antt =====
-- cmd/xdas/util.go, and the duration constants of cmd/xdas/xdas.go. A `time.Duration` is an `int64` of
-- nanoseconds.
use xdas.Prelude.{
  ℕ, ◌*◌, ◌%◌, String, List, [], ◌∷◌, Bytes, Option, none, some, Bool, true, false, ◌==◌, string_eq,
  if◌then◌else◌, is_pos, int_mod, atoi, parse_bool_word, lookup, Run, returns, panics,
}
use xdas.Errors.{Error, external}
use xdas.Server.Http.{Reading, at_eof, broken, too_large, other_panic}

abbrev pub second : ℕ
second = 1_000_000_000

abbrev pub hour : ℕ
hour = 3600 * second

abbrev pub default_global_ttl : ℕ
default_global_ttl = hour * 168

-- `time.Duration(i) * time.Second`, which wraps
abbrev pub seconds : ℕ → ℕ
seconds i = i * second % int_mod

-- `readAll`: what was read, and the error. The panic `bytes.ErrTooLarge` is recovered, and then the
-- results hold the error alone.
unfoldable pub read_all : Reading → Run (Bytes × Option Error)
read_all (at_eof b) = returns (b, none)
read_all (broken b e) = returns (b, some e)
read_all too_large = returns ([], some (external 5))
read_all other_panic = panics

-- `writeToBufPool`: the content of the buffer, which is reset first.
unfoldable pub write_to_buf_pool : ℕ → Bytes → Bytes
write_to_buf_pool mb content = mb ∷ content

abbrev or_config : ℕ → ℕ
or_config t2 = if is_pos t2 then t2 else default_global_ttl

module _ (parse_duration : String → Option ℕ) where
  abbrev parsed_or_config : String → ℕ → ℕ
  parsed_or_config t t2 = elim (parse_duration t) [ some ttl ↦ ttl | none ↦ or_config t2 ]

  -- `getTTL`, over `time.ParseDuration`
  unfoldable pub get_ttl : String → ℕ → ℕ
  unfolding atoi
  get_ttl t t2 =
      if t == ""
      then or_config t2
      else elim (atoi t) [ some i ↦ seconds i | none ↦ parsed_or_config t t2 ]

-- `parseBool`
unfoldable pub parse_bool : String → List (String × String) → Bool
unfolding lookup parse_bool_word
parse_bool key v = elim (lookup key v) [
  | none ↦ false
  | some value ↦ if value == "" then true else parse_bool_word value
]
