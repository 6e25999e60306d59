-- ===== src/Logger.antt =====
-- internal/logger/logger.go: loggers, which share a level by a pointer.
pub mod Levels
use xdas.Prelude.{
  ℕ, ◌≤◌, String, List, [], ◌∷◌, ◌++◌, Bool, leb, if◌then◌else◌, ◌==◌, string_eq, length,
}

-- The named levels of slog, in their order.
pub data Level : Type 0 where
  debug info warn error : Level

abbrev pub rank : Level → ℕ
rank debug = 0
rank info = 1
rank warn = 2
rank error = 3

-- The store of the `LevelVar`s, by their addresses. No program asks for one that was not made.
abbrev pub Levels : Type 0
Levels = List Level

unfoldable pub get_level : ℕ → Levels → Level
get_level n [] = info
get_level Prim.Native.Nat.zero (l ∷ ls) = l
get_level (Prim.Native.Nat.suc n) (l ∷ ls) = get_level n ls

unfoldable pub put_level : ℕ → Level → Levels → Levels
put_level n v [] = []
put_level Prim.Native.Nat.zero v (l ∷ ls) = v ∷ ls
put_level (Prim.Native.Nat.suc n) v (l ∷ ls) = l ∷ put_level n v ls

-- What a `slog.Logger` holds: the `Leveler` of its handler, and what `With` and `WithGroup` have
-- added to its lines.
pub data Added : Type 0 where
  arguments : List String → Added
  group : String → Added

pub record Slog : Type 0 where
  pub leveler : ℕ
  pub added : List Added

pub record Logger : Type 0 where
  pub logger : Slog
  pub lvl_var : ℕ

-- `NewLogger` and `NewLoggerWithIOWriter`, which differ in where the lines go: a new `LevelVar`,
-- whose zero value is the level of `info`.
unfoldable pub new_logger : Levels → Logger × Levels
new_logger levels = (
  record { logger = record { leveler = length levels; added = [] }; lvl_var = length levels },
  levels ++ info ∷ [],
)

-- `Level` and `SetLevel`
unfoldable pub level : Logger → Levels → Level
unfolding get_level
level l levels = get_level l.lvl_var levels

unfoldable pub set_level : Logger → Level → Levels → Levels
unfolding put_level
set_level l v levels = put_level l.lvl_var v levels

-- `With` and `WithGroup`
unfoldable pub with : Logger → List String → Logger
with l [] = l
with l (arg ∷ args) = record l {
  logger = record l.logger { added = l.logger.added ++ arguments (arg ∷ args) ∷ [] };
}

unfoldable pub with_group : Logger → String → Logger
with_group l name =
    if name == ""
    then l
    else record l { logger = record l.logger { added = l.logger.added ++ group name ∷ [] } }

-- Whether a line of a level is written: the handler reads the level at that moment.
unfoldable pub enabled : Logger → Level → Levels → Bool
unfolding get_level
enabled l v levels = leb (rank (get_level l.logger.leveler levels)) (rank v)
