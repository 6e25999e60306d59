-- ===== src/Logger/Levels.antt =====
-- internal/logger/logger.go: the level that loggers share.
use xdas.Prelude.{
  ℕ, zero, suc, ◌<◌, String, List, [], ◌∷◌, ◌++◌, leb, length, ◌≡◌, refl, ◌≢◌, ◌∙◌, arith,
  string_eq, ap,
}
use xdas.Logger.{
  Level, Levels, get_level, put_level, Logger, new_logger, set_level, with, with_group, enabled,
  rank, info,
}

-- A logger whose handler reads the `LevelVar` that its `SetLevel` writes, and which was made.
pub record IsWired (l : Logger) (levels : Levels) : Type 0 where
  pub one_var : l.logger.leveler ≡ l.lvl_var
  pub made : l.lvl_var < length levels

get_level-put_level :
    (n : ℕ) (v : Level) (levels : Levels)
    → n < length levels
    → get_level n (put_level n v levels) ≡ v
unfolding get_level put_level
get_level-put_level n v [] h = absurd (omega arith)
get_level-put_level zero v (l ∷ ls) h = refl
get_level-put_level (suc n) v (l ∷ ls) h = get_level-put_level n v ls (omega arith)

get_level-put_level_other :
    (n m : ℕ) (v : Level) (levels : Levels)
    → n ≢ m
    → get_level n (put_level m v levels) ≡ get_level n levels
unfolding get_level put_level
get_level-put_level_other n m v [] h = refl
get_level-put_level_other zero zero v (l ∷ ls) h = absurd (h refl)
get_level-put_level_other zero (suc m) v (l ∷ ls) h = refl
get_level-put_level_other (suc n) zero v (l ∷ ls) h = refl
get_level-put_level_other (suc n) (suc m) v (l ∷ ls) h =
    get_level-put_level_other n m v ls (λ e. h (ap suc e))

get_level-fresh : (levels : Levels) → get_level (length levels) (levels ++ info ∷ []) ≡ info
unfolding get_level
get_level-fresh [] = refl
get_level-fresh (l ∷ ls) = get_level-fresh ls

with-lvl_var : (l : Logger) (args : List String) → (with l args).lvl_var ≡ l.lvl_var
unfolding with
with-lvl_var l [] = refl
with-lvl_var l (arg ∷ args) = refl

with-leveler : (l : Logger) (args : List String) → (with l args).logger.leveler ≡ l.logger.leveler
unfolding with
with-leveler l [] = refl
with-leveler l (arg ∷ args) = refl

with_group-lvl_var : (l : Logger) (name : String) → (with_group l name).lvl_var ≡ l.lvl_var
unfolding with_group
with_group-lvl_var l name = ground arith

with_group-leveler :
    (l : Logger) (name : String) → (with_group l name).logger.leveler ≡ l.logger.leveler
unfolding with_group
with_group-leveler l name = ground arith

-- A logger made by `With` and `WithGroup` on a logger of `NewLogger` shares its level: a line of
-- either is written exactly if its level is at least the one that was last set through either of
-- them, while a logger that is made anew keeps the level of `info`, and setting its level leaves
-- theirs.
pub set_level-shared :
    (l : Logger) (levels : Levels) (args : List String) (name : String) (v w : Level)
    → IsWired l levels
    → let c = with_group (with l args) name in
      let (k, more) = new_logger levels in
      (set_level c v levels ≡ set_level l v levels)
      × (enabled c w (set_level l v levels) ≡ leb (rank v) (rank w))
      × (enabled l w (set_level c v levels) ≡ leb (rank v) (rank w))
      × (enabled k w more ≡ leb (rank info) (rank w))
      × (enabled l w (set_level k v more) ≡ enabled l w more)
unfolding set_level enabled new_logger
set_level-shared l levels args name v w h =
    let var = with_group-lvl_var (with l args) name ∙ with-lvl_var l args in
    let leveler = with_group-leveler (with l args) name ∙ with-leveler l args in
    let read = get_level-put_level l.lvl_var v levels h.made in
    let wired = h.one_var in
    (
      rw var refl,
      rw (leveler ∙ wired) (rw read refl),
      rw (var) (rw wired (rw read refl)),
      rw (get_level-fresh levels) refl,
      rw
          (get_level-put_level_other l.logger.leveler (length levels) v (levels ++ info ∷ [])
            (λ e. omega arith))
          refl,
    )
