-- ===== src/Server/Shutdown.antt =====
-- cmd/xdas/xdas.go: `shutdown`, and how `main` ends.
use xdas.Prelude.{
  ℕ, String, List, [], ◌∷◌, Option, none, some, Bool, true, false, ◌&&◌, ◌==◌, nat_eq, length,
  if◌then◌else◌, Run, returns, panics, and_then,
}
use xdas.Errors.{Error}
use xdas.FindX.{FindX, Reply, Event, close, run}
use xdas.Server.Config.{KeyspaceConfig}
use xdas.Server.State.{World}

-- What `wg.Wait` waits for
abbrev pub has_ended : FindX → Bool
has_ended f = (f.waiting == 0) && (length f.in_flight == 0)

-- A call that may never come back, like the wait of `Close`, has the result `none` where it does not.
module _ (reply : String → Reply) (meanwhile : String → List Event) where
  -- `Close` with its wait, while the events of `meanwhile` happen to the service
  unfoldable pub close_and_wait : String → FindX → Run (Option FindX)
  unfolding close run
  close_and_wait keyspace f =
      if f.enabled
      then and_then (run reply (close f) (meanwhile keyspace))
          (λ f'. returns (if has_ended f' then some f' else none))
      else returns (some f)

  -- The loop of `shutdown` over the services, with the waits. A service stands as it was at the start of
  -- the loop when its turn comes.
  unfoldable pub close_all :
      List (String × KeyspaceConfig) → Run (Option (List (String × KeyspaceConfig)))
  unfolding close_and_wait
  close_all [] = returns (some [])
  close_all ((k, c) ∷ rest) =
      let others = close_all rest in
      elim c.find_x [
        | none ↦ panics
        | some f ↦ and_then (close_and_wait k f) λ closed. elim closed [
          | none ↦ returns none
          | some f' ↦ and_then others λ looped. returns (elim looped [
            | none ↦ none
            | some ks ↦ some ((k, record c { find_x = some f' }) ∷ ks)
          ])
        ]
      ]

-- What `shutdown` leaves.
pub record Down (S : Type 0) : Type 0 where
  pub world : World S
  pub keep_alives : Bool
  pub redis_open : Bool
  pub done : Bool

-- `shutdown`, once a signal has come. `web_shutdown` is `Shutdown` of the web server: it waits for the
-- requests that are being answered, 30 seconds at most, so the world may change. Its error and that
-- of the Redis client are only logged.
unfoldable pub shutdown :
    {S : Type 0}
    → (String → Reply)
    → (String → List Event)
    → (World S → World S × Option Error)
    → Option Error
    → World S
    → Run (Option (Down S))
unfolding close_all
shutdown reply meanwhile web_shutdown redis_close s =
    let (quiet, web_error) = web_shutdown s in
    and_then (close_all reply meanwhile quiet.config.keyspaces) λ closed. returns (elim closed [
      | none ↦ none
      | some ks ↦ some (record {
        world = record quiet { config = record quiet.config { keyspaces = ks } };
        keep_alives = false;
        redis_open = false;
        done = true;
      })
    ])

-- How `main` ends: with an exit status, or it waits for ever at `<-done`.
pub data Ending : Type 0 where
  ends : ℕ → Ending
  waits : Ending

-- The end of `main`, after `ListenAndServe` has returned `http.ErrServerClosed` or another error
unfoldable pub finish_main : {S : Type 0} → Bool → Option (Down S) → Ending
finish_main false down = ends 1
finish_main true none = waits
finish_main true (some d) = if d.done then ends 0 else waits
