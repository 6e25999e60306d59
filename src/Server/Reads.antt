-- ===== src/Server/Reads.antt =====
-- cmd/xdas/handler.go: a GET reads Redis only.
use xdas.Prelude.{
  String, [], ◌∷◌, ◌++◌, false, Run, returns, panics, ◌≡◌, ◌⊎◌, err, inl, inr, arith, string_eq,
  nat_eq, ◌==◌, Bool-cases,
}
use xdas.Errors.{redis_nil}
use xdas.MagicByte.{MagicByte}
use xdas.FindX.{FindX}
use xdas.Server.Http.{Request, Response}
use xdas.Server.Store.{redis_key}
use xdas.Server.Util.{parse_bool}
use xdas.Server.State.{World, Services, get_id, with_find_x, find_x}

module _ {S : Type 0} where
  -- Redis, the services and the goroutines to run are as they were.
  abbrev pub IsQuiet : World S → World S → Type 0
  IsQuiet s s' = (s'.store ≡ s.store) × (s'.config ≡ s.config) × (s'.spawned ≡ s.spawned)

  -- What a run leaves, if it returns: Redis as it was, and all else too but where `asked` holds.
  abbrev pub Reads : World S → (World S → Type 0) → Run (World S × Response) → Type 0
  Reads s asked (returns (s', w)) = IsQuiet s s' ⊎ ((s'.store ≡ s.store) × asked s')
  Reads s asked panics = Unit

module _ {S : Type 0} where
  pub with_find_x-store :
      (keyspace : String) (s s' : World S) (call : FindX → Run FindX)
      → with_find_x keyspace s call ≡ returns s'
      → s'.store ≡ s.store
  unfolding with_find_x
  with_find_x-store keyspace s s' call e = ground arith

  pub find_x-store :
      (keyspace id : String) (s s' : World S)
      → find_x keyspace id s ≡ returns s'
      → s'.store ≡ s.store
  unfolding find_x
  find_x-store keyspace id s s' e = elim (Bool-cases (keyspace == "pld")) [
    | inl pld ↦ started (rw (pld, find_x) at e)
    | inr other ↦ with_find_x-store keyspace s s' _ (rw (other, find_x) at e)
  ]
    where
      started :
          ◌≡◌ {A = Run (World S)}
            (returns (record s { spawned = s.spawned ++ id ∷ [] }))
            (returns s')
          → s'.store ≡ s.store
      started m = cc

module _ {S Message : Type 0} (services : Services S Message) where
  open services use {redis, lib, random}

  -- A GET asks FindX: Redis has no value at the key, the query does not forbid it, and the world is what
  -- `findX` leaves.
  abbrev pub AsksFindX : World S → Request → World S → Type 0
  AsksFindX s r s' =
      (redis.get s.store (redis_key r.keyspace (get_id r)) ≡ err redis_nil)
      × (parse_bool "nofindx" r.query ≡ false)
      × (find_x r.keyspace (get_id r) s ≡ returns s')
