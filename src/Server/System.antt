-- ===== src/Server/System.antt =====
-- cmd/xdas with internal/findx: the server as it runs. Requests, the goroutines of `findX`, the steps of
-- the services and their threads, and the other clients of Redis follow each other in any order; a
-- request is one step.
pub mod Holding
pub mod Steps
pub mod Healthy
pub mod Accounting
use xdas.Prelude.{String, List, [], ◌∷◌, ◌++◌, Run, returns, ◌≡◌}
use xdas.FindX.{Reply, Event, step}
use xdas.Server.Http.{Method, Request, Response, new_response}
use xdas.Server.State.{World, Services, with_find_x, find_x_pld}
use xdas.Server.Routes.{Endpoint, serve}

module _ {S Message : Type 0} (services : Services S Message) (version_text : String)
    (reply : String → Reply) where
  -- One step of the running server that does not panic.
  pub data Step (s : World S) : World S → Type 0 where
    -- a request is answered
    answers :
        (m : Method) (e : Endpoint) (r : Request) {s' : World S} (w : Response)
        → serve services version_text m e s r new_response ≡ returns (s', w)
        → Step s s'
    -- a goroutine that `findX` has started runs
    looks_up :
        (before : List String) (id : String) (after : List String) {s' : World S}
        → s.spawned ≡ before ++ id ∷ after
        → find_x_pld services.redis id (record s { spawned = before ++ after }) ≡ returns s'
        → Step s s'
    -- the service of a keyspace, or a thread of it, makes a step; `closes` is that of `shutdown`
    works :
        (keyspace : String) (e : Event) {s' : World S}
        → with_find_x keyspace s (λ f. step reply f e) ≡ returns s'
        → Step s s'
    -- Redis is changed by others, or lets a value expire
    changes : (store : S) → Step s (record s { store = store })

  pub data Reach (s : World S) : World S → Type 0 where
    here : Reach s s
    later : {t u : World S} → Reach s t → Step t u → Reach s u
