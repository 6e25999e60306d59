-- ===== src/Server/System/Accounting.antt =====
-- internal/findx inside the running server: the accounting of a service.
use xdas.Prelude.{String, some, returns, lookup, string_eq, nat_eq, ◌≡◌}
use xdas.FindX.{FindX, Reply, Event, step}
use xdas.FindX.Threads.{Inv, step-Inv}
use xdas.Server.Config.{KeyspaceConfig}
use xdas.Server.State.{World, Services}
use xdas.Server.System.{Reach}
use xdas.Server.System.Steps.{Reach-Holds}

module _ {S Message : Type 0} (services : Services S Message) (version_text : String)
    (reply : String → Reply) where
  -- Whatever requests, goroutines, threads, closings and changes of Redis follow each other from a
  -- world in which every keyspace has a service: a keyspace that is configured at the end was so at the
  -- start, it has a service at the end, and if the accounting of its service held at the start, that of
  -- its service at the end holds.
  pub Reach-Inv :
      (s s' : World S) (k : String) (c' : KeyspaceConfig)
      → ((j : String) (d : KeyspaceConfig)
          → lookup j s.config.keyspaces ≡ some d
          → (g : FindX) × (d.find_x ≡ some g))
      → Reach services version_text reply s s'
      → lookup k s'.config.keyspaces ≡ some c'
      → (c : KeyspaceConfig) × (f : FindX) × (f' : FindX) × (lookup k s.config.keyspaces ≡ some c)
        × (c.find_x ≡ some f)
        × (c'.find_x ≡ some f')
        × (Inv f → Inv f')
  Reach-Inv s s' k c' all reached known' =
      let (f', given', (c, f, known, given, kept)) =
        Reach-Holds services version_text reply P keep reached start k c' known' in
      (c, f, f', known, given, given', kept)
    where
      P : String → FindX → Type 0
      P j g =
          (d : KeyspaceConfig) × (h : FindX) × (lookup j s.config.keyspaces ≡ some d)
          × (d.find_x ≡ some h)
          × (Inv h → Inv g)

      keep : (j : String) (g g' : FindX) (e : Event) → step reply g e ≡ returns g' → P j g → P j g'
      keep j g g' e stepped (d, h, found, present, kept) =
          (d, h, found, present, λ v. step-Inv reply g g' e stepped (kept v))

      start :
          (j : String) (d : KeyspaceConfig)
          → lookup j s.config.keyspaces ≡ some d
          → (g : FindX) × (d.find_x ≡ some g) × P j g
      start j d found =
          let (g, present) = all j d found in (g, present, (d, g, found, present, λ v. v))
