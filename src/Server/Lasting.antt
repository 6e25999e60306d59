-- ===== src/Server/Lasting.antt =====
-- cmd/xdas with internal/findx: a server that `main` has started goes on to answer.
use xdas.Prelude.{String, Bytes, Option, Result, ok, returns, Returns, ◌≡◌, ◌≢◌, string_eq}
use xdas.Errors.{Error}
use xdas.FindX.{Reply}
use xdas.Server.Http.{Method, Request, Response, other_panic}
use xdas.Server.State.{World, Services}
use xdas.Server.Routes.{Endpoint, serve}
use xdas.Server.OwnMetrics.{Descriptor}
use xdas.Server.Setup.{Flags, Started, Settings, Sources, new_settings, main}
use xdas.Server.Up.{IsServing, AllFresh}
use xdas.Server.Ready.{main-IsServing}
use xdas.Server.Answering.{IsServing-IsInitialised}
use xdas.Server.Health.{IsHealthy}
use xdas.Server.Served.{OneEach, Countable, serve-Returns}
use xdas.Server.System.{Reach}
use xdas.Server.System.Healthy.{Reach-IsHealthy}

IsServing-IsHealthy :
    {S Certificate CertPool : Type 0} (flags : Flags) (st : Started Certificate CertPool)
    (s : World S)
    → IsServing flags st
    → s.config ≡ st.settings.rest
    → s.metrics ≡ st.metrics
    → IsHealthy s
IsServing-IsHealthy flags st s up config metrics = record {
  services_hold = λ k c known. (up.keyspaces k c (rw config at known)).1;
  countable = λ k (c, known). rw metrics (up.keyspaces k c (rw config at known)).0;
}

-- A server that `main` has started, whatever the flags, the files and the registries hold, goes on to
-- answer: after any requests, runs of the goroutines of `findX`, steps of the services and their
-- threads, the closing of services included, and changes of Redis by others, in any order, as long as
-- none of these has panicked, a request to any route by any method is answered without a panic, if
-- `MGET` gives one value for each key, the reading of its body does not panic, and the metrics are off
-- or the label of its client is valid.
pub main-serves :
    {S Message Certificate CertPool R : Type 0} (services : Services S Message)
    (version_text : String) (reply : String → Reply) (one_each : OneEach services)
    (sources : Sources Certificate CertPool)
    (fresh : (b : Bytes) (config : Settings Certificate CertPool)
      → sources.unmarshal b new_settings ≡ ok config
      → AllFresh config.rest.keyspaces)
    (parse_request_uri : String → Option Error)
    (register_find_x : String → String → String → Option Error)
    (register : R → String → String → String → Result Error R)
    (own : R → Descriptor → Result Error R) (reg : R) (flags : Flags)
    (st : Started Certificate CertPool) (first s : World S) (m : Method) (e : Endpoint)
    (r : Request) (w : Response)
    → main parse_request_uri register_find_x register own reg sources flags ≡ returns (ok st)
    → services.lib.crypto ≡ st.crypto
    → first.config ≡ st.settings.rest
    → first.metrics ≡ st.metrics
    → Reach services version_text reply first s
    → r.body ≢ other_panic
    → Countable services s r
    → Returns (serve services version_text m e s r w)
main-serves services version_text reply one_each sources fresh parse_request_uri register_find_x
      register own reg flags st first s m e r w ran cipher config metrics reached read countable =
    let up =
      main-IsServing sources fresh parse_request_uri register_find_x register own reg flags st
        ran in
    serve-Returns services version_text (IsServing-IsInitialised services flags st up cipher)
      one_each m e s r w
      (Reach-IsHealthy services version_text reply reached
        (IsServing-IsHealthy flags st first up config metrics))
      read countable
