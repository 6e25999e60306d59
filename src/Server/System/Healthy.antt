-- ===== src/Server/System/Healthy.antt =====
-- cmd/xdas with internal/findx: the running server stays healthy.
use xdas.Prelude.{String, string_eq, nat_eq}
use xdas.FindX.{Reply}
use xdas.FindX.Soundness.{IsSound, step-IsSound}
use xdas.Server.State.{World, Services}
use xdas.Server.Health.{IsHealthy}
use xdas.Server.System.{Step, Reach, here, later}
use xdas.Server.System.Steps.{Step-Holds, Step-Countable}

module _ {S Message : Type 0} (services : Services S Message) (version_text : String)
    (reply : String → Reply) where
  Step-IsHealthy :
      {s s' : World S} → Step services version_text reply s s' → IsHealthy s → IsHealthy s'
  Step-IsHealthy stepped v = record {
    services_hold =
        Step-Holds services version_text reply (λ k. IsSound)
          (λ k f f' e. step-IsSound reply f f' e) stepped v.services_hold;
    countable = λ k known.
        let (before, kept) = Step-Countable services version_text reply stepped k known in
        kept (v.countable k before);
  }

  pub Reach-IsHealthy :
      {s s' : World S} → Reach services version_text reply s s' → IsHealthy s → IsHealthy s'
  Reach-IsHealthy here v = v
  Reach-IsHealthy (later reached stepped) v = Step-IsHealthy stepped (Reach-IsHealthy reached v)
