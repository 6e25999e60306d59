-- ===== src/Server/Health.antt =====
-- cmd/xdas: a world in which no request needs to panic, and that the handlers keep.
use xdas.Prelude.{String, returns, zero, ◌≡◌, sym, subst, inl, inr, string_eq}
use xdas.Conversion.Counting.{IsCounted}
use xdas.FindX.{FindX, Reply, not_answered, tests_add, selects_add, step}
use xdas.FindX
use xdas.FindX.Soundness.{IsSound, IsSound-shut, step-IsSound, add_steps}
use xdas.Server.State.{World}
use xdas.Server.Tame.{IsTame, Known, none_new}
use xdas.Server.Totality.{IsServiced}
use xdas.Server.System.Holding.{Holds, Holds-tame}

add-IsSound : (f f' : FindX) (id : String) → FindX.add f id ≡ returns f' → IsSound f → IsSound f'
add-IsSound f f' id e v = elim (add_steps silent f f' id e) [
  | inl same ↦ subst IsSound (sym same) v
  | inr (g, tested, selected) ↦
      step-IsSound silent g f' (selects_add zero) selected
        (step-IsSound silent f g (tests_add id) tested v)
]
  where
    silent : String → Reply
    silent url = not_answered

module _ {S : Type 0} where
  -- Each keyspace can be counted and has a service that is disabled or whose accounting holds.
  pub record IsHealthy (s : World S) : Type 0 where
    pub services_hold : Holds (λ k. IsSound) s
    pub countable : (k : String) → Known k s → IsCounted k s.metrics

  pub IsHealthy-tame : (s s' : World S) → IsTame s s' → IsHealthy s → IsHealthy s'
  IsHealthy-tame s s' v h = record {
    services_hold = Holds-tame (λ k. IsSound) (λ k. add-IsSound) s s' v h.services_hold;
    countable = λ k known. v.countable k (h.countable k (none_new s s' v k known));
  }

  -- In such a world the service of a keyspace can be given ids.
  pub IsHealthy-IsServiced : (k : String) (s : World S) → IsHealthy s → Known k s → IsServiced k s
  IsHealthy-IsServiced k s h (c, known) =
      let (f, given, sound) = h.services_hold k c known in
      record {
        config = c;
        service = f;
        configured = known;
        present = given;
        shut = IsSound-shut f sound;
      }
