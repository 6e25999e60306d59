-- ===== src/Examples/Scheduling.antt =====
-- The FindX service at concrete schedules: its queue, and its end under a fair schedule.
use xdas.Prelude.{All, List, [], ◌∷◌, ◌++◌, some, true, returns, ◌≡◌, refl, arith}
use mathlib.Core.List.{Memᴰ}
use xdas.FindX.{
  FindX, Event, tests_add, selects_add, closes, leaves, receives, ends_request, step, run, start,
  close, no_metrics,
}
use xdas.FindX.Draining.{IsDone}
use xdas.FindX.Fairness.{IsRound, joined, fair-close-IsDone}
use xdas.FindX.Fifo.{trace, run-refines-queue}
use xdas.FindX.Fifo.Queue.{silent, accepts, drops, takes, replay, accepted, taken}
use xdas.Examples.FindX.{parses_all, registers_all, accepting, configured}

-- A service with room for one id.
abbrev narrow : FindX
narrow = record configured { channel_buffer_size = 1 }

-- Three callers pass the test, and the second to reach the channel finds it full.
abbrev crowded : List Event
crowded =
    tests_add "A"
    ∷ tests_add "B"
    ∷ tests_add "C"
    ∷ selects_add 2
    ∷ selects_add 0
    ∷ receives
    ∷ selects_add 0
    ∷ []

abbrev crowded_end : FindX
crowded_end = record narrow {
  channel_buffer_size = 1;
  thread = 1;
  enabled = true;
  registration = record narrow.registration { prom_reg = true };
  in_flight = "A" ∷ [];
  ch = "B" ∷ [];
  metrics = record no_metrics { add_suc = 2; add_fail = 1 };
}

abbrev narrow_started : FindX
narrow_started = record narrow {
  channel_buffer_size = 1;
  thread = 1;
  waiting = 1;
  enabled = true;
  registration = record narrow.registration { prom_reg = true };
}

run-refines-queue_example :
    let labels = trace accepting narrow_started crowded in
    (replay 1 [] labels ≡ some crowded_end.ch) × (accepted labels ≡ taken labels ++ crowded_end.ch)
unfolding start run step
run-refines-queue_example =
    run-refines-queue accepting parses_all registers_all narrow narrow_started crowded_end crowded
      refl refl

crowded-trace :
    trace accepting narrow_started crowded
    ≡ silent ∷ silent ∷ silent ∷ accepts "A" ∷ drops "C" ∷ takes "A" ∷ accepts "B" ∷ []
unfolding trace step
crowded-trace = refl

-- A service with an id in its channel and a thread that waits.
abbrev holding : FindX
holding = record configured { enabled = true; waiting = 1; ch = "A" ∷ [] }

abbrev busy_round : List Event
busy_round = tests_add "B" ∷ leaves ∷ ends_request 0 ∷ selects_add 0 ∷ closes ∷ receives ∷ []

busy_round-IsRound : IsRound busy_round
busy_round-IsRound = record {
  receives_once = Memᴰ.tail (Memᴰ.tail (Memᴰ.tail (Memᴰ.tail (Memᴰ.tail (Memᴰ.head refl)))));
  ends_once = Memᴰ.tail (Memᴰ.tail (Memᴰ.head refl));
  leaves_once = Memᴰ.tail (Memᴰ.head refl);
}

abbrev pub four_rounds : List (List Event)
four_rounds = busy_round ∷ busy_round ∷ busy_round ∷ busy_round ∷ []

pub four_rounds-IsRound : All IsRound four_rounds
four_rounds-IsRound =
    (busy_round-IsRound, (busy_round-IsRound, (busy_round-IsRound, (busy_round-IsRound, tt))))

fair-close-IsDone_example :
    (f' : FindX) × (run accepting (close holding) (joined four_rounds) ≡ returns f') × IsDone f'
fair-close-IsDone_example =
    fair-close-IsDone accepting holding four_rounds refl refl ((λ u asks e. cc), tt) tt
      four_rounds-IsRound (omega arith)
