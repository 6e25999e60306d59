-- ===== src/Examples/FindX.antt =====
-- The FindX service at concrete schedules.
use xdas.Prelude.{
  ◌+◌, ◌%◌, String, List, [], ◌∷◌, true, false, Option, none, panics, ◌≡◌, refl, ◌⊎◌, ◌↔◌, int_mod,
}
use xdas.Errors.{Error}
use xdas.FindX.{
  FindX, Event, tests_add, selects_add, closes, leaves, receives, ends_request, step, run, start,
  close, Reply, not_created, answered, no_metrics,
}
use xdas.FindX.Threads.{Inv, run-start-Inv}
use xdas.FindX.Panics.{LateAdd, BadRequest, step_panics, add-close-panics}
use xdas.FindX.Draining.{IsDone-drained}
use xdas.Server.{new_find_x}

abbrev pub parses_all : String → Option Error
parses_all url = none

abbrev pub registers_all : String → String → String → Option Error
registers_all keyspace name code = none

-- A service as the configuration gives it.
abbrev pub configured : FindX
configured = record new_find_x { is_enabled = true; keyspace = "pa"; url = "http://f/" }

abbrev started : FindX
started = record configured {
  channel_buffer_size = 128;
  thread = 1;
  waiting = 1;
  enabled = true;
  registration = record configured.registration { prom_reg = true };
}

abbrev pub accepting : String → Reply
accepting url = answered 200

abbrev one_added : List Event
one_added = tests_add "A" ∷ selects_add 0 ∷ receives ∷ ends_request 0 ∷ []

abbrev after_one : FindX
after_one = record started { metrics = record no_metrics { add_suc = 1; sent_suc = 1 } }

run-start-Inv_example : Inv after_one
unfolding start run step
run-start-Inv_example =
    run-start-Inv parses_all registers_all accepting configured started after_one one_added refl
      refl refl

abbrev finished : FindX
finished = record after_one {
  is_enabled = false;
  enabled = false;
  closed = true;
  waiting = 0;
  left = 1;
}

abbrev added_and_closed : List Event
added_and_closed = tests_add "A" ∷ selects_add 0 ∷ receives ∷ closes ∷ ends_request 0 ∷ leaves ∷ []

IsDone-drained_example :
    (finished.enabled ≡ false)
    × (finished.ch ≡ [])
    × (finished.metrics.add_suc
        ≡ (finished.metrics.sent_suc + finished.metrics.sent_fail + finished.metrics.sent_rej)
          % int_mod)
unfolding start run step close
IsDone-drained_example =
    IsDone-drained parses_all registers_all accepting configured started finished added_and_closed
      refl refl refl (record { none_waiting = refl; none_sending = refl })

abbrev refusing : String → Reply
refusing url = not_created

abbrev sending : FindX
sending = record started { in_flight = "A" ∷ []; waiting = 0 }

step_panics_example :
    (step refusing sending (ends_request 0) ≡ panics)
    ↔ (LateAdd sending (ends_request 0) ⊎ BadRequest refusing sending (ends_request 0))
step_panics_example = step_panics refusing sending (ends_request 0)

add-close-panics_example :
    run accepting started (tests_add "A" ∷ closes ∷ selects_add 0 ∷ []) ≡ panics
add-close-panics_example = add-close-panics accepting started "A" refl
