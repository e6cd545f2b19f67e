-- ===== src/Service/Control/Tests.antt =====
-- Concrete runs of start and stop.
use winforge.Prelude.{ℕ, ◌+◌, ◌≡◌, refl, arith, some, if◌then◌else◌, ◌==◌}
use winforge.Text.{codes}
use winforge.Errors.{Result, ok}
use winforge.Service.{start_auto}
use winforge.Service.Io.{Gives}
use winforge.Service.Control.{
  query, poll, wait_for_state, wait_for_state_change, get_service_status, start_round, start_from,
  start, stop_round, stop,
}
use winforge.Service.Scm.{Status, Scm, running}
use winforge.Service.Control.Polling.{ClockLaws, start_stop-Returns}
use winforge.Service.Control.Seen.{Seen}
use winforge.Service.Control.Outcome.{start_it, verb-Seen}

-- a clock and the state of one service
record Machine : Type 0 where
  clock : ℕ
  state : ℕ

abbrev settle : ℕ → ℕ
settle n = if n == 2 then 4 else if n == 3 then 1 else n

abbrev status_of : ℕ → Status
status_of n = record { current_state = n; exit_code = 0; specific_exit_code = 0 }

-- a manager over it: a pending state settles while a caller sleeps
abbrev one_service : Scm Machine (Unit {0})
one_service = record {
  open_service = λ name access m. (ok tt, m);
  close_handle = λ h m. m;
  query_status = λ h m. (ok (status_of m.state), m);
  query_config = λ h m. (ok start_auto, m);
  change_config = λ h mode m. (ok tt, m);
  start_service = λ h m. (ok tt, record m { state = 2 });
  control_continue = λ h m. (ok tt, record m { state = 4 });
  control_stop = λ h m. (ok tt, record m { state = 3 });
  now = λ m. m.clock;
  sleep = λ m. record { clock = m.clock + 100; state = settle m.state };
}

one_service_clock : ClockLaws one_service
one_service_clock = record { over_query = λ h s. ground arith; over_sleep = λ s. ground arith }

start_stop-Returns_example :
    ((r : Result (Unit {0})) × (s' : Machine) × (start one_service
          (codes "Spooler")
          (record { clock = 5; state = 1 })
        ≡ some (r, s')))
    × ((r : Result (Unit {0})) × (s' : Machine) × (stop one_service
            (codes "Spooler")
            (record { clock = 5; state = 1 })
          ≡ some (r, s')))
start_stop-Returns_example =
    start_stop-Returns one_service one_service_clock (codes "Spooler")
      (record { clock = 5; state = 1 })

a_start :
    Gives
      (start one_service (codes "Spooler"))
      (record { clock = 5; state = 1 })
      tt
      (record { clock = 105; state = 4 })
unfolding query poll wait_for_state wait_for_state_change get_service_status start_round start_from
    start
a_start = refl

a_stop :
    Gives
      (stop one_service (codes "Spooler"))
      (record { clock = 5; state = 4 })
      tt
      (record { clock = 105; state = 1 })
unfolding query poll wait_for_state wait_for_state_change get_service_status stop_round stop
a_stop = refl

verb-Seen_example : Seen one_service (codes "Spooler") running (record { clock = 105; state = 4 })
verb-Seen_example =
    verb-Seen one_service start_it (codes "Spooler") (record { clock = 5; state = 1 })
      (record { clock = 105; state = 4 }) a_start
