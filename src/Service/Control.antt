-- ===== src/Service/Control.antt =====
-- internal/service/service_windows.go: start, stop and setStartMode over the Service Control Manager.
-- Times are in milliseconds.
pub mod Polling
pub mod Seen
pub mod Starts
pub mod Outcome
mod Tests
use winforge.Prelude.{
  ℕ, zero, suc, ◌+◌, ◌-◌, ◌≤◌, ◌≡◌, Bool, true, false, not, ◌&&◌, ◌||◌, Option, none, some,
  if◌then◌else◌, ltb, leb, ◌==◌,
}
use winforge.Text.{Text}
use winforge.Service.Scm.{
  Status, stopped, running, paused, is_pending, Scm, mode_code, transition_timeout, poll_rounds,
  Verdict, left_state, at_state, same_mode, access_for, reached, keep_waiting, failed,
}
use winforge.Errors.{
  Err, Result, ok, err, os, wrapped, service_timeout, service_stopped_early, service_specific_error,
  service_win32_error, service_state, service_unsettled,
}
use winforge.Service.{StartMode, start_auto, start_manual, start_disabled, other_mode}
use winforge.Service.Io.{Io, pure, fail, call, attempt, closing, ◌>>=◌, ◌>>◌}

module _ {S H : Type 0} (scm : Scm S H) where
  abbrev pub wrap : {A : Type 0} → Result A × S → Result A × S
  wrap (ok a, s) = (ok a, s)
  wrap (err e, s) = (err (wrapped e), s)

  unfoldable pub query : H → Io S Status
  query h = call λ s. wrap (scm.query_status h s)

  abbrev pub timed : Bool → Io S (Unit {0}) → Io S (Unit {0})
  timed true again s = fail service_timeout s
  timed false again s = again (scm.sleep s)

  -- what follows a verdict: the test of the deadline and the sleep
  abbrev pub polled : Verdict → (deadline : ℕ) → Io S (Unit {0}) → Io S (Unit {0})
  polled reached deadline again s = pure tt s
  polled (failed e) deadline again s = fail e s
  polled keep_waiting deadline again s = timed (ltb deadline (scm.now s)) again s

  -- both polling loops
  unfoldable pub poll : (rounds : ℕ) → H → (Status → Verdict) → (deadline : ℕ) → Io S (Unit {0})
  unfolding query
  poll zero h verdict deadline = λ s. none
  poll (suc rounds) h verdict deadline =
      query h >>= λ st. polled (verdict st) deadline (poll rounds h verdict deadline)

  unfoldable pub wait_for_state_change : H → ℕ → Io S (Unit {0})
  unfolding poll
  wait_for_state_change h previous s =
      poll poll_rounds h (left_state previous) (scm.now s + transition_timeout) s

  unfoldable pub wait_for_state : H → ℕ → Io S (Unit {0})
  unfolding poll
  wait_for_state h wanted s =
      poll poll_rounds h (at_state wanted) (scm.now s + transition_timeout) s

  unfoldable pub get_service_status : Text → Io S Status
  get_service_status name =
      call (scm.open_service name 4) >>= λ h. closing (scm.close_handle h) (query h)

  -- after a call that failed: the state that was to be left decides between an error and another round
  abbrev recovered : ℕ → Err → Result Status → Io S Bool
  recovered state cause (err e) = fail (wrapped cause)
  recovered state cause (ok current) =
      if current.current_state == state then fail (wrapped cause) else pure false

  abbrev settled : H → ℕ → Result (Unit {0}) → Io S Bool
  settled h state (err cause) = attempt (query h) >>= recovered state cause
  settled h state (ok u) = wait_for_state h running >> pure true

  -- one round of start on an open handle; true is a start that is finished
  unfoldable pub start_round : (observed access : ℕ) → H → Io S Bool
  unfolding query wait_for_state_change wait_for_state
  start_round observed access h = query h >>= λ status.
      if not (status.current_state == observed)
      then pure false
      else if access == 4
      then wait_for_state_change h status.current_state >> pure false
      else if status.current_state == stopped
      then attempt (call (scm.start_service h)) >>= settled h stopped
      else attempt (call (scm.control_continue h)) >>= settled h paused

  abbrev go_on : Bool → Io S (Unit {0}) → Io S (Unit {0})
  go_on true again = pure tt
  go_on false again = again

  abbrev start_with : Text → ℕ → Option ℕ → Io S (Unit {0}) → Io S (Unit {0})
  start_with name observed none again = fail service_state
  start_with name observed (some access) again =
      (call (scm.open_service name access) >>= λ h.
      closing (scm.close_handle h) (start_round observed access h))
      >>= λ finished. go_on finished again

  -- the loop of start; `left` rounds are left of 16
  unfoldable pub start_from : (left : ℕ) → Text → Io S (Unit {0})
  unfolding get_service_status start_round
  start_from zero name = fail service_unsettled
  start_from (suc left) name = get_service_status name >>= λ observed.
      if observed.current_state == running
      then pure tt
      else start_with name observed.current_state (access_for observed.current_state)
          (start_from left name)

  unfoldable pub start : Text → Io S (Unit {0})
  unfolding start_from
  start name = start_from 16 name

  abbrev ask_stop : Result (Unit {0}) → Io S (Unit {0})
  ask_stop (ok u) = pure tt
  ask_stop (err (os n)) = if n == 1062 then pure tt else fail (wrapped (os n))
  ask_stop (err e) = fail (wrapped e)

  -- the end of stop
  abbrev send_stop : H → Io S (Unit {0})
  send_stop h = attempt (call (scm.control_stop h)) >>= λ r. ask_stop r >> wait_for_state h stopped

  abbrev stopped_meanwhile : H → Err → Result Status → Io S (Unit {0})
  stopped_meanwhile h cause (err e) = fail cause
  stopped_meanwhile h cause (ok st) = if st.current_state == stopped then pure tt else fail cause

  abbrev waited : H → Result (Unit {0}) → Io S (Unit {0})
  waited h (ok u) = send_stop h
  waited h (err cause) = attempt (query h) >>= stopped_meanwhile h cause

  -- a service that is about to reach `wanted` is waited for; it may stop meanwhile
  abbrev settle_first : H → ℕ → Io S (Unit {0})
  settle_first h wanted = attempt (wait_for_state h wanted) >>= waited h

  unfoldable pub stop_round : H → Io S (Unit {0})
  unfolding query wait_for_state
  stop_round h = query h >>= λ status.
      if status.current_state == stopped
      then pure tt
      else if status.current_state == 3
      then wait_for_state h stopped
      else if status.current_state == 2
      then settle_first h running
      else if status.current_state == 6
      then settle_first h paused
      else if status.current_state == 5
      then settle_first h running
      else if status.current_state == running || status.current_state == paused
      then send_stop h
      else fail service_state

  unfoldable pub stop : Text → Io S (Unit {0})
  unfolding get_service_status stop_round
  stop name = get_service_status name >>= λ initial.
      if initial.current_state == stopped
      then pure tt
      else call (scm.open_service name 36) >>= λ h. closing (scm.close_handle h) (stop_round h)

  unfoldable pub get_start_mode : Text → Io S StartMode
  get_start_mode name = call (scm.open_service name 1) >>= λ h.
      closing (scm.close_handle h) (call (scm.query_config h))

  unfoldable pub set_start_mode : Text → StartMode → Io S (Unit {0})
  unfolding get_start_mode
  set_start_mode name mode = get_start_mode name >>= λ current.
      if same_mode current mode
      then pure tt
      else call (scm.open_service name 3) >>= λ h. closing (scm.close_handle h) (
          call (scm.query_config h) >>= λ recheck.
          if same_mode recheck mode then pure tt else call (λ s. wrap (scm.change_config h mode s)))
