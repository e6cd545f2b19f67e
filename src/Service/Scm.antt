-- ===== src/Service/Scm.antt =====
-- internal/service/service_windows.go: the Service Control Manager, and the tests of a status.
-- Times are in milliseconds.
use winforge.Prelude.{ℕ, Bool, not, ◌&&◌, ◌||◌, Option, none, some, if◌then◌else◌, ◌==◌}
use winforge.Text.{Text}
use winforge.Errors.{
  Err, Result, service_stopped_early, service_specific_error, service_win32_error,
}
use winforge.Service.{StartMode, start_auto, start_manual, start_disabled, other_mode}

-- the fields of SERVICE_STATUS_PROCESS that are looked at
pub record Status : Type 0 where
  pub current_state : ℕ
  pub exit_code : ℕ
  pub specific_exit_code : ℕ

abbrev pub stopped : ℕ
stopped = 1

abbrev pub running : ℕ
running = 4

abbrev pub paused : ℕ
paused = 7

-- START_PENDING, STOP_PENDING, CONTINUE_PENDING and PAUSE_PENDING
abbrev pub is_pending : ℕ → Bool
is_pending st = st == 2 || (st == 3 || (st == 5 || st == 6))

-- The manager: a state `S` in which services go on by themselves, handles `H`, and the calls.
-- ERROR_SERVICE_NOT_ACTIVE is `os 1062`.
pub record Scm (S H : Type 0) : Type 0 where
  pub open_service : Text → ℕ → S → Result H × S
  pub close_handle : H → S → S
  pub query_status : H → S → Result Status × S
  pub query_config : H → S → Result StartMode × S
  pub change_config : H → StartMode → S → Result (Unit {0}) × S
  pub start_service : H → S → Result (Unit {0}) × S
  pub control_continue : H → S → Result (Unit {0}) × S
  pub control_stop : H → S → Result (Unit {0}) × S
  pub now : S → ℕ
  pub sleep : S → S

abbrev pub mode_code : StartMode → ℕ
mode_code start_auto = 2
mode_code start_manual = 3
mode_code start_disabled = 4
mode_code (other_mode n) = n

-- serviceTransitionTimeout
abbrev pub transition_timeout : ℕ
transition_timeout = 120000

-- the rounds of a polling loop, more than the timeout has room for
abbrev pub poll_rounds : ℕ
poll_rounds = 1202

-- what a polling loop makes of a status: it ends with an error or without, or goes on
pub data Verdict : Type 0 where
  reached keep_waiting : Verdict
  failed : Err → Verdict

-- the loop body of waitForStateChange
abbrev pub left_state : ℕ → Status → Verdict
left_state previous st = if st.current_state == previous then keep_waiting else reached

-- the loop body of waitForState
abbrev pub at_state : ℕ → Status → Verdict
at_state wanted st =
    if st.current_state == wanted
    then reached
    else if not (wanted == stopped) && st.current_state == stopped
    then (if st.exit_code == 1066 && not (st.specific_exit_code == 0)
        then failed (service_specific_error st.specific_exit_code)
        else if not (st.exit_code == 0)
        then failed (service_win32_error st.exit_code)
        else failed service_stopped_early)
    else keep_waiting

-- A start mode that the configuration does not need to change to.
abbrev pub same_mode : StartMode → StartMode → Bool
same_mode m n = mode_code m == mode_code n

-- a switch of start over the observed state: the access rights that it needs
abbrev pub access_for : ℕ → Option ℕ
access_for st =
    if st == stopped
    then some 20
    else if st == paused
    then some 68
    else if is_pending st
    then some 4
    else none
