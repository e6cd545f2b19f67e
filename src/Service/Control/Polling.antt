-- ===== src/Service/Control/Polling.antt =====
-- The polling loops, start and stop come to an end.
use winforge.Prelude.{
  ℕ, zero, suc, ◌+◌, ◌*◌, ◌≤◌, ◌<◌, ◌≡◌, refl, arith, Bool, true, false, not, ◌||◌, Option, none,
  some, ltb, ◌==◌, if◌then◌else◌,
}
use winforge.Text.{Text}
use winforge.Errors.{
  Err, Result, ok, err, os, wrapped, service_timeout, service_state, service_unsettled,
}
use winforge.Service.Io.{
  Io, after, ◌>>=◌, Returns, >>=-Returns, attempt-Returns, closing-Returns, call-Returns,
  pure-Returns, fail-Returns,
}
use winforge.Service.Control.{
  query, wrap, timed, polled, poll, wait_for_state, wait_for_state_change, get_service_status,
  start_round, start_from, start, stop_round, stop, recovered, settled, go_on, start_with, ask_stop,
  send_stop, stopped_meanwhile, waited, settle_first,
}
use winforge.Service.Scm.{reached, keep_waiting, failed}
use winforge.Service.Scm.{Status, Scm, Verdict, running, paused, stopped, access_for}

-- The clock does not run backwards over a query, and a sleep takes at least 100 ms.
pub record ClockLaws {S H : Type 0} (scm : Scm S H) : Type 0 where
  pub over_query : (h : H) (s : S) → scm.now s ≤ scm.now (scm.query_status h s).1
  pub over_sleep : (s : S) → scm.now s + 100 ≤ scm.now (scm.sleep s)

early-le : (deadline t : ℕ) → ltb deadline t ≡ false → t ≤ deadline
early-le deadline t h = ground arith

module _ {S H : Type 0} (scm : Scm S H) (clock : ClockLaws scm) where
  -- the run that ends with some result
  abbrev Ends : Io S (Unit {0}) → S → Type 0
  Ends m s = (r : Result (Unit {0})) × (s' : S) × (m s ≡ some (r, s'))

  timed-Ends :
      (late : Bool) (again : Io S (Unit {0})) (s : S)
      → (late ≡ false → Ends again (scm.sleep s))
      → Ends (timed scm late again) s
  timed-Ends true again s k = (err service_timeout, s, refl)
  timed-Ends false again s k = k refl

  polled-Ends :
      (v : Verdict) (deadline : ℕ) (again : Io S (Unit {0})) (s : S)
      → (scm.now s ≤ deadline → Ends again (scm.sleep s))
      → Ends (polled scm v deadline again) s
  polled-Ends reached deadline again s k = (ok tt, s, refl)
  polled-Ends (failed e) deadline again s k = (err e, s, refl)
  polled-Ends keep_waiting deadline again s k =
      timed-Ends (ltb deadline (scm.now s)) again s
        (λ early. k (early-le deadline (scm.now s) early))

  wrap-Ends :
      (p : Result Status × S) (next : Status → Io S (Unit {0}))
      → ((st : Status) → Ends (next st) p.1)
      → (r : Result (Unit {0})) × (s' : S) × (after (some (wrap scm p)) next ≡ some (r, s'))
  wrap-Ends (ok st, s) next k = k st
  wrap-Ends (err e, s) next k = (err (wrapped e), s, refl)

  query-Ends :
      (h : H) (next : Status → Io S (Unit {0})) (s : S)
      → ((st : Status) (s1 : S) → scm.now s ≤ scm.now s1 → Ends (next st) s1)
      → Ends (query scm h >>= next) s
  unfolding query
  query-Ends h next s k =
      wrap-Ends (scm.query_status h s) next
        (λ st. k st (scm.query_status h s).1 (clock.over_query h s))

  poll-Ends :
      (rounds : ℕ) (h : H) (verdict : Status → Verdict) (deadline : ℕ) (s : S)
      → deadline < scm.now s + rounds * 100
      → Ends (poll scm (suc rounds) h verdict deadline) s
  unfolding poll
  poll-Ends zero h verdict deadline s k =
      query-Ends h _ s
        (λ st s1 later. polled-Ends (verdict st) deadline _ s1 (λ early. absurd (omega arith)))
  poll-Ends (suc rounds) h verdict deadline s k = query-Ends h _ s (λ st s1 later.
      polled-Ends (verdict st) deadline _ s1 (λ early.
        poll-Ends rounds h verdict deadline (scm.sleep s1) (omega (arith, clock.over_sleep s1))))

  wait_for_state-Returns : (h : H) (wanted : ℕ) → Returns (wait_for_state scm h wanted)
  unfolding wait_for_state
  wait_for_state-Returns h wanted s = poll-Ends 1201 h _ _ s (omega arith)

  wait_for_state_change-Returns :
      (h : H) (previous : ℕ) → Returns (wait_for_state_change scm h previous)
  unfolding wait_for_state_change
  wait_for_state_change-Returns h previous s = poll-Ends 1201 h _ _ s (omega arith)

  query-Returns : (h : H) → Returns (query scm h)
  unfolding query
  query-Returns h = call-Returns _

  if-Returns :
      {A : Type 0} (b : Bool) {m k : Io S A} → Returns m → Returns k → Returns (if b then m else k)
  if-Returns true h h' = h
  if-Returns false h h' = h'

  get_service_status-Returns : (name : Text) → Returns (get_service_status scm name)
  unfolding get_service_status
  get_service_status-Returns name =
      >>=-Returns _ _ (call-Returns _) (λ h. closing-Returns _ _ (query-Returns h))

  recovered-Returns :
      (state : ℕ) (cause : Err) (r : Result Status) → Returns (recovered scm state cause r)
  recovered-Returns state cause (err e) = fail-Returns _
  recovered-Returns state cause (ok st) =
      if-Returns (st.current_state == state) (fail-Returns (wrapped cause)) (pure-Returns false)

  settled-Returns : (h : H) (state : ℕ) (r : Result (Unit {0})) → Returns (settled scm h state r)
  settled-Returns h state (err cause) =
      >>=-Returns _ _ (attempt-Returns _ (query-Returns h)) (recovered-Returns state cause)
  settled-Returns h state (ok u) =
      >>=-Returns _ _ (wait_for_state-Returns h running) (λ v. pure-Returns true)

  start_round-Returns : (observed access : ℕ) (h : H) → Returns (start_round scm observed access h)
  unfolding start_round
  start_round-Returns observed access h = >>=-Returns _ _ (query-Returns h) (λ st.
      if-Returns (not (st.current_state == observed)) (pure-Returns false) (
        if-Returns (access == 4)
          (>>=-Returns _ _ (wait_for_state_change-Returns h st.current_state)
            (λ u. pure-Returns false))
          (if-Returns (st.current_state == stopped)
            (>>=-Returns _ _ (attempt-Returns _ (call-Returns _)) (settled-Returns h stopped))
            (>>=-Returns _ _ (attempt-Returns _ (call-Returns _)) (settled-Returns h paused)))))

  go_on-Returns : (b : Bool) (again : Io S (Unit {0})) → Returns again → Returns (go_on scm b again)
  go_on-Returns true again h = pure-Returns tt
  go_on-Returns false again h = h

  start_with-Returns :
      (name : Text) (observed : ℕ) (access : Option ℕ) (again : Io S (Unit {0}))
      → Returns again
      → Returns (start_with scm name observed access again)
  start_with-Returns name observed none again k = fail-Returns service_state
  start_with-Returns name observed (some access) again k =
      >>=-Returns _ _
        (>>=-Returns _ _ (call-Returns _)
          (λ h. closing-Returns _ _ (start_round-Returns observed access h)))
        (λ b. go_on-Returns b again k)

  start_from-Returns : (left : ℕ) (name : Text) → Returns (start_from scm left name)
  unfolding start_from
  start_from-Returns zero name = fail-Returns service_unsettled
  start_from-Returns (suc left) name = >>=-Returns _ _ (get_service_status-Returns name) (λ st.
      if-Returns (st.current_state == running) (pure-Returns tt) (
        start_with-Returns name st.current_state (access_for st.current_state)
          (start_from scm left name) (start_from-Returns left name)))

  ask_stop-Returns : (r : Result (Unit {0})) → Returns {S = S} (ask_stop scm r)
  ask_stop-Returns (ok u) = pure-Returns tt
  ask_stop-Returns (err (os n)) =
      if-Returns (n == 1062) (pure-Returns tt) (fail-Returns (wrapped (os n)))
  ask_stop-Returns (err e) = fail-Returns _

  send_stop-Returns : (h : H) → Returns (send_stop scm h)
  send_stop-Returns h =
      >>=-Returns _ _ (attempt-Returns _ (call-Returns (scm.control_stop h)))
        (λ r. >>=-Returns _ _ (ask_stop-Returns r) (λ u. wait_for_state-Returns h stopped))

  stopped_meanwhile-Returns :
      (h : H) (cause : Err) (r : Result Status) → Returns (stopped_meanwhile scm h cause r)
  stopped_meanwhile-Returns h cause (err e) = fail-Returns cause
  stopped_meanwhile-Returns h cause (ok st) =
      if-Returns (st.current_state == stopped) (pure-Returns tt) (fail-Returns cause)

  waited-Returns : (h : H) (r : Result (Unit {0})) → Returns (waited scm h r)
  waited-Returns h (ok u) = send_stop-Returns h
  waited-Returns h (err cause) =
      >>=-Returns _ _ (attempt-Returns _ (query-Returns h)) (stopped_meanwhile-Returns h cause)

  settle_first-Returns : (h : H) (wanted : ℕ) → Returns (settle_first scm h wanted)
  settle_first-Returns h wanted =
      >>=-Returns _ _ (attempt-Returns _ (wait_for_state-Returns h wanted)) (waited-Returns h)

  stop_round-Returns : (h : H) → Returns (stop_round scm h)
  unfolding stop_round
  stop_round-Returns h = >>=-Returns _ _ (query-Returns h) (λ st.
      let c = st.current_state in
      if-Returns (c == stopped) (pure-Returns tt) (
        if-Returns (c == 3) (wait_for_state-Returns h stopped) (
          if-Returns (c == 2) (settle_first-Returns h running) (
            if-Returns (c == 6) (settle_first-Returns h paused) (
              if-Returns (c == 5) (settle_first-Returns h running) (
                if-Returns (c == running || c == paused) (send_stop-Returns h)
                  (fail-Returns service_state)))))))

  stop-Returns : (name : Text) → Returns (stop scm name)
  unfolding stop
  stop-Returns name = >>=-Returns _ _ (get_service_status-Returns name) (λ st.
      if-Returns (st.current_state == stopped) (pure-Returns tt)
        (>>=-Returns _ _ (call-Returns _) (λ h. closing-Returns _ _ (stop_round-Returns h))))

  -- For a clock that does not run backwards over a query, and that a sleep moves by at least 100 ms:
  -- start and stop return, with an error or without, however the service behaves. Their polling loops
  -- end by the deadline, within the rounds given to them.
  pub start_stop-Returns :
      (name : Text) (s : S)
      → ((r : Result (Unit {0})) × (s' : S) × (start scm name s ≡ some (r, s')))
        × ((r : Result (Unit {0})) × (s' : S) × (stop scm name s ≡ some (r, s')))
  unfolding start
  start_stop-Returns name s = (start_from-Returns 16 name s, stop-Returns name s)
