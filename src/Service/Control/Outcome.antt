-- ===== src/Service/Control/Outcome.antt =====
-- What start and stop have seen when they return no error.
use winforge.Prelude.{ℕ, ◌≡◌, ◌||◌, some, ◌==◌}
use winforge.Text.{Text}
use winforge.Errors.{Err, Result, ok, err}
use winforge.Service.Io.{Io, call, attempt, ◌>>◌, Gives, >>=-Gives, closing-Gives, attempt-Gives}
use winforge.Service.Control.{
  query, wait_for_state, get_service_status, start, stop_round, stop, ask_stop, send_stop,
  stopped_meanwhile, waited, settle_first,
}
use winforge.Service.Scm.{Status, Scm, running, paused, stopped}
use winforge.Service.Control.Seen.{
  Found, Seen, Found-Seen, wait_for_state-Found, pure-state, if-Gives, query-Found,
  get_service_status-Seen,
}
use winforge.Service.Control.Starts.{start-Seen}

pub data Verb : Type 0 where
  start_it stop_it : Verb

-- the state that is asked for
abbrev pub target : Verb → ℕ
target start_it = running
target stop_it = stopped

abbrev pub act : {S H : Type 0} → Scm S H → Verb → Text → Io S (Unit {0})
act scm start_it = start scm
act scm stop_it = stop scm

module _ {S H : Type 0} (scm : Scm S H) where
  send_stop-Found : (h : H) (s s1 : S) → Gives (send_stop scm h) s tt s1 → Found scm h stopped s1
  send_stop-Found h s s1 e =
      let (r, s2, sent, rest) =
        >>=-Gives (attempt (call (scm.control_stop h)))
          (λ x. ask_stop scm x >> wait_for_state scm h stopped) s e in
      let (u, s3, fine, wait) =
        >>=-Gives (ask_stop scm r) (λ x. wait_for_state scm h stopped) s2 rest in
      wait_for_state-Found scm h stopped s3 s1 wait

  stopped_meanwhile-Found :
      (h : H) (cause : Err) (r : Result Status) (s s1 s2 : S)
      → query scm h s ≡ some (r, s1)
      → Gives (stopped_meanwhile scm h cause r) s1 tt s2
      → Found scm h stopped s2
  stopped_meanwhile-Found h cause (err e) s s1 s2 q g = cc
  stopped_meanwhile-Found h cause (ok st) s s1 s2 q g =
      if-Gives scm (st.current_state == stopped) _ _ (Found scm h stopped s2)
        (λ b g'. query-Found scm h stopped s s1 s2 st q b (pure-state scm g')) (λ b g'. cc) g

  waited-Found :
      (h : H) (r : Result (Unit {0})) (s s1 : S)
      → Gives (waited scm h r) s tt s1
      → Found scm h stopped s1
  waited-Found h (ok u) s s1 e = send_stop-Found h s s1 e
  waited-Found h (err cause) s s1 e =
      let (r, s2, q, rest) = >>=-Gives (attempt (query scm h)) _ s e in
      stopped_meanwhile-Found h cause r s s2 s1 (attempt-Gives (query scm h) s q) rest

  settle_first-Found :
      (h : H) (wanted : ℕ) (s s1 : S)
      → Gives (settle_first scm h wanted) s tt s1
      → Found scm h stopped s1
  settle_first-Found h wanted s s1 e =
      let (r, s2, w, rest) = >>=-Gives (attempt (wait_for_state scm h wanted)) (waited scm h) s e in
      waited-Found h r s2 s1 rest

  stop_round-Found : (h : H) (s s1 : S) → Gives (stop_round scm h) s tt s1 → Found scm h stopped s1
  unfolding stop_round
  stop_round-Found h s s1 e =
      let (st, s2, q, rest) = >>=-Gives (query scm h) _ s e in
      let c = st.current_state in
      if-Gives scm (c == stopped) _ _ (Found scm h stopped s1)
        (λ b g. query-Found scm h stopped s s2 s1 st q b (pure-state scm g))
        (λ b.
          if-Gives scm (c == 3) _ _ (Found scm h stopped s1)
            (λ b' g. wait_for_state-Found scm h stopped s2 s1 g)
            (λ b'.
              if-Gives scm (c == 2) _ _ (Found scm h stopped s1)
                (λ x g. settle_first-Found h running s2 s1 g)
                (λ x.
                  if-Gives scm (c == 6) _ _ (Found scm h stopped s1)
                    (λ y g. settle_first-Found h paused s2 s1 g)
                    (λ y.
                      if-Gives scm (c == 5) _ _ (Found scm h stopped s1)
                        (λ z g. settle_first-Found h running s2 s1 g)
                        (λ z.
                          if-Gives scm (c == running || c == paused) _ _ (Found scm h stopped s1)
                            (λ w g. send_stop-Found h s2 s1 g) (λ w g. cc))))))
        rest

  stop-Seen : (name : Text) (s s1 : S) → Gives (stop scm name) s tt s1 → Seen scm name stopped s1
  unfolding stop
  stop-Seen name s s1 e =
      let (st, s2, first, rest) = >>=-Gives (get_service_status scm name) _ s e in
      if-Gives scm (st.current_state == stopped) _ _ (Seen scm name stopped s1)
        (λ b g. get_service_status-Seen scm name stopped s s2 s1 st first b (pure-state scm g))
        (λ b g.
          let (h, s3, opened, body) = >>=-Gives (call (scm.open_service name 36)) _ s2 g in
          let (s4, round, shut) = closing-Gives (scm.close_handle h) (stop_round scm h) s3 body in
          Found-Seen scm name 36 h stopped s2 s3 s4 s1 opened (stop_round-Found h s3 s4 round) shut)
        rest

  -- Where start or stop returns no error, it has opened the service of the given name, and the last
  -- thing that it did, before it closed that handle, was a query of it that found the service running
  -- or stopped.
  pub verb-Seen :
      (verb : Verb) (name : Text) (s s1 : S)
      → Gives (act scm verb name) s tt s1
      → Seen scm name (target verb) s1
  verb-Seen start_it name s s1 e = start-Seen scm name s s1 e
  verb-Seen stop_it name s s1 e = stop-Seen name s s1 e
