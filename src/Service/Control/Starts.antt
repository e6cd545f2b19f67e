-- ===== src/Service/Control/Starts.antt =====
-- What start has seen.
use winforge.Prelude.{ℕ, zero, suc, ◌≡◌, sym, ◌∙◌, Bool, true, false, not, Option, none, some, ◌==◌}
use winforge.Text.{Text}
use winforge.Errors.{Err, Result, ok, err}
use winforge.Service.Io.{Io, call, attempt, closing, ◌>>=◌, Gives, >>=-Gives, closing-Gives}
use winforge.Service.Control.{
  query, wait_for_state, wait_for_state_change, get_service_status, start_round, start_from, start,
  recovered, settled, go_on, start_with,
}
use winforge.Service.Scm.{Status, Scm, running, paused, stopped, access_for}
use winforge.Service.Control.Seen.{
  true≢false, Found, Seen, Found-Seen, wait_for_state-Found, pure-state, pure-value, if-Gives,
  get_service_status-Seen,
}

module _ {S H : Type 0} (scm : Scm S H) where
  recovered-false :
      (state : ℕ) (cause : Err) (r : Result Status) (s s1 : S)
      → Gives (recovered scm state cause r) s true s1
      → ⊥
  recovered-false state cause (err e) s s1 h = cc
  recovered-false state cause (ok st) s s1 h =
      if-Gives scm (st.current_state == state) _ _ ⊥ (λ e g. cc)
        (λ e g. true≢false (sym (pure-value scm g))) h

  settled-Found :
      (h : H) (state : ℕ) (r : Result (Unit {0})) (s s1 : S)
      → Gives (settled scm h state r) s true s1
      → Found scm h running s1
  settled-Found h state (err cause) s s1 e =
      let (r, s2, q, rest) = >>=-Gives (attempt (query scm h)) _ s e in
      absurd (recovered-false state cause r s2 s1 rest)
  settled-Found h state (ok u) s s1 e =
      let (v, s2, w, rest) = >>=-Gives (wait_for_state scm h running) _ s e in
      rw (← pure-state scm rest) (wait_for_state-Found scm h running s s2 w)

  start_round-Found :
      (observed access : ℕ) (h : H) (s s1 : S)
      → Gives (start_round scm observed access h) s true s1
      → Found scm h running s1
  unfolding start_round
  start_round-Found observed access h s s1 e =
      let (st, s2, q, rest) = >>=-Gives (query scm h) _ s e in
      if-Gives scm (not (st.current_state == observed)) _ _ (Found scm h running s1)
        (λ b g. absurd (true≢false (sym (pure-value scm g))))
        (λ b.
          if-Gives scm (access == 4) _ _ (Found scm h running s1)
            (λ b' g. absurd (
              true≢false (
                sym (
                  pure-value scm
                    ((>>=-Gives (wait_for_state_change scm h st.current_state) _ s2 g).3)))))
            (λ b'.
              if-Gives scm (st.current_state == stopped) _ _ (Found scm h running s1)
                (λ b'' g.
                  let (r, s3, w, rest') =
                    >>=-Gives (attempt (call (scm.start_service h))) (settled scm h stopped) s2 g in
                  settled-Found h stopped r s3 s1 rest')
                (λ b'' g.
                  let (r, s3, w, rest') =
                    >>=-Gives (attempt (call (scm.control_continue h))) (settled scm h paused) s2
                      g in
                  settled-Found h paused r s3 s1 rest')))
        rest

  start_with-Seen :
      (name : Text) (observed : ℕ) (access : Option ℕ) (again : Io S (Unit {0})) (s s1 : S)
      → ((s2 : S) → Gives again s2 tt s1 → Seen scm name running s1)
      → Gives (start_with scm name observed access again) s tt s1
      → Seen scm name running s1
  start_with-Seen name observed none again s s1 k e = cc
  start_with-Seen name observed (some access) again s s1 k e =
      let one = call (scm.open_service name access) >>= λ h.
      closing (scm.close_handle h) (start_round scm observed access h) in
      let (finished, s2, first, rest) = >>=-Gives one _ s e in
      let (h, s3, opened, body) = >>=-Gives (call (scm.open_service name access)) _ s first in
      let (s4, round, shut) =
        closing-Gives (scm.close_handle h) (start_round scm observed access h) s3 body in
      ended finished h s3 s4 s2 s opened round shut rest
    where
      ended :
          (finished : Bool) (h : H) (s3 s4 s2 s : S)
          → Gives (call (scm.open_service name access)) s h s3
          → Gives (start_round scm observed access h) s3 finished s4
          → scm.close_handle h s4 ≡ s2
          → Gives (go_on scm finished again) s2 tt s1
          → Seen scm name running s1
      ended true h s3 s4 s2 s opened round shut rest =
          Found-Seen scm name access h running s s3 s4 s1 opened
            (start_round-Found observed access h s3 s4 round) (shut ∙ pure-state scm rest)
      ended false h s3 s4 s2 s opened round shut rest = k s2 rest

  start_from-Seen :
      (left : ℕ) (name : Text) (s s1 : S)
      → Gives (start_from scm left name) s tt s1
      → Seen scm name running s1
  unfolding start_from
  start_from-Seen zero name s s1 e = cc
  start_from-Seen (suc left) name s s1 e =
      let (st, s2, first, rest) = >>=-Gives (get_service_status scm name) _ s e in
      if-Gives scm (st.current_state == running) _ _ (Seen scm name running s1)
        (λ b g. get_service_status-Seen scm name running s s2 s1 st first b (pure-state scm g))
        (λ b g.
          start_with-Seen name st.current_state (access_for st.current_state)
            (start_from scm left name) s2 s1 (λ s3. start_from-Seen left name s3 s1) g)
        rest

  pub start-Seen :
      (name : Text) (s s1 : S) → Gives (start scm name) s tt s1 → Seen scm name running s1
  unfolding start
  start-Seen name s s1 = start_from-Seen 16 name s s1
