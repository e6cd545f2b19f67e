-- ===== src/Service/Control/Seen.antt =====
-- What a query of a service has found.
use winforge.Prelude.{
  ℕ, zero, suc, ◌+◌, ◌≡◌, ◌≢◌, refl, ◌∙◌, arith, Bool, true, false, some, ltb, ◌==◌, ==_iff,
  if◌then◌else◌,
}
use winforge.Text.{Text}
use winforge.Errors.{Result, ok, err}
use winforge.Service.Io.{Io, pure, call, Gives, call-Gives, >>=-Gives, closing-Gives}
use winforge.Service.Control.{wrap, timed, polled, query, poll, wait_for_state, get_service_status}
use winforge.Service.Scm.{reached, keep_waiting, failed}
use winforge.Service.Scm.{Status, Scm, Verdict, poll_rounds, transition_timeout, at_state}

at_state-reached :
    (wanted : ℕ) (st : Status) → at_state wanted st ≡ reached → st.current_state ≡ wanted
at_state-reached wanted st h = ground arith

pub true≢false : true ≢ false
true≢false h = cc

module _ {S H : Type 0} (scm : Scm S H) where
  -- the last thing that happened is a query of `h` that found `wanted`
  pub record Found (h : H) (wanted : ℕ) (s1 : S) : Type 0 where
    pub before : S
    pub status : Status
    pub query_found : scm.query_status h before ≡ (ok status, s1)
    pub at_wanted : status.current_state ≡ wanted

  -- the same for a handle that the service of that name was opened with, and that is closed after it
  pub record Seen (name : Text) (wanted : ℕ) (s' : S) : Type 0 where
    pub handle : H
    pub access : ℕ
    pub opened_from : S
    pub opened_at : S
    pub opened : scm.open_service name access opened_from ≡ (ok handle, opened_at)
    pub before : S
    pub between : S
    pub status : Status
    pub query_found : scm.query_status handle before ≡ (ok status, between)
    pub at_wanted : status.current_state ≡ wanted
    pub then_closed : scm.close_handle handle between ≡ s'

  pub Found-Seen :
      (name : Text) (access : ℕ) (h : H) (wanted : ℕ) (s2 s3 s1 s' : S)
      → Gives (call (scm.open_service name access)) s2 h s3
      → Found h wanted s1
      → scm.close_handle h s1 ≡ s'
      → Seen name wanted s'
  Found-Seen name access h wanted s2 s3 s1 s' o f e = record {
    handle = h;
    access = access;
    opened_from = s2;
    opened_at = s3;
    opened = call-Gives (scm.open_service name access) s2 o;
    before = f.before;
    between = s1;
    status = f.status;
    query_found = f.query_found;
    at_wanted = f.at_wanted;
    then_closed = e;
  }

  wrap-some :
      (p : Result Status × S) {st : Status} {s1 : S}
      → some (wrap scm p) ≡ some (ok st, s1)
      → p ≡ (ok st, s1)
  wrap-some (ok st, s) h = cc
  wrap-some (err e, s) h = cc

  pub query-Gives :
      (h : H) (s : S) {st : Status} {s1 : S}
      → Gives (query scm h) s st s1
      → scm.query_status h s ≡ (ok st, s1)
  unfolding query
  query-Gives h s e = wrap-some (scm.query_status h s) e

  timed-Gives :
      (late : Bool) (again : Io S (Unit {0})) (s s1 : S)
      → Gives (timed scm late again) s tt s1
      → Gives again (scm.sleep s) tt s1
  timed-Gives true again s s1 h = cc
  timed-Gives false again s s1 h = h

  polled-Gives :
      (h : H) (wanted deadline : ℕ) (again : Io S (Unit {0})) (s0 s s1 : S) (st : Status)
      (v : Verdict)
      → scm.query_status h s0 ≡ (ok st, s)
      → at_state wanted st ≡ v
      → Gives (polled scm v deadline again) s tt s1
      → ((s2 : S) → Gives again s2 tt s1 → Found h wanted s1)
      → Found h wanted s1
  polled-Gives h wanted deadline again s0 s s1 st reached q r e k = record {
    before = s0;
    status = st;
    query_found = cc;
    at_wanted = at_state-reached wanted st r;
  }
  polled-Gives h wanted deadline again s0 s s1 st (failed x) q r e k = cc
  polled-Gives h wanted deadline again s0 s s1 st keep_waiting q r e k =
      k (scm.sleep s) (timed-Gives (ltb deadline (scm.now s)) again s s1 e)

  poll-Found :
      (rounds : ℕ) (h : H) (wanted deadline : ℕ) (s s1 : S)
      → Gives (poll scm rounds h (at_state wanted) deadline) s tt s1
      → Found h wanted s1
  unfolding poll
  poll-Found zero h wanted deadline s s1 e = cc
  poll-Found (suc rounds) h wanted deadline s s1 e =
      let (st, s2, q, rest) = >>=-Gives (query scm h) _ s e in
      polled-Gives h wanted deadline (poll scm rounds h (at_state wanted) deadline) s s2 s1 st
        (at_state wanted st) (query-Gives h s q) refl rest
        (λ s3. poll-Found rounds h wanted deadline s3 s1)

  pub wait_for_state-Found :
      (h : H) (wanted : ℕ) (s s1 : S)
      → Gives (wait_for_state scm h wanted) s tt s1
      → Found h wanted s1
  unfolding wait_for_state
  wait_for_state-Found h wanted s s1 =
      poll-Found poll_rounds h wanted (scm.now s + transition_timeout) s s1

  pub pure-state : {A : Type 0} {a b : A} {s s1 : S} → Gives (pure a) s b s1 → s ≡ s1
  pure-state h = cc

  pub pure-value : {A : Type 0} {a b : A} {s s1 : S} → Gives (pure a) s b s1 → a ≡ b
  pure-value h = cc

  pub if-Gives :
      {A : Type 0} (b : Bool) (m k : Io S A) {s : S} {a : A} {s1 : S} (P : Type 0)
      → (b ≡ true → Gives m s a s1 → P)
      → (b ≡ false → Gives k s a s1 → P)
      → Gives (if b then m else k) s a s1
      → P
  if-Gives true m k P yes' no' e = yes' refl e
  if-Gives false m k P yes' no' e = no' refl e

  -- a query that found the state, and nothing after it
  pub query-Found :
      (h : H) (wanted : ℕ) (s s1 s2 : S) (st : Status)
      → Gives (query scm h) s st s1
      → (st.current_state == wanted) ≡ true
      → s1 ≡ s2
      → Found h wanted s2
  query-Found h wanted s s1 s2 st q e same = rw (← same) (record {
    before = s;
    status = st;
    query_found = query-Gives h s q;
    at_wanted = (==_iff st.current_state wanted).0 e;
  })

  pub get_service_status-Seen :
      (name : Text) (wanted : ℕ) (s s1 s2 : S) (st : Status)
      → Gives (get_service_status scm name) s st s1
      → (st.current_state == wanted) ≡ true
      → s1 ≡ s2
      → Seen name wanted s2
  unfolding get_service_status
  get_service_status-Seen name wanted s s1 s2 st e eq same =
      let (h, s3, opened, rest) = >>=-Gives (call (scm.open_service name 4)) _ s e in
      let (s4, q, shut) = closing-Gives (scm.close_handle h) (query scm h) s3 rest in
      Found-Seen name 4 h wanted s s3 s4 s2 opened (query-Found h wanted s3 s4 s4 st q eq refl)
        (shut ∙ same)
