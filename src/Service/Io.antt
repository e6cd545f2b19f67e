-- ===== src/Service/Io.antt =====
-- Programs that call the operating system: a program reads and changes a state and returns a value or
-- an error. `none` is a loop that has used up its rounds.
use winforge.Prelude.{◌≡◌, refl, Option, none, some}
use winforge.Errors.{Err, Result, ok, err}

abbrev pub Io : Type 0 → Type 0 → Type 0
Io S A = S → Option (Result A × S)

module _ {S : Type 0} where
  abbrev pub pure : {A : Type 0} → A → Io S A
  pure a s = some (ok a, s)

  abbrev pub fail : {A : Type 0} → Err → Io S A
  fail e s = some (err e, s)

  abbrev pub after : {A B : Type 0} → Option (Result A × S) → (A → Io S B) → Option (Result B × S)
  after none next = none
  after (some (err e, s)) next = some (err e, s)
  after (some (ok a, s)) next = next a s

  infixl 5 ◌>>=◌ ◌>>◌
  abbrev pub ◌>>=◌ : {A B : Type 0} → Io S A → (A → Io S B) → Io S B
  (m >>= next) s = after (m s) next

  abbrev pub ◌>>◌ : {A B : Type 0} → Io S A → Io S B → Io S B
  m >> k = m >>= λ a. k

  abbrev caught : {A : Type 0} → Option (Result A × S) → Option (Result (Result A) × S)
  caught none = none
  caught (some (r, s)) = some (ok r, s)

  -- the result as a value, for a caller that looks at the error
  abbrev pub attempt : {A : Type 0} → Io S A → Io S (Result A)
  attempt m s = caught (m s)

  -- one call of the operating system
  abbrev pub call : {A : Type 0} → (S → Result A × S) → Io S A
  call f s = some (f s)

  abbrev closed : {A : Type 0} → (S → S) → Option (Result A × S) → Option (Result A × S)
  closed close none = none
  closed close (some (r, s)) = some (r, close s)

  -- a body after which a handle is closed, whatever it returns
  abbrev pub closing : {A : Type 0} → (S → S) → Io S A → Io S A
  closing close m s = closed close (m s)

  -- The program returns from every state.
  abbrev pub Returns : {A : Type 0} → Io S A → Type 0
  Returns {A} m = (s : S) → (r : Result A) × (s' : S) × (m s ≡ some (r, s'))

  after-some :
      {A B : Type 0} (r : Result A) (s : S) (next : A → Io S B)
      → ((a : A) → Returns (next a))
      → (r' : Result B) × (s' : S) × (after (some (r, s)) next ≡ some (r', s'))
  after-some (err e) s next h = (err e, s, refl)
  after-some (ok a) s next h = h a s

  pub >>=-Returns :
      {A B : Type 0} (m : Io S A) (next : A → Io S B)
      → Returns m
      → ((a : A) → Returns (next a))
      → Returns (m >>= next)
  >>=-Returns m next h k s =
      let (r, s', e) = h s in let (r', s'', e') = after-some r s' next k in (r', s'', rw e e')

  pub attempt-Returns : {A : Type 0} (m : Io S A) → Returns m → Returns (attempt m)
  attempt-Returns m h s = let (r, s', e) = h s in (ok r, s', rw e refl)

  pub closing-Returns :
      {A : Type 0} (close : S → S) (m : Io S A) → Returns m → Returns (closing close m)
  closing-Returns close m h s = let (r, s', e) = h s in (r, close s', rw e refl)

  pub call-Returns : {A : Type 0} (f : S → Result A × S) → Returns (call f)
  call-Returns f s = ((f s).0, (f s).1, refl)

  pub pure-Returns : {A : Type 0} (a : A) → Returns (pure a)
  pure-Returns a s = (ok a, s, refl)

  pub fail-Returns : {A : Type 0} (e : Err) → Returns (fail {A = A} e)
  fail-Returns e s = (err e, s, refl)

  -- The program that returned a value after `s`, ended in `s'`.
  abbrev pub Gives : {A : Type 0} → Io S A → S → A → S → Type 0
  Gives m s a s' = m s ≡ some (ok a, s')

  pub call-Gives :
      {A : Type 0} (f : S → Result A × S) (s : S) {a : A} {s' : S}
      → Gives (call f) s a s'
      → f s ≡ (ok a, s')
  call-Gives f s h = cc

  after-Gives :
      {A B : Type 0} (o : Option (Result A × S)) (next : A → Io S B) {b : B} {s'' : S}
      → after o next ≡ some (ok b, s'')
      → (a : A) × (s' : S) × (o ≡ some (ok a, s')) × (next a s' ≡ some (ok b, s''))
  after-Gives none next h = cc
  after-Gives (some (err e, s)) next h = cc
  after-Gives (some (ok a, s)) next h = (a, s, refl, h)

  pub >>=-Gives :
      {A B : Type 0} (m : Io S A) (next : A → Io S B) (s : S) {b : B} {s'' : S}
      → Gives (m >>= next) s b s''
      → (a : A) × (s' : S) × Gives m s a s' × Gives (next a) s' b s''
  >>=-Gives m next s h = after-Gives (m s) next h

  closed-Gives :
      {A : Type 0} (close : S → S) (o : Option (Result A × S)) {a : A} {s' : S}
      → closed close o ≡ some (ok a, s')
      → (s1 : S) × (o ≡ some (ok a, s1)) × (close s1 ≡ s')
  closed-Gives close none h = cc
  closed-Gives close (some (err e, s)) h = cc
  closed-Gives close (some (ok a, s)) h = (s, cc, cc)

  pub closing-Gives :
      {A : Type 0} (close : S → S) (m : Io S A) (s : S) {a : A} {s' : S}
      → Gives (closing close m) s a s'
      → (s1 : S) × Gives m s a s1 × (close s1 ≡ s')
  closing-Gives close m s h = closed-Gives close (m s) h

  caught-Gives :
      {A : Type 0} (o : Option (Result A × S)) {r : Result A} {s' : S}
      → caught o ≡ some (ok r, s')
      → o ≡ some (r, s')
  caught-Gives none h = cc
  caught-Gives (some (r, s)) h = cc

  pub attempt-Gives :
      {A : Type 0} (m : Io S A) (s : S) {r : Result A} {s' : S}
      → Gives (attempt m) s r s'
      → m s ≡ some (r, s')
  attempt-Gives m s h = caught-Gives (m s) h
