-- ===== src/Tweak/Verify/Settings.antt =====
-- An operation on another setting that succeeds leaves it as IsApplied looks for it.
use winforge.Prelude.{
  ℕ, Bool, true, false, not, ◌&&◌, Option, none, List, [], ◌∷◌, ◌≡◌, refl, arith, all, any, ◌==◌,
}
use winforge.Text.{Text, CaseTable, equal_fold}
use winforge.Decimal.{format_uint}
use winforge.Errors.{Err, Result, ok, err, ◌>>=◌}
use winforge.Config.{
  Operation, service_start_mode, power_scheme, power_hibernate, power_processor_state, netbios,
}
use winforge.Config.Values.{
  ProcessorState, string_value, bool_value, processor_state_value, netbios_value,
}
use winforge.Config.Validate.Accepted.{>>=-ok}
use winforge.Service.{StartMode, mode_string, parse_start_mode}
use winforge.Power
use winforge.Audit.Entry.{start_mode, scheme, hibernate}
use winforge.Tweak.Executor.{Executor}
use winforge.Tweak.Snapshot.{format_netbios_options}
use winforge.Tweak.Effect.{Effect, new_effect, effect_error, or_effect, commit}
use winforge.Tweak.Apply.{
  delete_key, set_hibernate, set_target, set_netbios, set_start_mode, set_scheme,
  set_processor_state,
}
use winforge.Tweak.Capture.{captured, or_current, bool_text, differs, normalized_service_start_mode}
use winforge.Tweak.Verify.{holds, meets, matches_as}
use winforge.Tweak.Laws.{SettingLaws, Makes}

module _ {S : Type 0} (op : Operation) where
  pub decoded_holds {ℓ} :
      {A : Type ℓ} (r : Result A) (test : A → S → Bool) (rest : A → S → Effect × S) (s : S)
      → ((a : A) → (rest a s).0.error ≡ none → test a (rest a s).1 ≡ true)
      → (or_effect (new_effect op) r rest s).0.error ≡ none
      → holds r (λ a. test a (or_effect (new_effect op) r rest s).1) ≡ true
  unfolding effect_error
  decoded_holds (ok a) test rest s k h = k a h
  decoded_holds (err e) test rest s k h = cc

  -- the same where the rest relies on the value that was decoded
  decoded_ok_holds {ℓ} :
      {A : Type ℓ} (r : Result A) (test : A → S → Bool) (rest : A → S → Effect × S) (s : S)
      → ((a : A) → r ≡ ok a → (rest a s).0.error ≡ none → test a (rest a s).1 ≡ true)
      → (or_effect (new_effect op) r rest s).0.error ≡ none
      → holds r (λ a. test a (or_effect (new_effect op) r rest s).1) ≡ true
  unfolding effect_error
  decoded_ok_holds (ok a) test rest s k h = k a refl h
  decoded_ok_holds (err e) test rest s k h = cc

-- A start mode is passed on in the words that it is read in.
normalized_service_start_mode-mode_string :
    ⦃c : CaseTable⦄ (op : Operation) (text : Text)
    → normalized_service_start_mode op ≡ ok text
    → (m : StartMode) × (text ≡ mode_string m)
unfolding normalized_service_start_mode
normalized_service_start_mode-mode_string op text h =
    let (value, e, rest) = >>=-ok (string_value op) _ h in
    let (m, k, same) = >>=-ok (parse_start_mode value) _ rest in (m, cc)

all-any :
    (v : ℕ) (m : List (Text × ℕ))
    → any (λ entry. not (entry.1 == v)) m ≡ false
    → all (λ entry. entry.1 == v) m ≡ true
all-any v [] h = refl
all-any v (entry ∷ m) h = ground (arith, all-any v m)

module _ {S : Type 0} where
  commit-holds {ℓ} :
      {A : Type ℓ} (test : A → Bool) (read : S → Result A) (eff : Effect)
      (change : S → Option Err × S) (s : S)
      → Makes test read (change s)
      → (eff.changed ≡ false → holds (read s) test ≡ true)
      → (commit false eff change s).0.error ≡ none
      → holds (read (commit false eff change s).1) test ≡ true
  unfolding commit
  commit-holds test read eff change s w k h = ground arith

  -- the same behind the read of the current setting
  read_commit-holds {ℓ} :
      {A : Type ℓ} (op : Operation) (test : A → Bool) (read : S → Result A) (plan : A → Effect)
      (change : S → Option Err × S) (s : S) (q : Result A)
      → read s ≡ q
      → Makes test read (change s)
      → ((a : A) → (plan a).changed ≡ false → test a ≡ true)
      → (or_effect (new_effect op) q (λ a. commit false (plan a) change) s).0.error ≡ none
      → holds (read (or_effect (new_effect op) q (λ a. commit false (plan a) change) s).1) test
        ≡ true
  unfolding effect_error
  read_commit-holds op test read plan change s (ok a) e w k =
      commit-holds test read (plan a) change s w (λ c. rw e (k a c))
  read_commit-holds op test read plan change s (err cause) e w k = λ h. cc

module _ ⦃c : CaseTable⦄ {S : Type 0} (E : Executor S) (laws : SettingLaws E) where
  pub key_reached :
      (op : Operation) (s : S)
      → (delete_key E false op s).0.error ≡ none
      → holds (E.registry_key_exists op.hive op.path (delete_key E false op s).1) not ≡ true
  unfolding delete_key
  key_reached op s =
      read_commit-holds op not (E.registry_key_exists op.hive op.path)
        (λ exists. record (new_effect op) { changed = exists })
        (E.registry_delete_key_tree op.hive op.path) s _ refl
        (laws.delete_key_tree op.hive op.path s) (λ a k. ground arith)

  -- the operations whose value is decoded first
  pub start_mode_reached :
      (op : Operation) (s : S)
      → (set_start_mode E false op s).0.error ≡ none
      → matches_as E service_start_mode op (set_start_mode E false op s).1 ≡ true
  unfolding set_start_mode matches_as
  start_mode_reached op s =
      decoded_ok_holds op (normalized_service_start_mode op)
        (λ mode s'. holds (E.service_get_start_mode op.name s') λ cur. equal_fold cur mode) _ s
        λ mode e.
          let (m, same) = normalized_service_start_mode-mode_string op mode e in
          read_commit-holds op (λ cur. equal_fold cur mode) (E.service_get_start_mode op.name)
            (λ current. record (captured (new_effect op) start_mode current) {
              new_value = mode;
              changed = not (equal_fold current mode);
            })
            (E.service_set_start_mode op.name mode) s _ refl
            (rw same (laws.set_start_mode op.name m s)) (λ a k. ground arith)

  pub scheme_reached :
      (op : Operation) (s : S)
      → (set_scheme E false op s).0.error ≡ none
      → matches_as E power_scheme op (set_scheme E false op s).1 ≡ true
  unfolding set_scheme matches_as
  scheme_reached op s =
      decoded_ok_holds op (do value ← string_value op; Power.resolve value)
        (λ guid s'. holds (E.power_get_active s') λ cur. equal_fold cur guid) _ s
        λ guid e.
          let (value, k, found) = >>=-ok (string_value op) _ e in
          read_commit-holds op (λ cur. equal_fold cur guid) E.power_get_active
            (λ current. record (captured (new_effect op) scheme current) {
              new_value = guid;
              changed = not (equal_fold current guid);
            })
            (E.power_set_active guid) s _ refl (laws.set_active value guid s found)
            (λ a k. ground arith)

  pub hibernate_reached :
      (op : Operation) (s : S)
      → (set_hibernate E false op s).0.error ≡ none
      → matches_as E power_hibernate op (set_hibernate E false op s).1 ≡ true
  unfolding set_hibernate matches_as
  hibernate_reached op s =
      decoded_holds op (bool_value op)
        (λ enable s'. holds (E.power_hibernate_enabled s') λ cur. not (differs cur enable)) _ s
        λ enable.
          read_commit-holds op (λ cur. not (differs cur enable)) E.power_hibernate_enabled
            (λ current. record (captured (new_effect op) hibernate (bool_text current)) {
              new_value = bool_text enable;
              changed = differs current enable;
            })
            (E.power_set_hibernate enable) s _ refl (laws.set_hibernate enable s)
            (λ a k. ground arith)

  pub netbios_reached :
      (op : Operation) (s : S)
      → (set_netbios E false op s).0.error ≡ none
      → matches_as E netbios op (set_netbios E false op s).1 ≡ true
  unfolding set_netbios matches_as
  netbios_reached op s =
      decoded_holds op (netbios_value op)
        (λ value s'. holds (E.netbios_get_options s') λ cur. all (λ entry. entry.1 == value) cur) _
        s
        λ value.
          read_commit-holds op (λ cur. all (λ entry. entry.1 == value) cur) E.netbios_get_options
            (λ current. record (new_effect op) {
              previous_value = format_netbios_options current;
              new_value = format_uint value;
              changed = any (λ entry. not (entry.1 == value)) current;
            })
            (E.netbios_set_options value) s _ refl (laws.set_netbios value s) (all-any value)

  holds_mono {ℓ} :
      {A : Type ℓ} (r : Result A) (f g : A → Bool)
      → ((a : A) → f a ≡ true → g a ≡ true)
      → holds r f ≡ true
      → holds r g ≡ true
  holds_mono (ok a) f g k h = k a h
  holds_mono (err e) f g k h = cc

  -- the bounds that were, put over the current ones
  target_reached :
      (op : Operation) (current : ℕ × ℕ) (min max : ℕ) (s : S)
      → E.power_get_processor_state s ≡ ok current
      → (set_target E false op current min max s).0.error ≡ none
      → holds
          (E.power_get_processor_state (set_target E false op current min max s).1)
          (λ cur. cur.0 == min && cur.1 == max)
        ≡ true
  unfolding set_target
  target_reached op (cur_min, cur_max) min max s e h =
      ground (arith, laws.set_processor_state min max s)

  bounds_reached :
      (op : Operation) (ps : ProcessorState) (s : S) (q : Result (ℕ × ℕ))
      → E.power_get_processor_state s ≡ q
      → let r =
          or_effect
            (new_effect op)
            q
            (λ cur. set_target E false op cur (or_current ps.min cur.0) (or_current ps.max cur.1))
            s in
        r.0.error ≡ none
        → holds (E.power_get_processor_state r.1) (λ cur. meets ps.min cur.0 && meets ps.max cur.1)
          ≡ true
  unfolding effect_error
  bounds_reached op ps s (err cause) e h = cc
  bounds_reached op ps s (ok cur) e h =
      let r = set_target E false op cur (or_current ps.min cur.0) (or_current ps.max cur.1) s in
      holds_mono (E.power_get_processor_state r.1) _ _ (λ a k. ground arith)
        (target_reached op cur (or_current ps.min cur.0) (or_current ps.max cur.1) s e h)

  pub processor_state_reached :
      (op : Operation) (s : S)
      → (set_processor_state E false op s).0.error ≡ none
      → matches_as E power_processor_state op (set_processor_state E false op s).1 ≡ true
  unfolding set_processor_state matches_as
  processor_state_reached op s =
      decoded_holds op (processor_state_value op)
        (λ ps s'.
          holds (E.power_get_processor_state s') λ cur. meets ps.min cur.0 && meets ps.max cur.1)
        _ s λ ps. bounds_reached op ps s (E.power_get_processor_state s) refl
