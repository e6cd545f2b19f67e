-- ===== src/Tweak/Sample.antt =====
-- A system in memory, to run the orchestrator on: every call succeeds, except
-- that a number too large for its type is refused.
use winforge.Prelude.{
  ℕ, ◌^◌, Bool, true, false, ◌&&◌, Option, none, some, List, [], ◌∷◌, map, length, ◌≡◌, refl, ap,
  arith, all, ltb, Bool-cases, inl, inr, if◌then◌else◌, ==_refl, ◌==◌,
}
use winforge.Text.{Text, codes, text_eq, CaseTable}
use winforge.Text.Laws.{text_eq_refl, text_eq_iff, equal_fold_refl}
use winforge.Errors.{Err, ok, os}
use winforge.Config.{Operation, Tweak, registry_set_dword, service_stop, high}
use winforge.Config.Json.{integer}
use winforge.Audit.Entry.{Entry, Logger}
use winforge.Tweak.Orchestrator.{World}
use winforge.Service.{mode_string}
use winforge.Tweak.Executor.{Executor}
use winforge.Tweak.Laws.{
  RegValue, reg_dword, reg_qword, reg_string, reg_expand, Place, RegistryView, RegistryLaws,
  reg_other, SettingLaws, Writes, InRangeOption, read_dword, read_qword, read_string, read_expand,
}

-- no case pairs beyond ASCII
instance abbrev pub ascii : CaseTable
ascii = record { lower = λ c. c; fold = λ c. c }

pub record Sys : Type 0 where
  pub values : Place → Option RegValue
  pub keys : Text → Text → Bool
  pub modes : Text → Text
  pub active : Text
  pub hibernate : Bool
  pub bounds : ℕ × ℕ
  pub interfaces : List (Text × ℕ)

unfoldable pub place_eq : Place → Place → Bool
unfolding text_eq
place_eq p q = text_eq p.hive q.hive && text_eq p.path q.path && text_eq p.name q.name

-- a stored value that does not fit its type is never shown
abbrev fitting : Option RegValue → Option RegValue
fitting (some (reg_dword v)) = if ltb v (2 ^ 32) then some (reg_dword v) else none
fitting (some (reg_qword v)) = if ltb v (2 ^ 64) then some (reg_qword v) else none
fitting o = o

unfoldable pub look : Place → Sys → Option RegValue
look p s = fitting (s.values p)

unfoldable pub put : Text → Text → Text → Option RegValue → Sys → Option Err × Sys
put hive path name o s =
    let p : Place = record { hive = hive; path = path; name = name } in
    (none, record s { values = λ q. if place_eq p q then o else s.values q })

abbrev mismatch_error : RegValue → Err
mismatch_error v = os 1630

-- the one environment variable
unfoldable pub expand_variables : Text → Text
unfolding text_eq
expand_variables v = if text_eq v (codes "%windir%") then codes "C:\\Windows" else v

abbrev at_place : {A : Type 0} → (Place → Sys → A) → Text → Text → Text → Sys → A
at_place f hive path name = f (record { hive = hive; path = path; name = name })

-- a number that does not fit is refused
abbrev only : Bool → (Sys → Option Err × Sys) → Sys → Option Err × Sys
only true write s = write s
only false write s = (some (os 87), s)

abbrev done : (Sys → Sys) → Sys → Option Err × Sys
done f s = (none, f s)

abbrev pub memory : Executor Sys
memory = record {
  registry_get_dword = at_place (λ p s. read_dword mismatch_error (look p s));
  registry_get_string = at_place (λ p s. read_string expand_variables mismatch_error (look p s));
  registry_get_expand_string = at_place (λ p s. read_expand mismatch_error (look p s));
  registry_get_qword = at_place (λ p s. read_qword mismatch_error (look p s));
  registry_set_dword = λ h p n v. only (ltb v (2 ^ 32)) (put h p n (some (reg_dword v)));
  registry_set_string = λ h p n v. put h p n (some (reg_string v));
  registry_set_expand_string = λ h p n v. put h p n (some (reg_expand v));
  registry_set_qword = λ h p n v. only (ltb v (2 ^ 64)) (put h p n (some (reg_qword v)));
  registry_delete_value = λ h p n. put h p n none;
  registry_key_exists = λ h p s. ok (s.keys h p);
  registry_delete_key_tree = λ h p.
      done
        (λ s. record s { keys = λ i q. if text_eq h i && text_eq p q then false else s.keys i q });
  service_set_start_mode =
      λ n m. done (λ s. record s { modes = λ k. if text_eq n k then m else s.modes k });
  service_get_start_mode = λ n s. ok (s.modes n);
  service_start = λ n s. (none, s);
  service_stop = λ n s. (none, s);
  task_disable = λ p s. (none, s);
  task_enable = λ p s. (none, s);
  task_delete = λ p s. (none, s);
  appx_remove = λ n s. (none, s);
  run_command = λ c a s. (none, s);
  power_get_active = λ s. ok s.active;
  power_set_active = λ g. done (λ s. record s { active = g });
  power_hibernate_enabled = λ s. ok s.hibernate;
  power_set_hibernate = λ b. done (λ s. record s { hibernate = b });
  power_get_processor_state = λ s. ok s.bounds;
  power_set_processor_state = λ lo hi. done (λ s. record s { bounds = (lo, hi) });
  netbios_get_options = λ s. ok s.interfaces;
  netbios_set_options =
      λ v. done (λ s. record s { interfaces = map (λ (e : Text × ℕ). (e.0, v)) s.interfaces });
}

abbrev pub memory_view : RegistryView Sys
memory_view = record {
  view = look;
  same = place_eq;
  mismatch = λ p. mismatch_error;
  expand = λ s. expand_variables;
}

place_eq_refl : (p : Place) → place_eq p p ≡ true
unfolding place_eq
place_eq_refl p = ground (arith, text_eq_refl p.hive, text_eq_refl p.path, text_eq_refl p.name)

eq_of_place_eq : (p q : Place) → place_eq p q ≡ true → q ≡ p
unfolding place_eq
eq_of_place_eq p q h =
    ground (arith, text_eq_iff p.hive q.hive, text_eq_iff p.path q.path, text_eq_iff p.name q.name)

fitting-InRange : (o : Option RegValue) → InRangeOption (fitting o)
fitting-InRange none = tt
fitting-InRange (some (reg_dword v)) = elim (Bool-cases (ltb v (2 ^ 32))) [
  | inl small ↦ rw small (ground arith)
  | inr large ↦ rw large tt
]
fitting-InRange (some (reg_qword v)) = elim (Bool-cases (ltb v (2 ^ 64))) [
  | inl small ↦ rw small (ground arith)
  | inr large ↦ rw large tt
]
fitting-InRange (some (reg_string v)) = tt
fitting-InRange (some (reg_expand v)) = tt
fitting-InRange (some reg_other) = tt

look-put :
    (p q : Place) (o : Option RegValue) (s : Sys)
    → look q (put p.hive p.path p.name o s).1 ≡ (if place_eq p q then fitting o else look q s)
unfolding look put
look-put p q o s = elim (Bool-cases (place_eq p q)) [ inl same ↦ rw same | inr apart ↦ rw apart ]

only-Writes :
    (b : Bool) (p : Place) (o : Option RegValue) (s : Sys)
    → (b ≡ true → fitting o ≡ o)
    → Writes memory_view p o s (only b (put p.hive p.path p.name o) s)
only-Writes true p o s f = λ q h. rw (look-put p q o s, f refl)
only-Writes false p o s f = λ q h. cc

pub memory-RegistryLaws : RegistryLaws memory memory_view
memory-RegistryLaws = record {
  same_refl = place_eq_refl;
  same_view = λ p q s h. ap (λ (r : Place). look r s) (eq_of_place_eq p q h);
  in_range = λ p s. unfold look in fitting-InRange (s.values p);
  get_string = λ p s. refl;
  get_expand_string = λ p s. refl;
  get_dword = λ p s. refl;
  get_qword = λ p s. refl;
  set_dword = λ p v s. only-Writes (ltb v (2 ^ 32)) p (some (reg_dword v)) s (λ e. rw e);
  set_qword = λ p v s. only-Writes (ltb v (2 ^ 64)) p (some (reg_qword v)) s (λ e. rw e);
  set_string = λ p v s q h. look-put p q (some (reg_string v)) s;
  set_expand_string = λ p v s q h. look-put p q (some (reg_expand v)) s;
  delete_value = λ p s q h. look-put p q none s;
}

all-set :
    (v : ℕ) (m : List (Text × ℕ))
    → all (λ (e : Text × ℕ). e.1 == v) (map (λ (e : Text × ℕ). (e.0, v)) m) ≡ true
all-set v [] = refl
all-set v (e ∷ m) = ground (arith, all-set v m, ==_refl v)

pub memory-SettingLaws : SettingLaws memory
memory-SettingLaws = record {
  delete_key_tree = λ hive path s h. ground (arith, text_eq_refl hive, text_eq_refl path);
  set_start_mode =
      λ name mode s h. ground (arith, text_eq_refl name, equal_fold_refl (mode_string mode));
  set_active = λ value guid s r h. equal_fold_refl guid;
  set_hibernate = λ enable s h. ground arith;
  set_processor_state = λ min max s h. ground (arith, ==_refl min, ==_refl max);
  set_netbios = λ value s h. all-set value s.interfaces;
}

-- a fresh system: one value, one key, hibernation on
abbrev pub fresh : Sys
fresh = record {
  values = λ p. if text_eq p.name (codes "Start") then some (reg_dword 3) else none;
  keys = λ h p. true;
  modes = λ n. codes "automatic";
  active = codes "381b4222-f694-41f0-9685-ff5bb260df2e";
  hibernate = true;
  bounds = (5, 100);
  interfaces = (codes "if1", 0) ∷ [];
}

abbrev pub set_start : Operation
set_start = record {
  op_type = registry_set_dword;
  hive = codes "HKLM";
  path = codes "SYSTEM";
  name = codes "Start";
  value = record { size = 1; json = some (integer false 4) };
  args = [];
}

abbrev pub stop_service : Operation
stop_service = record set_start { op_type = service_stop; name = codes "Spooler" }

abbrev pub tweak : Tweak
tweak = record {
  id = codes "t1";
  name = codes "Start";
  category = [];
  description = [];
  risk = high;
  reversible = true;
  operations = set_start ∷ stop_service ∷ [];
  revert = [];
}

-- a log in memory, which hands out the number of its entries as the next id
abbrev pub list_log : Logger (List Entry)
list_log = record {
  append = λ e l. (none, record e { id = codes "op"; timestamp = some (length l) } ∷ l);
  read_all = λ l. (l, none);
}

abbrev pub world : World Sys (List Entry)
world = record { sys = fresh; log = [] }
