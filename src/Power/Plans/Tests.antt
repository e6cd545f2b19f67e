-- ===== src/Power/Plans/Tests.antt =====
-- A power API in memory.
use winforge.Prelude.{
  ℕ, ◌≡◌, ◌≢◌, ◌≤◌, refl, Bool, true, false, ◌&&◌, none, [], ◌∷◌, arith, ◌==◌, ==_refl, Bool-cases,
  inl, inr, if◌then◌else◌,
}
use winforge.Text.{Text, codes, text_eq, trim_space, to_lower}
use winforge.Text.Laws.{text_eq_refl, text_eq_iff}
use winforge.Errors.{ok}
use winforge.AppManager.{split_at}
use winforge.Tweak.Sample.{ascii}
use winforge.Power.{balanced, is_guid}
use winforge.Power.Guid.{Win32Guid, guid_parts, byte_fields, hex_field, scan_hex, hex_value}
use winforge.Power.Plans.{
  PowerApi, get_processor_state, set_processor_state, plans_of, find_guid, plan_name,
}
use winforge.Power.Plans.Processor.{PowerLaws, get-set_processor_state}

unfoldable guid_eq : Win32Guid → Win32Guid → Bool
guid_eq g h =
    g.data1 == h.data1 && g.data2 == h.data2 && g.data3 == h.data3 && text_eq g.data4 h.data4

guid_eq_refl : (g : Win32Guid) → guid_eq g g ≡ true
unfolding guid_eq
guid_eq_refl g =
    ground (arith, ==_refl g.data1, ==_refl g.data2, ==_refl g.data3, text_eq_refl g.data4)

eq_of_guid_eq : (g h : Win32Guid) → guid_eq g h ≡ true → g ≡ h
unfolding guid_eq
eq_of_guid_eq g h e = ground (arith, text_eq_iff g.data4 h.data4)

record Power : Type 0 where
  active_one : Win32Guid
  values : Win32Guid → ℕ

abbrev power_memory : PowerApi Power
power_memory = record {
  powercfg = λ args s. (ok [], s);
  active_scheme = λ s. ok s.active_one;
  read_ac = λ scheme sub t s. ok (s.values t);
  write_ac =
      λ scheme sub t v s. (none, record s { values = λ u. if guid_eq u t then v else s.values u });
  set_active_scheme = λ scheme s. (none, record s { active_one = scheme });
}

other-guid : (g h : Win32Guid) → g ≢ h → guid_eq g h ≡ false
other-guid g h apart = elim (Bool-cases (guid_eq g h)) [
  | inl e ↦ absurd (apart (eq_of_guid_eq g h e))
  | inr e ↦ e
]

power_memory-PowerLaws : PowerLaws power_memory
power_memory-PowerLaws = record {
  read_written = λ scheme sub t v s e. rw (guid_eq_refl t) refl;
  read_other = λ scheme sub t u v s apart. rw (other-guid u t apart) refl;
  active_set = λ scheme s e. refl;
  read_set = λ scheme sub t s. refl;
}

abbrev two_plans : Text
two_plans = codes "GUID: 381B4222-f694-41f0-9685-ff5bb260df2e  (Balanced)\nno plan"

listed_plan :
    plans_of (split_at b'\n' two_plans) ≡ record { guid = balanced; name = codes "Balanced" } ∷ []
unfolding plans_of split_at find_guid plan_name is_guid trim_space to_lower
listed_plan = refl

abbrev at_rest : Power
at_rest = record {
  active_one = record { data1 = 1; data2 = 2; data3 = 3; data4 = [] };
  values = λ t. 100;
}

set_without_error : (set_processor_state power_memory 5 90 at_rest).0 ≡ none
unfolding set_processor_state guid_parts is_guid byte_fields hex_field scan_hex hex_value
set_without_error = refl

get-set_processor_state_example :
    (5 ≤ 90)
    × (90 ≤ 100)
    × (get_processor_state power_memory (set_processor_state power_memory 5 90 at_rest).1
        ≡ ok (5, 90))
get-set_processor_state_example =
    get-set_processor_state power_memory power_memory-PowerLaws 5 90 at_rest set_without_error
