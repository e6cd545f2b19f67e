-- ===== src/Power/Tests.antt =====
-- Resolving at a concrete name.
use winforge.Prelude.{◌≡◌, refl, [], ◌∷◌}
use winforge.Text.{codes, to_lower, trim_space, text_eq, CaseTable}
use winforge.Errors.{ok}
use winforge.Power.{high_performance, alias, is_guid, resolve}
use winforge.Power.Guid.{
  Win32Guid, guid_parts, from_win32_guid, byte_fields, hex_field, scan_hex, hex_value,
}
use winforge.Power.Guid.RoundTrip.{resolve-guid_parts}

instance abbrev plain : CaseTable
plain = record { lower = λ c. c; fold = λ c. c }

resolved : resolve (codes " HighPerformance ") ≡ ok high_performance
unfolding resolve alias to_lower trim_space text_eq
resolved = refl

resolve-guid_parts_example :
    (g : Win32Guid) × (guid_parts high_performance ≡ ok g) × (from_win32_guid g ≡ high_performance)
resolve-guid_parts_example = resolve-guid_parts (codes " HighPerformance ") resolved

high_performance_parts :
    guid_parts high_performance
    ≡ ok (record {
      data1 = 0x8c5e7fda;
      data2 = 0xe8bf;
      data3 = 0x4a96;
      data4 = 0x9a ∷ 0x85 ∷ 0xa6 ∷ 0xe2 ∷ 0x3a ∷ 0x8c ∷ 0x63 ∷ 0x5c ∷ [];
    })
unfolding guid_parts is_guid byte_fields hex_field scan_hex hex_value
high_performance_parts = refl
