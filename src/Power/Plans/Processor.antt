-- ===== src/Power/Plans/Processor.antt =====
-- The processor state that was set is the one that is read.
use winforge.Prelude.{
  ℕ, ◌≤◌, ◌≡◌, ◌≢◌, refl, sym, ap, ◌∙◌, Bool, true, false, ◌||◌, Option, none, some, [], ◌∷◌, ltb,
  arith, if◌then◌else◌,
}
use mathlib.Core.Path.{subst}
use winforge.Errors.{Err, Result, ok, err, processor_percent, processor_order}
use winforge.Power.{is_guid}
use winforge.Power.Guid.{Win32Guid, guid_parts, byte_fields, hex_field, scan_hex, hex_value}
use winforge.Power.Plans.{
  PowerApi, sub_processor, setting_min_proc, setting_max_proc, and_then, with_guid, write_state,
  get_processor_state, set_processor_state,
}

abbrev sub_guid : Win32Guid
sub_guid = record {
  data1 = 0x54533251;
  data2 = 0x82be;
  data3 = 0x4824;
  data4 = 0x96 ∷ 0xc1 ∷ 0x47 ∷ 0xb6 ∷ 0x0b ∷ 0x74 ∷ 0x0d ∷ 0 ∷ [];
}

abbrev min_guid : Win32Guid
min_guid = record {
  data1 = 0x893dee8e;
  data2 = 0x2bef;
  data3 = 0x41e0;
  data4 = 0x89 ∷ 0xc6 ∷ 0xb5 ∷ 0x5d ∷ 0x09 ∷ 0x29 ∷ 0x96 ∷ 0x4c ∷ [];
}

abbrev max_guid : Win32Guid
max_guid = record {
  data1 = 0xbc5038f7;
  data2 = 0x23e0;
  data3 = 0x4960;
  data4 = 0x96 ∷ 0xda ∷ 0x33 ∷ 0xab ∷ 0xaf ∷ 0x59 ∷ 0x35 ∷ 0xec ∷ [];
}

sub_parts : guid_parts sub_processor ≡ ok sub_guid
unfolding guid_parts is_guid byte_fields hex_field scan_hex hex_value
sub_parts = refl

min_parts : guid_parts setting_min_proc ≡ ok min_guid
unfolding guid_parts is_guid byte_fields hex_field scan_hex hex_value
min_parts = refl

max_parts : guid_parts setting_max_proc ≡ ok max_guid
unfolding guid_parts is_guid byte_fields hex_field scan_hex hex_value
max_parts = refl

min_guid-max_guid : min_guid ≢ max_guid
min_guid-max_guid e = absurd (omega (arith, ap (λ (g : Win32Guid). g.data1) e))

module _ {W : Type 0} (api : PowerApi W) where
  -- what is documented of the power API: a value that was written is read, and only that setting of
  -- the scheme and the active scheme change
  pub record PowerLaws : Type 0 where
    pub read_written :
        (scheme sub s : Win32Guid) (v : ℕ) (w : W)
        → (api.write_ac scheme sub s v w).0 ≡ none
        → api.read_ac scheme sub s (api.write_ac scheme sub s v w).1 ≡ ok v
    pub read_other :
        (scheme sub s t : Win32Guid) (v : ℕ) (w : W)
        → t ≢ s
        → api.read_ac scheme sub t (api.write_ac scheme sub s v w).1 ≡ api.read_ac scheme sub t w
    pub active_set :
        (scheme : Win32Guid) (w : W)
        → (api.set_active_scheme scheme w).0 ≡ none
        → api.active_scheme (api.set_active_scheme scheme w).1 ≡ ok scheme
    pub read_set :
        (scheme sub s : Win32Guid) (w : W)
        → api.read_ac scheme sub s (api.set_active_scheme scheme w).1 ≡ api.read_ac scheme sub s w

  -- two changes in a row that end without an error
  and_then-none :
      (first : Option Err × W) (next : W → Option Err × W)
      → (and_then api first next).0 ≡ none
      → (first.0 ≡ none) × (and_then api first next ≡ next first.1)
  and_then-none (none, w) next h = (refl, refl)
  and_then-none (some e, w) next h = absurd cc h

  -- the two writes and the activation, with the GUIDs in their parts
  abbrev write_both : ℕ → ℕ → Win32Guid → W → Option Err × W
  write_both lo hi scheme w = and_then api (api.write_ac scheme sub_guid min_guid lo w) λ w1.
      and_then api (api.write_ac scheme sub_guid max_guid hi w1)
        λ w2. api.set_active_scheme scheme w2

  write_state-both :
      (lo hi : ℕ) (scheme : Win32Guid) (w : W)
      → write_state api lo hi scheme sub_guid w ≡ write_both lo hi scheme w
  write_state-both lo hi scheme w = rw (min_parts, max_parts) refl

  -- how the processor state reads in a state of the system
  record Reads (lo hi : ℕ) (scheme : Win32Guid) (w : W) : Type 0 where
    is_active : api.active_scheme w ≡ ok scheme
    min : api.read_ac scheme sub_guid min_guid w ≡ ok lo
    max : api.read_ac scheme sub_guid max_guid w ≡ ok hi

  module _ (laws : PowerLaws) where
    write_both-Reads :
        (lo hi : ℕ) (scheme : Win32Guid) (w : W)
        → (write_both lo hi scheme w).0 ≡ none
        → Reads lo hi scheme (write_both lo hi scheme w).1
    write_both-Reads lo hi scheme w h =
        let w1 = (api.write_ac scheme sub_guid min_guid lo w).1 in
        let w2 = (api.write_ac scheme sub_guid max_guid hi w1).1 in
        let (first, e1) =
          and_then-none (api.write_ac scheme sub_guid min_guid lo w)
            (λ v.
              and_then api (api.write_ac scheme sub_guid max_guid hi v)
                λ u. api.set_active_scheme scheme u)
            h in
        let (second, e2) =
          and_then-none (api.write_ac scheme sub_guid max_guid hi w1)
            (λ u. api.set_active_scheme scheme u) (ap (λ (r : Option Err × W). r.0) (sym e1) ∙ h) in
        let whole = e1 ∙ e2 in
        let set : (api.set_active_scheme scheme w2).0 ≡ none =
          ap (λ (r : Option Err × W). r.0) (sym whole) ∙ h in
        subst (λ (r : Option Err × W). Reads lo hi scheme r.1) (sym whole)
          (record {
            is_active = laws.active_set scheme w2 set;
            min =
                laws.read_set scheme sub_guid min_guid w2
                ∙ laws.read_other scheme sub_guid max_guid min_guid hi w1 min_guid-max_guid
                ∙ laws.read_written scheme sub_guid min_guid lo w first;
            max =
                laws.read_set scheme sub_guid max_guid w2
                ∙ laws.read_written scheme sub_guid max_guid hi w1 second;
          })

    Reads-get :
        (lo hi : ℕ) (scheme : Win32Guid) (w : W)
        → Reads lo hi scheme w
        → get_processor_state api w ≡ ok (lo, hi)
    unfolding get_processor_state
    Reads-get lo hi scheme w r =
        rw (r.is_active, sub_parts, min_parts, max_parts, r.min, r.max) refl

    write_state-get :
        (lo hi : ℕ) (scheme : Win32Guid) (w : W)
        → (write_state api lo hi scheme sub_guid w).0 ≡ none
        → get_processor_state api (write_state api lo hi scheme sub_guid w).1 ≡ ok (lo, hi)
    write_state-get lo hi scheme w h =
        let e = write_state-both lo hi scheme w in
        Reads-get lo hi scheme _ (
          subst (λ (r : Option Err × W). Reads lo hi scheme r.1) (sym e)
            (write_both-Reads lo hi scheme w (ap (λ (r : Option Err × W). r.0) (sym e) ∙ h)))

    -- what SetProcessorState does after its checks
    abbrev checked : ℕ → ℕ → Result Win32Guid → W → Option Err × W
    checked lo hi scheme w =
        with_guid api scheme w
          λ s w1. with_guid api (guid_parts sub_processor) w1 (write_state api lo hi s)

    checked-get :
        (lo hi : ℕ) (scheme : Result Win32Guid) (w : W)
        → (checked lo hi scheme w).0 ≡ none
        → get_processor_state api (checked lo hi scheme w).1 ≡ ok (lo, hi)
    checked-get lo hi (err e) w h = absurd cc h
    checked-get lo hi (ok s) w h = rw sub_parts (write_state-get lo hi s w (rw sub_parts at h))

    unchecked :
        (large inverted : Bool) (r : Option Err × W) (w : W)
        → (if large
            then (some processor_percent, w)
            else if inverted
            then (some processor_order, w)
            else r).0
          ≡ none
        → (large ≡ false) × (inverted ≡ false) × (r.0 ≡ none)
    unchecked true inverted r w h = absurd cc h
    unchecked false true r w h = absurd cc h
    unchecked false false r w h = (refl, refl, h)

    -- For a power API that reads what was written: after SetProcessorState returned no error, the bounds
    -- are percentages in order, and GetProcessorState returns them.
    pub get-set_processor_state :
        (lo hi : ℕ) (w : W)
        → (set_processor_state api lo hi w).0 ≡ none
        → (lo ≤ hi)
          × (hi ≤ 100)
          × (get_processor_state api (set_processor_state api lo hi w).1 ≡ ok (lo, hi))
    unfolding set_processor_state
    get-set_processor_state lo hi w h =
        let (small, in_order, done) =
          unchecked (ltb 100 lo || ltb 100 hi) (ltb hi lo) (checked lo hi (api.active_scheme w) w) w
            h in
        (
          ground arith,
          ground arith,
          rw (small, in_order) (checked-get lo hi (api.active_scheme w) w done),
        )
