-- ===== src/Power/Guid/Bytes.antt =====
-- The bytes of a GUID are printed as they were read, in lower case.
use winforge.Prelude.{
  ℕ, zero, suc, ◌+◌, ◌≡◌, refl, true, List, [], ◌∷◌, ◌++◌, take, drop, length, all, arith,
}
use winforge.Text.{Text, to_lower, CaseTable}
use winforge.Errors.{ok}
use winforge.Power.{is_hex}
use winforge.Power.Guid.{hex_field, byte_fields, hex_digits, byte_text}
use winforge.Power.Guid.Digits.{text-HasField}

pair-hex : (a b : ℕ) (t : Text) → all is_hex (a ∷ b ∷ t) ≡ true → all is_hex (a ∷ b ∷ []) ≡ true
pair-hex a b t h = ground arith

rest-hex : (a b : ℕ) (t : Text) → all is_hex (a ∷ b ∷ t) ≡ true → all is_hex t ≡ true
rest-hex a b t h = ground arith

module _ ⦃c : CaseTable⦄ where
  -- `k` bytes, which are printed as the text that they were read from
  pub record HasBytes (k : ℕ) (t : Text) : Type 0 where
    pub bytes : List ℕ
    pub read : byte_fields k t ≡ ok bytes
    pub printed : byte_text bytes ≡ to_lower t

  byte_fields-cons :
      (k : ℕ) (a b n : ℕ) (t : Text) (bytes : List ℕ)
      → hex_field 8 (a ∷ b ∷ []) ≡ ok n
      → byte_fields k t ≡ ok bytes
      → byte_fields (suc k) (a ∷ b ∷ t) ≡ ok (n ∷ bytes)
  unfolding byte_fields
  byte_fields-cons k a b n t bytes e f = rw (e, f) refl

  byte_text-cons :
      (n a b : ℕ) (t : Text) (bytes : List ℕ)
      → hex_digits 2 n [] ≡ to_lower (a ∷ b ∷ [])
      → byte_text bytes ≡ to_lower t
      → byte_text (n ∷ bytes) ≡ to_lower (a ∷ b ∷ t)
  unfolding byte_text to_lower
  byte_text-cons n a b t bytes e f = rw (e, f) refl

  HasBytes-cons :
      (k a b : ℕ) (t : Text)
      → all is_hex (a ∷ b ∷ t) ≡ true
      → HasBytes k t
      → HasBytes (suc k) (a ∷ b ∷ t)
  HasBytes-cons k a b t h rest =
      let first = text-HasField 8 1 (a ∷ b ∷ []) refl (pair-hex a b t h) (omega arith) in
      record {
        bytes = first.value ∷ rest.bytes;
        read = byte_fields-cons k a b first.value t rest.bytes first.read rest.read;
        printed = byte_text-cons first.value a b t rest.bytes first.printed rest.printed;
      }

  pub text-HasBytes : (k : ℕ) (t : Text) → length t ≡ k + k → all is_hex t ≡ true → HasBytes k t
  text-HasBytes zero [] e h = record {
    bytes = [];
    read = unfold byte_fields in refl;
    printed = unfold byte_text to_lower in refl;
  }
  text-HasBytes zero (a ∷ t) e h = absurd (omega (arith, e))
  text-HasBytes (suc k) [] e h = absurd (omega (arith, e))
  text-HasBytes (suc k) (a ∷ []) e h = absurd (omega (arith, e))
  text-HasBytes (suc k) (a ∷ b ∷ t) e h =
      HasBytes-cons k a b t h (text-HasBytes k t (omega (arith, e)) (rest-hex a b t h))

  -- the last eight bytes, which a hyphen parts after the second
  pub record HasTail (f g : Text) : Type 0 where
    pub bytes : List ℕ
    pub read : byte_fields 8 (f ++ g) ≡ ok bytes
    pub head_printed : byte_text (take 2 bytes) ≡ to_lower f
    pub rest_printed : byte_text (drop 2 bytes) ≡ to_lower g

  HasTail-of :
      (a b d e : ℕ) (g : Text)
      → all is_hex (a ∷ b ∷ d ∷ e ∷ []) ≡ true
      → HasBytes 6 g
      → HasTail (a ∷ b ∷ d ∷ e ∷ []) g
  HasTail-of a b d e g h rest =
      let one = text-HasField 8 1 (a ∷ b ∷ []) refl (pair-hex a b (d ∷ e ∷ []) h) (omega arith) in
      let two = text-HasField 8 1 (d ∷ e ∷ []) refl (rest-hex a b (d ∷ e ∷ []) h) (omega arith) in
      record {
        bytes = one.value ∷ two.value ∷ rest.bytes;
        read =
            byte_fields-cons 7 a b one.value (d ∷ e ∷ g) (two.value ∷ rest.bytes) one.read
              (byte_fields-cons 6 d e two.value g rest.bytes two.read rest.read);
        head_printed =
            byte_text-cons one.value a b (d ∷ e ∷ []) (two.value ∷ []) one.printed
              (byte_text-cons two.value d e [] [] two.printed (unfold byte_text to_lower in refl));
        rest_printed = rest.printed;
      }

  pub text-HasTail :
      (f g : Text)
      → length f ≡ 4
      → all is_hex f ≡ true
      → length g ≡ 12
      → all is_hex g ≡ true
      → HasTail f g
  text-HasTail [] g e h e' h' = absurd (omega (arith, e))
  text-HasTail (a ∷ []) g e h e' h' = absurd (omega (arith, e))
  text-HasTail (a ∷ b ∷ []) g e h e' h' = absurd (omega (arith, e))
  text-HasTail (a ∷ b ∷ d ∷ []) g e h e' h' = absurd (omega (arith, e))
  text-HasTail (a ∷ b ∷ d ∷ i ∷ []) g e h e' h' = HasTail-of a b d i g h (text-HasBytes 6 g e' h')
  text-HasTail (a ∷ b ∷ d ∷ i ∷ j ∷ f) g e h e' h' = absurd (omega (arith, e))
