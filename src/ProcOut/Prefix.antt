-- ===== src/ProcOut/Prefix.antt =====
-- What the bounded buffer keeps.
use winforge.Prelude.{
  ℕ, zero, suc, ◌-◌, ◌≡◌, refl, sym, ap, ◌∙◌, arith, List, [], ◌∷◌, ◌++◌, append_assoc, append-nil,
  length, length-append, length-take, take, take-all, ltb, Bool-cases, inl, inr,
}
use winforge.Text.{Text}
use winforge.ProcOut.{BoundedBuffer, write, write_all, new_buffer}

abbrev pub concat : List Text → Text
concat [] = []
concat (p ∷ ps) = p ++ concat ps

take_eq : (m n : ℕ) (s : Text) → m ≡ n → take m s ≡ take n s
take_eq m n s h = ap (λ (k : ℕ). take k s) h

take-append : (n : ℕ) (a b : Text) → take n (a ++ b) ≡ take n a ++ take (n - length a) b
take-append zero a b = sym (take_eq (0 - length a) 0 b (omega arith))
take-append (suc n) [] b = sym (take_eq (suc n - 0) (suc n) b (omega arith))
take-append (suc n) (c ∷ a) b =
    ap (λ (l : Text). c ∷ l)
      (take-append n a b
        ∙ ap (λ (l : Text). take n a ++ l)
            (take_eq (n - length a) (suc n - suc (length a)) b (omega arith)))

-- the buffer holds the first bytes of `all`, and tells whether some are missing
pub record Holds (all : Text) (b : BoundedBuffer) : Type 0 where
  pub kept : b.buf ≡ take b.limit all
  pub lost : b.overflow ≡ ltb b.limit (length all)

take-none : (n : ℕ) → take {A = ℕ} n [] ≡ []
take-none zero = refl
take-none (suc n) = refl

write-buf :
    (p : Text) (b : BoundedBuffer) → (write p b).buf ≡ b.buf ++ take (b.limit - length b.buf) p
unfolding write
write-buf p b = elim (Bool-cases (ltb (b.limit - length b.buf) (length p))) [
  | inl over ↦ rw over refl
  | inr fits ↦
      rw fits
        (ap (λ (l : Text). b.buf ++ l) (sym (take-all (b.limit - length b.buf) p (ground arith))))
]

write-limit : (p : Text) (b : BoundedBuffer) → (write p b).limit ≡ b.limit
unfolding write
write-limit p b = ground arith

kept-length :
    (all : Text) (b : BoundedBuffer)
    → b.buf ≡ take b.limit all
    → b.limit - length b.buf ≡ b.limit - length all
kept-length all b h = omega (arith, ap length h, length-take b.limit all)

write-overflow :
    (all p : Text) (b : BoundedBuffer)
    → Holds all b
    → (write p b).overflow ≡ ltb b.limit (length (all ++ p))
unfolding write
write-overflow all p b h = ground (arith, kept-length all b h.kept, length-append all p)

write-Holds : (all p : Text) (b : BoundedBuffer) → Holds all b → Holds (all ++ p) (write p b)
write-Holds all p b h = record {
  kept = rw (write-limit p b) (
      write-buf p b
      ∙ ap (λ (l : Text). l ++ take (b.limit - length b.buf) p) h.kept
      ∙ ap (λ (l : Text). take b.limit all ++ l)
          (take_eq (b.limit - length b.buf) (b.limit - length all) p (kept-length all b h.kept))
      ∙ sym (take-append b.limit all p));
  lost = rw (write-limit p b) (write-overflow all p b h);
}

write_all-Holds :
    (ps : List Text) (all : Text) (b : BoundedBuffer)
    → Holds all b
    → Holds (all ++ concat ps) (write_all ps b)
unfolding write_all
write_all-Holds [] all b h = rw (append-nil all) h
write_all-Holds (p ∷ ps) all b h =
    rw (sym (append_assoc all p (concat ps)))
      (write_all-Holds ps (all ++ p) (write p b) (write-Holds all p b h))

-- However a child splits its output into writes, the buffer holds the first bytes of the whole, up to
-- the limit, and reports an overflow exactly where the whole is longer than the limit.
pub write_all-new_buffer :
    (ps : List Text) (limit : ℕ) → Holds (concat ps) (write_all ps (new_buffer limit))
write_all-new_buffer ps limit =
    write_all-Holds ps [] (new_buffer limit)
      (record { kept = sym (take-none limit); lost = ground arith })
