-- ===== src/AppManager/Search/Rounds.antt =====
-- The rounds that the search for the header's columns has are enough: more of them change nothing.
use winforge.Prelude.{
  ℕ, zero, suc, ◌+◌, ◌<◌, ◌≡◌, refl, arith, Bool, Option, [], ◌∷◌, length, Bool-cases, inl, inr,
}
use winforge.Text.{Text, is_space, CaseTable}
use winforge.AppManager.Search.{
  MarkTable, Run, rune_display_width, scan, non_space, word_columns, columns_from,
}

module _ ⦃m : MarkTable⦄ ⦃t : CaseTable⦄ where
  scan-length :
      (p : ℕ → Bool) (s : Text) (column : ℕ)
      → length (scan p s column).run + length (scan p s column).rest ≡ length s
  unfolding scan
  scan-length p [] column = refl
  scan-length p (c ∷ s) column = elim (Bool-cases (p c)) [
    | inl e ↦ rw e (omega (arith, scan-length p s (column + rune_display_width c)))
    | inr e ↦ rw e (omega arith)
  ]

  word_columns-more :
      (run : Text) (start : ℕ) (word : Run) (a b : Option (ℕ × ℕ))
      → (0 < length run → a ≡ b)
      → word_columns run start word a ≡ word_columns run start word b
  word_columns-more [] start word a b h = refl
  word_columns-more (c ∷ s) start word a b h = rw (h (omega arith)) refl

  pub columns_from-rounds :
      (n k : ℕ) (line : Text) (column : ℕ)
      → length line < n
      → length line < k
      → columns_from n line column ≡ columns_from k line column
  unfolding columns_from
  columns_from-rounds zero k line column h h' = absurd (omega arith)
  columns_from-rounds (suc n) zero line column h h' = absurd (omega arith)
  columns_from-rounds (suc n) (suc k) line column h h' =
      let spaces = scan is_space line column in
      let word = scan non_space spaces.rest spaces.column in
      let l1 = scan-length is_space line column in
      let l2 = scan-length non_space spaces.rest spaces.column in
      word_columns-more word.run spaces.column word _ _
        (λ some_run. columns_from-rounds n k word.rest word.column (omega arith) (omega arith))
