-- ===== src/AppManager/Report/Limits.antt =====
-- The output of winget that is kept, and its limits.
use winforge.Prelude.{
  not, ℕ, suc, ◌+◌, ◌≤◌, ◌≡◌, refl, sym, arith, Bool, true, false, ◌||◌, Option, none, some, List,
  [], ◌∷◌, ◌++◌, length, map, ltb, leb, if◌then◌else◌, append_assoc, length-append, Bool-cases, ◌⊎◌,
  inl, inr,
}
use mathlib.Core.Path.{subst}
use winforge.Text.{Text}
use winforge.Errors.{Err, join, report_limit}
use winforge.AppManager.{byte_length}
use winforge.AppManager.Report.{
  trim_returns, Collected, no_room, keep_line, no_lines, collect_line, collect_lines, Scanned,
  drained, collect_report_output,
}

-- the bytes of lines, with the newline of each
abbrev pub total_bytes : List Text → ℕ
total_bytes [] = 0
total_bytes (line ∷ lines) = suc (byte_length line) + total_bytes lines

total_bytes-append : (xs ys : List Text) → total_bytes (xs ++ ys) ≡ total_bytes xs + total_bytes ys
total_bytes-append [] ys = omega arith
total_bytes-append (x ∷ xs) ys = omega (arith, total_bytes-append xs ys)

abbrev pub is_none : Option Err → Bool
is_none none = true
is_none (some e) = false

module _ (line_limit byte_limit : ℕ) where
  -- the first of the lines that are left out has no room
  abbrev pub Full : List Text → List Text → Type 0
  Full kept [] = Unit
  Full kept (line ∷ rest) =
      (leb line_limit (length kept) || ltb byte_limit (total_bytes kept + suc (byte_length line)))
      ≡ true

  -- What is kept of the lines: as many of the first ones as there is room for.
  pub record Kept (lines kept : List Text) (complete : Bool) : Type 0 where
    pub dropped : List Text
    pub prefix : lines ≡ kept ++ dropped
    pub few : length kept ≤ line_limit
    pub small : total_bytes kept ≤ byte_limit
    pub full : Full kept dropped
    pub all_kept : (dropped ≡ []) ⊎ (complete ≡ false)

  -- the loop's state before a line is left out
  record Open (c : Collected) : Type 0 where
    open_yet : c.over ≡ false
    counted : c.output_bytes ≡ total_bytes c.lines
    few : length c.lines ≤ line_limit
    small : total_bytes c.lines ≤ byte_limit

  abbrev closed_now : Collected → Collected
  closed_now c = record c { over = true }

  collect_line-full :
      (c : Collected) (line : Text)
      → no_room line_limit byte_limit c line ≡ true
      → collect_line line_limit byte_limit c line ≡ closed_now c
  unfolding collect_line
  collect_line-full c line h = ground arith

  collect_line-room :
      (c : Collected) (line : Text)
      → c.over ≡ false
      → no_room line_limit byte_limit c line ≡ false
      → collect_line line_limit byte_limit c line ≡ keep_line c line
  unfolding collect_line
  collect_line-room c line h e = rw h (rw e refl)

  collect_lines-over :
      (c : Collected) (tokens : List Text)
      → collect_lines line_limit byte_limit (closed_now c) tokens ≡ closed_now c
  unfolding collect_lines collect_line
  collect_lines-over c [] = refl
  collect_lines-over c (token ∷ tokens) = collect_lines-over c tokens

  keep_line-Open :
      (c : Collected) (line : Text)
      → Open c
      → no_room line_limit byte_limit c line ≡ false
      → Open (keep_line c line)
  keep_line-Open c line o e =
      let counted = o.counted in
      let more = total_bytes-append c.lines (line ∷ []) in
      let longer = length-append c.lines (line ∷ []) in
      record { open_yet = refl; counted = ground (arith); few = ground arith; small = ground arith }

  abbrev KeptBy : List Text → Collected → Type 0
  KeptBy lines r = Kept lines r.lines (not r.over)

  collect_lines-Kept :
      (c : Collected) (tokens : List Text)
      → Open c
      → KeptBy (c.lines ++ map trim_returns tokens) (collect_lines line_limit byte_limit c tokens)
  unfolding collect_lines
  collect_lines-Kept c [] o = record {
    dropped = [];
    prefix = refl;
    few = o.few;
    small = o.small;
    full = tt;
    all_kept = inl refl;
  }
  collect_lines-Kept c (token ∷ tokens) o =
      let line = trim_returns token in
      let all_lines = c.lines ++ (line ∷ map trim_returns tokens) in
      elim (Bool-cases (no_room line_limit byte_limit c line)) [
        | inl e ↦
            subst (λ x. KeptBy all_lines (collect_lines line_limit byte_limit x tokens))
              (sym (collect_line-full c line e))
              (subst (λ x. KeptBy all_lines x) (sym (collect_lines-over c tokens))
                (record {
                  dropped = line ∷ map trim_returns tokens;
                  prefix = refl;
                  few = o.few;
                  small = o.small;
                  full = rw (← o.counted) e;
                  all_kept = inr refl;
                }))
        | inr e ↦
            subst (λ x. KeptBy all_lines (collect_lines line_limit byte_limit x tokens))
              (sym (collect_line-room c line o.open_yet e))
              (subst (λ x. KeptBy x (collect_lines line_limit byte_limit (keep_line c line) tokens))
                (append_assoc c.lines (line ∷ []) (map trim_returns tokens))
                (collect_lines-Kept (keep_line c line) tokens (keep_line-Open c line o e)))
      ]

  no_error-over :
      (over : Bool) (rest : List Err)
      → not over ≡ false
      → is_none (join ((if over then report_limit ∷ [] else []) ++ rest)) ≡ false
  no_error-over true [] h = refl
  no_error-over true (e ∷ rest) h = refl
  no_error-over false rest h = cc

  with_complete :
      {lines kept : List Text} {a b : Bool}
      → (a ≡ false → b ≡ false)
      → Kept lines kept a
      → Kept lines kept b
  with_complete {a = a} {b = b} f k = record {
    dropped = k.dropped;
    prefix = k.prefix;
    few = k.few;
    small = k.small;
    full = k.full;
    all_kept = weaker k.all_kept;
  }
    where
      weaker : (k.dropped ≡ []) ⊎ (a ≡ false) → (k.dropped ≡ []) ⊎ (b ≡ false)
      weaker (inl e) = inl e
      weaker (inr e) = inr (f e)

  -- For every output and any limits: the lines that collectReportOutput keeps are the first ones, at
  -- most as many as the limit, and with their newlines of at most as many bytes as the limit; the first
  -- line that is left out has no room; and if there is no error, no line is left out.
  pub collect_report_output-Kept :
      (out : Scanned)
      → let r = collect_report_output out line_limit byte_limit in
        Kept (map trim_returns out.tokens) r.0 (is_none r.1)
  unfolding collect_report_output
  collect_report_output-Kept out =
      let c = collect_lines line_limit byte_limit no_lines out.tokens in
      with_complete (no_error-over c.over (drained out)) (
        collect_lines-Kept no_lines out.tokens
          (record { open_yet = refl; counted = refl; few = ground arith; small = ground arith }))
