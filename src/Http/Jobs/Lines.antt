-- ===== src/Http/Jobs/Lines.antt =====
-- The bounds of a job's log.
use winforge.Prelude.{
  ℕ, zero, suc, ◌+◌, ◌-◌, ◌≤◌, ◌<◌, ◌≡◌, arith, Bool, ◌||◌, List, [], ◌∷◌, ◌++◌, length,
  length-append, length-take, leb, ltb, Bool-cases, inl, inr, All, All-append,
}
use winforge.Text.{Text}
use winforge.Http.Jobs.{
  Job, Log, ellipsis, shrink, truncate_utf8, make_room, log_line, max_job_lines, max_job_line_bytes,
  max_job_log_bytes,
}

abbrev pub total_bytes : List Text → ℕ
total_bytes [] = 0
total_bytes (l ∷ ls) = length l + total_bytes ls

abbrev pub IsShort : Text → Type 0
IsShort l = length l ≤ max_job_line_bytes

shrink-length : (valid : Text → Bool) (n : ℕ) (text : Text) → length (shrink valid n text) ≤ n
unfolding shrink
shrink-length valid zero text = omega arith
shrink-length valid (suc n) text =
    let rest = shrink-length valid n text in
    let here = length-take (suc n) text in ground (arith, rest, here)

-- A text that truncateUTF8 returns has at most as many bytes as the limit, if the ellipsis fits.
pub truncate_utf8-length :
    (valid : Text → Bool) (text : Text) (limit : ℕ)
    → 3 ≤ limit
    → length (truncate_utf8 valid text limit) ≤ limit
unfolding truncate_utf8
truncate_utf8-length valid text limit h = ground (
  arith,
  shrink-length valid (limit - 3) text,
  length-append (shrink valid (limit - 3) text) ellipsis,
)

-- The log of a job: the byte count is right, and the bounds hold.
pub record IsLog (lines : List Text) (bytes : ℕ) : Type 0 where
  pub counted : bytes ≡ total_bytes lines
  pub few : length lines ≤ max_job_lines
  pub within : bytes ≤ max_job_log_bytes
  pub short : All IsShort lines

-- the same with room for a line of `n` bytes
record HasRoom (n : ℕ) (l : Log) : Type 0 where
  counted : l.bytes ≡ total_bytes l.lines
  few : length l.lines < max_job_lines
  within : l.bytes + n ≤ max_job_log_bytes
  short : All IsShort l.lines

make_room-HasRoom :
    (n : ℕ) (ls : List Text) (bytes dropped : ℕ)
    → n ≤ max_job_line_bytes
    → bytes ≡ total_bytes ls
    → All IsShort ls
    → HasRoom n (make_room n ls bytes dropped)
unfolding make_room
make_room-HasRoom n [] bytes dropped h k s = record {
  counted = k;
  few = omega arith;
  within = omega arith;
  short = tt;
}
make_room-HasRoom n (l ∷ ls) bytes dropped h k (s, ss) =
    let rest = make_room-HasRoom n ls (bytes - length l) (dropped + 1) h (omega arith) ss in
    elim (Bool-cases (leb max_job_lines (length (l ∷ ls)) || ltb max_job_log_bytes (bytes + n))) [
      | inl over ↦ rw over rest
      | inr room ↦
          rw room
            (record { counted = k; few = ground arith; within = ground arith; short = (s, ss) })
    ]

total_bytes-snoc :
    (ls : List Text) (l : Text) → total_bytes (ls ++ l ∷ []) ≡ total_bytes ls + length l
total_bytes-snoc [] l = omega arith
total_bytes-snoc (k ∷ ls) l = omega (arith, total_bytes-snoc ls l)

abbrev pub HasLog : Job → Type 0
HasLog j = IsLog j.lines j.lines_bytes

-- Logging a line of any length keeps a job's log within its bounds on lines, bytes and bytes in a
-- line, and keeps the byte count right.
pub log_line-HasLog :
    (valid : Text → Bool) (text : Text) (j : Job) → HasLog j → HasLog (log_line valid text j)
unfolding log_line
log_line-HasLog valid text j h =
    let line = truncate_utf8 valid text max_job_line_bytes in
    let small = truncate_utf8-length valid text max_job_line_bytes (omega arith) in
    let room =
      make_room-HasRoom (length line) j.lines j.lines_bytes j.lines_dropped small h.counted
        h.short in
    let log = make_room (length line) j.lines j.lines_bytes j.lines_dropped in
    record {
      counted = omega (arith, room.counted, total_bytes-snoc log.lines line);
      few = omega (arith, room.few, length-append log.lines (line ∷ []));
      within = room.within;
      short = All-append IsShort log.lines (line ∷ []) room.short (small, tt);
    }
