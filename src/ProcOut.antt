-- ===== src/ProcOut.antt =====
-- internal/procout/procout.go: the bounded buffer of a child process's output.
pub mod Prefix
mod Tests
use winforge.Prelude.{
  ℕ, zero, suc, ◌-◌, Bool, true, false, List, [], ◌∷◌, ◌++◌, if◌then◌else◌, length, take, ltb,
}
use winforge.Text.{Text}

pub record BoundedBuffer : Type 0 where
  pub buf : Text
  pub limit : ℕ
  pub overflow : Bool

-- Write; the buffer never holds more than the limit, so that `remaining` is not negative, and
-- writing nothing where nothing remains is the early return
unfoldable pub write : Text → BoundedBuffer → BoundedBuffer
write p b =
    let remaining = b.limit - length b.buf in
    if ltb remaining (length p)
    then record b { buf = b.buf ++ take remaining p; overflow = true }
    else record b { buf = b.buf ++ p }

unfoldable pub write_all : List Text → BoundedBuffer → BoundedBuffer
unfolding write
write_all [] b = b
write_all (p ∷ ps) b = write_all ps (write p b)

abbrev pub new_buffer : ℕ → BoundedBuffer
new_buffer limit = record { buf = []; limit = limit; overflow = false }
