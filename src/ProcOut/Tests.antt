-- ===== src/ProcOut/Tests.antt =====
-- The buffer at concrete writes.
use winforge.Prelude.{[], ◌∷◌}
use winforge.Text.{codes}
use winforge.ProcOut.{write_all, new_buffer}
use winforge.ProcOut.Prefix.{Holds, concat, write_all-new_buffer}

write_all-new_buffer_example :
    Holds
      (concat (codes "abc" ∷ codes "def" ∷ []))
      (write_all (codes "abc" ∷ codes "def" ∷ []) (new_buffer 4))
write_all-new_buffer_example = write_all-new_buffer (codes "abc" ∷ codes "def" ∷ []) 4
