-- ===== src/Sections.antt =====
-- The SECTIONS construct (libgomp/sections.c), where a `long` is longer than an `unsigned`, with the
-- build that has atomic builtins.
pub mod Order
use libgomp.Prelude.{ℕ, ◌+◌, ◌%◌, List, Option, none, some, true, ◌>>=◌}
use libgomp.Prelude.Int.{ℤ, pos}
use libgomp.Word.{word32}
use libgomp.IterLong.{LongShare, to_unsigned, gomp_iter_dynamic_next}

unfoldable pub gomp_sections_init : ℕ → LongShare
gomp_sections_init count = record {
  mode = true;
  chunk_size = pos 1;
  end = pos (count + 1);
  incr = pos 1;
  next = pos 1;
}

-- The section that a thread is to execute, from 1 on, or 0.
abbrev pub section_of : Option (ℤ × ℤ) → ℕ
section_of none = 0
section_of (some (s, e)) = to_unsigned s % word32

unfoldable pub gomp_sections_next : List ℤ → LongShare → Option (ℕ × LongShare)
gomp_sections_next seen ws = do
  (range, ws') ← gomp_iter_dynamic_next ws seen
  some (section_of range, ws')

-- The first thread sets the work share up, the others find it.
unfoldable pub gomp_sections_start : ℕ → List ℤ → Option LongShare → Option (ℕ × LongShare)
gomp_sections_start count seen none = gomp_sections_next seen (gomp_sections_init count)
gomp_sections_start count seen (some ws) = gomp_sections_next seen ws
