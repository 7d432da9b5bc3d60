-- ===== src/LoopUll/Turns.antt =====
-- Loops with an ORDERED region (libgomp/loop_ull.c): the threads that have a range stand in the line.
use libgomp.Prelude.{
  ℕ, ◌+◌, ◌<◌, ◌≡◌, refl, ◌≢◌, sym, List, [], ◌∷◌, ◌++◌, Option, none, some, Bool, true, false,
  arith, ◌>>=◌, Returns, Returns-bind, ◌!◌, length, length-replicate,
}
use mathlib.Core.Path.{subst}
use libgomp.Word.{word32}
use libgomp.IterUll.{
  UllShare, Grab, gomp_iter_ull_dynamic_next_locked, gomp_iter_ull_guided_next_locked,
}
use libgomp.Ordered.{
  Sync, proceeds, blocks, gomp_ordered_first, gomp_ordered_last, gomp_ordered_next,
  gomp_ordered_sync,
}
use libgomp.Ordered.Refine.{Refines, first-Refines}
use libgomp.Ordered.Pass.{last-Refines, next-Refines}
use libgomp.Ordered.Synced.{Synced, sync-Synced}
use libgomp.LoopUll.Init.{Sched, dynamic, guided, LoopArgs}
use libgomp.LoopUll.{
  Construct, Thread, Served, Step, blocked, served, fresh_line, new_ordered_loop, enter, serve,
  join_line, synced, pass_line, gomp_loop_ull_ordered_dynamic_start,
  gomp_loop_ull_ordered_guided_start, gomp_loop_ull_ordered_dynamic_next,
  gomp_loop_ull_ordered_guided_next,
}

-- A new line is empty, if the semaphores of the team have no posts left.
pub fresh_line-Refines :
    (n : ℕ) (release : List ℕ)
    → 1 < n
    → n + n < word32
    → length release ≡ n
    → ((t : ℕ) → t < n → release ! t ≡ 0)
    → Refines n (fresh_line (some n) release) [] false
unfolding fresh_line
fresh_line-Refines n release several small cells zeros = record {
  is_ring = record {
    several = several;
    small = small;
    cells = length-replicate n 0;
    cur-lt = omega arith;
    used_le = omega arith;
  };
  line = refl;
  members = tt;
  owns = refl;
  counts = cells;
  posts = zeros;
}

-- The line after a thread has asked for its first range.
abbrev pub line_after : Option (ℕ × ℕ) → List ℕ → ℕ → List ℕ
line_after none q tid = q
line_after (some p) q tid = q ++ tid ∷ []

-- The outcome is that of the locked function, and a thread with a range has joined the line.
abbrev pub Joins : ℕ → List ℕ → Bool → ℕ → Grab → Served → Type 0
Joins n q held tid g s =
    (s.range ≡ g.0) × (s.share.ws ≡ g.1) × Refines n s.share.line (line_after g.0 q tid) held

-- The line after its head, which has executed a range, has asked for another.
abbrev pub line_past : Option (ℕ × ℕ) → ℕ → List ℕ → List ℕ
line_past none h q = q
line_past (some p) h q = q ++ h ∷ []

-- Only the head is served, and it has passed the region on.
abbrev pub Passes : ℕ → ℕ → ℕ → List ℕ → Grab → Step → Type 0
Passes n tid h q g blocked = tid ≢ h
Passes n tid h q g (served s) =
    (tid ≡ h)
    × (s.range ≡ g.0)
    × (s.share.ws ≡ g.1)
    × Refines n s.share.line (line_past g.0 h q) false

-- The construct that a thread finds, or makes if it is the first.
abbrev pub entered : ℕ → List ℕ → LoopArgs → Sched → Option Construct → Construct
entered n release a sched none = new_ordered_loop (some n) release a sched
entered n release a sched (some c) = c

enter_lem :
    (n : ℕ) (release : List ℕ) (a : LoopArgs) (sched : Sched) (found : Option Construct)
    (body : Construct → Option Served)
    → (enter found (some (new_ordered_loop (some n) release a sched)) >>= body)
      ≡ body (entered n release a sched found)
enter_lem n release a sched none body = refl
enter_lem n release a sched (some c) body = refl

module _ (n : ℕ) (release : List ℕ) (a : LoopArgs) (found : Option Construct) (thr : Thread) where
  join_line-Joins :
      (c : Construct) (q : List ℕ) (held : Bool) (g : Grab)
      → Refines n c.line q held
      → thr.id < n
      → c.line.num_used < n
      → (q ≡ [] → held ≡ false)
      → Returns (join_line (some n) release a found thr c g) (Joins n q held thr.id g)
  unfolding join_line
  join_line-Joins c q held (none, ws) r h room e = (refl, refl, r)
  join_line-Joins c q held (some p, ws) r h room e =
      Returns-bind (λ line. Refines n line (q ++ thr.id ∷ []) held)
        (Joins n q held thr.id (some p, ws)) (gomp_ordered_first (some n) thr.id c.line) _
        (first-Refines n c.line thr.id q held r h room e) (λ line r'. (refl, refl, r'))

  ordered_dynamic_start-Joins :
      (q : List ℕ) (held : Bool)
      → Refines n (entered n release a dynamic found).line q held
      → thr.id < n
      → (entered n release a dynamic found).line.num_used < n
      → (q ≡ [] → held ≡ false)
      → Returns (gomp_loop_ull_ordered_dynamic_start (some n) release a found thr) (
          Joins n q held thr.id
            (gomp_iter_ull_dynamic_next_locked (entered n release a dynamic found).ws))
  unfolding gomp_loop_ull_ordered_dynamic_start
  ordered_dynamic_start-Joins q held r h room e =
      rw (enter_lem n release a dynamic found _)
        (join_line-Joins (entered n release a dynamic found) q held _ r h room e)

  ordered_guided_start-Joins :
      (q : List ℕ) (held : Bool)
      → Refines n (entered n release a guided found).line q held
      → thr.id < n
      → (entered n release a guided found).line.num_used < n
      → (q ≡ [] → held ≡ false)
      → Returns (gomp_loop_ull_ordered_guided_start (some n) release a found thr) (
          Joins n q held thr.id
            (gomp_iter_ull_guided_next_locked n (entered n release a guided found).ws))
  unfolding gomp_loop_ull_ordered_guided_start
  ordered_guided_start-Joins q held r h room e =
      rw (enter_lem n release a guided found _)
        (join_line-Joins (entered n release a guided found) q held _ r h room e)

  entered_line : (entered n release a dynamic found).line ≡ (entered n release a guided found).line
  unfolding new_ordered_loop
  entered_line = same found
    where
      same :
          (found : Option Construct)
          → (entered n release a dynamic found).line ≡ (entered n release a guided found).line
      same none = refl
      same (some c) = refl

  -- Let the queue of the construct that the thread finds, or makes if it is the first, stand for
  -- the line `q`, held by its head or not, an empty line not held, with room in the array; the
  -- thread is one of the team, whose size is the array's. Then
  -- `gomp_loop_ull_ordered_dynamic_start` returns what `gomp_iter_ull_dynamic_next_locked`
  -- returns on that construct, and the queue it leaves stands for `q`, with the thread behind it
  -- if it got a range, and is held as before; and so do `gomp_loop_ull_ordered_guided_start` and
  -- `gomp_iter_ull_guided_next_locked`.
  pub ordered_start-Joins :
      (q : List ℕ) (held : Bool)
      → Refines n (entered n release a dynamic found).line q held
      → thr.id < n
      → (entered n release a dynamic found).line.num_used < n
      → (q ≡ [] → held ≡ false)
      → Returns (gomp_loop_ull_ordered_dynamic_start (some n) release a found thr) (
          Joins n q held thr.id
            (gomp_iter_ull_dynamic_next_locked (entered n release a dynamic found).ws))
        × Returns (gomp_loop_ull_ordered_guided_start (some n) release a found thr) (
            Joins n q held thr.id
              (gomp_iter_ull_guided_next_locked n (entered n release a guided found).ws))
  ordered_start-Joins q held r h room e = (
    ordered_dynamic_start-Joins q held r h room e,
    ordered_guided_start-Joins q held (subst (λ l. Refines n l q held) entered_line r) h
        (subst (λ l. l.num_used < n) entered_line room) e,
  )

module _ (n : ℕ) (thr : Thread) (h : ℕ) (q : List ℕ) where
  pass_line-Passes :
      (c : Construct) (g : Grab)
      → thr.id ≡ h
      → Refines n c.line (h ∷ q) true
      → Returns (pass_line (some n) thr c g >>= λ r. some (served r)) (Passes n thr.id h q g)
  unfolding pass_line
  pass_line-Passes c (none, ws) e r =
      Returns-bind (λ s. Passes n thr.id h q (none, ws) (served s)) (Passes n thr.id h q (none, ws))
        (gomp_ordered_last (some n) c.line >>= λ line.
          some (serve thr (record c { line = line }) (none, ws)))
        _
        (Returns-bind (λ line. Refines n line q false)
          (λ s. Passes n thr.id h q (none, ws) (served s)) (gomp_ordered_last (some n) c.line) _
          (last-Refines n c.line h q r) (λ line r'. (e, refl, refl, r')))
        (λ s p. p)
  pass_line-Passes c (some b, ws) e r =
      Returns-bind (λ s. Passes n thr.id h q (some b, ws) (served s))
        (Passes n thr.id h q (some b, ws))
        (gomp_ordered_next (some n) thr.id c.line >>= λ line.
          some (serve thr (record c { line = line }) (some b, ws)))
        _
        (Returns-bind (λ line. Refines n line (q ++ h ∷ []) false)
          (λ s. Passes n thr.id h q (some b, ws) (served s))
          (gomp_ordered_next (some n) thr.id c.line) _
          (subst
            (λ t.
              Returns (gomp_ordered_next (some n) t c.line)
                (λ line. Refines n line (q ++ h ∷ []) false))
            (sym e) (next-Refines n c.line h q r))
          (λ line r'. (e, refl, refl, r')))
        (λ s p. p)

  module _ (c : Construct) (held : Bool) (r : Refines n c.line (h ∷ q) held)
      (member : thr.id < n) where
    synced-Passes :
        (g : UllShare → Grab)
        → Returns
            (synced (some n) thr c λ c'. pass_line (some n) thr c' (g c'.ws))
            (Passes n thr.id h q (g c.ws))
    synced-Passes g =
        Returns-bind (Synced n thr.id h q) (Passes n thr.id h q (g c.ws))
          (gomp_ordered_sync (some n) thr.id c.line) _
          (sync-Synced n c.line thr.id h q held r member) after_sync
      where
        after_sync :
            (s : Sync)
            → Synced n thr.id h q s
            → Returns
                (elim s [
                  | blocks ↦ some blocked
                  | proceeds line ↦
                      pass_line (some n) thr (record c { line = line }) (g c.ws) >>= λ r.
                      some (served r)
                ])
                (Passes n thr.id h q (g c.ws))
        after_sync (proceeds line) p = pass_line-Passes (record c { line = line }) (g c.ws) p.0 p.1
        after_sync blocks p = p

    ordered_dynamic_next-Passes :
        Returns
          (gomp_loop_ull_ordered_dynamic_next (some n) thr c)
          (Passes n thr.id h q (gomp_iter_ull_dynamic_next_locked c.ws))
    unfolding gomp_loop_ull_ordered_dynamic_next
    ordered_dynamic_next-Passes = synced-Passes gomp_iter_ull_dynamic_next_locked

    ordered_guided_next-Passes :
        Returns
          (gomp_loop_ull_ordered_guided_next (some n) thr c)
          (Passes n thr.id h q (gomp_iter_ull_guided_next_locked n c.ws))
    unfolding gomp_loop_ull_ordered_guided_next
    ordered_guided_next-Passes = synced-Passes (gomp_iter_ull_guided_next_locked n)

    -- Let the queue stand for a line with the head `h`. If `h` calls
    -- `gomp_loop_ull_ordered_dynamic_next`, it is served what
    -- `gomp_iter_ull_dynamic_next_locked` returns, and the queue then stands for the line with
    -- `h` moved behind the others if it got a range, and without `h` otherwise, not held; any
    -- other thread of the team blocks. The same holds of `gomp_loop_ull_ordered_guided_next`
    -- and `gomp_iter_ull_guided_next_locked`.
    pub ordered_next-Passes :
        Returns
          (gomp_loop_ull_ordered_dynamic_next (some n) thr c)
          (Passes n thr.id h q (gomp_iter_ull_dynamic_next_locked c.ws))
        × Returns
            (gomp_loop_ull_ordered_guided_next (some n) thr c)
            (Passes n thr.id h q (gomp_iter_ull_guided_next_locked n c.ws))
    ordered_next-Passes = (ordered_dynamic_next-Passes, ordered_guided_next-Passes)
