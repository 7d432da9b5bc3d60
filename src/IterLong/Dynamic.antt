-- ===== src/IterLong/Dynamic.antt =====
-- The dynamic schedule over `long` (libgomp/iter.c), up and down: the ranges of a whole loop.
use libgomp.Prelude.{ℕ, ◌+◌, ◌≡◌, ap, ◌∙◌, inl, inr, arith, Returns}
use libgomp.Prelude.Int.{ℤ, pos, ◌≤ℤ◌, ◌+ℤ◌, ◌*ℤ◌}
use libgomp.IterLong.{LongShare, eq_ℤ, gomp_iter_dynamic_next_locked}
use libgomp.IterLong.Tiles.{
  TilesByLong, StopsLong, take_all_long, Open, GrabsLong, take_all_long-TilesLong,
}
use libgomp.IterLong.Cas.{
  ◌<ℤ◌, Toward, Taken, IsAhead, ahead_up, ahead_down, dynamic_locked-Toward, pick_true,
}
use libgomp.IterLong.Count.{dist}
use libgomp.IterLong.Guided.{eq_ℤ_refl_of}

-- A dynamic loop, whose chunk size has the sign of the step.
pub data IsDynamicLong (ws : LongShare) : Type 0 where
  dynamic_up : pos 0 <ℤ ws.incr → pos 0 <ℤ ws.chunk_size → ws.next ≤ℤ ws.end → IsDynamicLong ws
  dynamic_down : ws.incr <ℤ pos 0 → ws.chunk_size <ℤ pos 0 → ws.end ≤ℤ ws.next → IsDynamicLong ws

-- The chunk size is a whole number of steps.
pub record IsSteppedLong (ws : LongShare) : Type 0 where
  pub dynamic : IsDynamicLong ws
  pub scaled : (c : ℕ) × (ws.chunk_size ≡ pos c *ℤ ws.incr)

Taken-StopsLong :
    (ws : LongShare) (e : ℤ)
    → IsSteppedLong ws
    → Taken ws.next e ws.end ws.chunk_size
    → StopsLong ws.incr ws.next e ws.end
Taken-StopsLong ws e g (inl h) = inl h
Taken-StopsLong ws e g (inr h) = let (c, s) = g.scaled in inr (c, h ∙ ap (λ z. ws.next +ℤ z) s)

ahead : (ws : LongShare) → IsDynamicLong ws → Open ws → IsAhead ws
ahead ws (dynamic_up s c f) o = ahead_up s c (omega arith)
ahead ws (dynamic_down s c f) o = ahead_down s c (omega arith)

IsDynamicLong-on :
    (ws : LongShare) (e : ℤ)
    → IsDynamicLong ws
    → Toward ws.next e ws.end
    → IsDynamicLong (record ws { next = e })
IsDynamicLong-on ws e (dynamic_up s c f) t = dynamic_up s c (omega arith)
IsDynamicLong-on ws e (dynamic_down s c f) t = dynamic_down s c (omega arith)

dynamic-GrabsLong : GrabsLong IsSteppedLong gomp_iter_dynamic_next_locked
unfolding gomp_iter_dynamic_next_locked
dynamic-GrabsLong ws g = (
  λ e. pick_true (eq_ℤ ws.next ws.end) _ _ (eq_ℤ_refl_of ws.next ws.end e),
  λ o.
      let (e, run, t, taken) = dynamic_locked-Toward ws (ahead ws g.dynamic o) in
      (
        e,
        run,
        t,
        Taken-StopsLong ws e g taken,
        record { dynamic = IsDynamicLong-on ws e g.dynamic t; scaled = g.scaled },
      ),
)

pub dynamic_long-TilesLong :
    (ws : LongShare)
    → IsSteppedLong ws
    → Returns
        (take_all_long gomp_iter_dynamic_next_locked (dist ws.next ws.end + 1) ws)
        (λ ranges. TilesByLong ws.incr ws.next ranges ws.end)
dynamic_long-TilesLong ws g =
    take_all_long-TilesLong IsSteppedLong gomp_iter_dynamic_next_locked dynamic-GrabsLong
      (dist ws.next ws.end + 1) ws g (omega arith)
