-- ===== src/IterLong.antt =====
-- The static, dynamic and guided schedules over `long` (libgomp/iter.c). Signed overflow is
-- undefined in C: products by the step wrap here, and other sums are integers without bounds.
pub mod Cas
pub mod Count
pub mod Static
pub mod Tiles
pub mod Wrap
pub mod Guided
pub mod Dynamic
use libgomp.Prelude.{
  ℕ, zero, suc, ◌+◌, ◌-◌, ◌*◌, ◌/◌, ◌%◌, ◌^◌, List, [], ◌∷◌, Option, none, some, Bool, true, false,
  ◌==◌, ltb, leb, if◌then◌else◌,
}
use libgomp.Prelude.Int.{ℤ, pos, negsuc, ◌+ℤ◌, ◌-ℤ◌, ◌*ℤ◌, ltb_ℤ, quot_ℤ}
use libgomp.Word.{word64, add64, sub64, mul64}
use libgomp.IterUll.{last_trip, Trips, finished, more, nothing, block, chunk}

-- The fields of `struct gomp_work_share` that the schedule uses. `mode` is the flag for
-- fetch-and-add.
pub record LongShare : Type 0 where
  pub mode : Bool
  pub chunk_size : ℤ
  pub end : ℤ
  pub incr : ℤ
  pub next : ℤ

-- `a == b` on `long`
abbrev pub eq_ℤ : ℤ → ℤ → Bool
eq_ℤ a b = if ltb_ℤ a b then false else if ltb_ℤ b a then false else true

-- `*pstart` and `*pend`, or `false`, and the share.
abbrev pub LongGrab : Type 0
LongGrab = Option (ℤ × ℤ) × LongShare

-- `if (ws->incr < 0) { if (chunk < left) chunk = left; } else { if (chunk > left) chunk = left; }`
unfoldable pub clip_long : LongShare → ℤ → ℤ → ℤ
clip_long ws size left =
    if ltb_ℤ ws.incr (pos 0)
    then (if ltb_ℤ size left then left else size)
    else (if ltb_ℤ left size then left else size)

unfoldable pub gomp_iter_dynamic_next_locked : LongShare → LongGrab
gomp_iter_dynamic_next_locked ws =
    if eq_ℤ ws.next ws.end
    then (none, ws)
    else (let e = ws.next +ℤ clip_long ws ws.chunk_size (ws.end -ℤ ws.next) in
        (some (ws.next, e), record ws { next = e }))

-- `__sync_fetch_and_add`, then the bounds of what was fetched.
unfoldable pub fetch_long : LongShare → LongGrab
fetch_long ws =
    let nend = ws.next +ℤ ws.chunk_size in
    let ws' : LongShare = record ws { next = nend } in
    if ltb_ℤ (pos 0) ws.incr
    then (if ltb_ℤ ws.next ws.end
        then (some (ws.next, if ltb_ℤ ws.end nend then ws.end else nend), ws')
        else (none, ws'))
    else (if ltb_ℤ ws.end ws.next
        then (some (ws.next, if ltb_ℤ nend ws.end then ws.end else nend), ws')
        else (none, ws'))

-- The `while (1)` of the compare-and-swap: `seen` are the values that the thread finds in `next`.
unfoldable pub cas_long : LongShare → ℤ → ℤ → List ℤ → Option LongGrab
cas_long ws size start [] = none
cas_long ws size start (found ∷ seen) =
    let size' = clip_long ws size (ws.end -ℤ start) in
    let retry = cas_long ws size' found seen in
    if eq_ℤ start ws.end
    then some (none, record ws { next = found })
    else if eq_ℤ found start
    then some (some (start, start +ℤ size'), record ws { next = start +ℤ size' })
    else retry

unfoldable pub gomp_iter_dynamic_next : LongShare → List ℤ → Option LongGrab
gomp_iter_dynamic_next ws seen =
    if ws.mode then some (fetch_long ws) else cas_long ws ws.chunk_size ws.next seen

-- A `long` as an `unsigned long`, and the other way.
abbrev pub to_unsigned : ℤ → ℕ
to_unsigned (pos n) = n % word64
to_unsigned (negsuc n) = word64 - 1 - n % word64

abbrev pub to_long : ℕ → ℤ
to_long n = if ltb n (word64 / 2) then pos n else negsuc (word64 - 1 - n)

-- The return value, what was stored in `*pstart` and `*pend`, and the new `static_trip`.
pub record LongNext : Type 0 where
  pub ret : Trips
  pub range : Option (ℤ × ℤ)
  pub trip : ℕ

-- The total number of iterations, `(end - next + s) / incr`, where `s` is `incr` less its sign.
unfoldable pub count_long : LongShare → ℕ
count_long ws =
    let s = ws.incr +ℤ (if ltb_ℤ (pos 0) ws.incr then negsuc 0 else pos 1) in
    to_unsigned (quot_ℤ (ws.end -ℤ ws.next +ℤ s) ws.incr)

-- The `long` with the same value modulo 2 ^ 64.
unfoldable pub wrap_long : ℤ → ℤ
wrap_long z = to_long (to_unsigned z)

-- `(long) s0 * ws->incr + ws->next`
unfoldable pub to_actual : LongShare → ℕ → ℤ
to_actual ws x = wrap_long (wrap_long (to_long x *ℤ ws.incr) +ℤ ws.next)

-- The branch for `chunk_size == 0`, with the zero-based block of the thread.
unfoldable pub block_long : LongShare → ℕ → ℕ → ℕ × ℕ → LongNext
block_long ws trip n (s0, e0) =
    if ltb 0 trip
    then record { ret = nothing; range = none; trip = trip }
    else if leb e0 s0
    then record { ret = nothing; range = none; trip = 1 }
    else record {
      ret = more;
      range = some (to_actual ws s0, to_actual ws e0);
      trip = if e0 == n then last_trip else 1;
    }

-- The other branch, with the zero-based chunk of the thread on this trip.
unfoldable pub chunk_long : LongShare → ℕ → ℕ → ℕ × ℕ → LongNext
chunk_long ws trip n (s0, e) =
    let e0 = (if ltb n e then n else e) in
    if leb n s0 then record { ret = nothing; range = none; trip = trip } else record {
      ret = more;
      range = some (to_actual ws s0, to_actual ws e0);
      trip = if e0 == n then last_trip else add64 trip 1;
    }

-- `i` is the thread's number in its team, and `trip` its `static_trip`.
unfoldable pub gomp_iter_static_next : ℕ → ℕ → ℕ → LongShare → LongNext
gomp_iter_static_next nthreads i trip ws =
    if trip == last_trip
    then record { ret = finished; range = none; trip = trip }
    else if nthreads == 1
    then record {
      ret = if eq_ℤ ws.next ws.end then nothing else more;
      range = some (ws.next, ws.end);
      trip = last_trip;
    }
    else if eq_ℤ ws.chunk_size (pos 0)
    then block_long ws trip (count_long ws) (block (count_long ws) nthreads i)
    else chunk_long ws trip (count_long ws) (chunk trip nthreads i (to_unsigned ws.chunk_size))

-- The end of the guided share: `q` is `unsigned long`, and so is `start + q * ws->incr`.
unfoldable pub guided_end_long : LongShare → ℕ → ℤ → ℤ
guided_end_long ws nthreads start =
    let n = to_unsigned (quot_ℤ (ws.end -ℤ start) ws.incr) in
    let share = sub64 (add64 n nthreads) 1 / nthreads in
    let size = to_unsigned ws.chunk_size in
    let q = (if ltb share size then size else share) in
    if leb q n then to_long (add64 (to_unsigned start) (mul64 q (to_unsigned ws.incr))) else ws.end

unfoldable pub gomp_iter_guided_next_locked : ℕ → LongShare → LongGrab
gomp_iter_guided_next_locked nthreads ws = if eq_ℤ ws.next ws.end then (none, ws) else (
  some (ws.next, guided_end_long ws nthreads ws.next),
  record ws { next = guided_end_long ws nthreads ws.next },
)

-- The `while (1)` of the compare-and-swap, as above.
unfoldable pub cas_guided_long : ℕ → LongShare → ℤ → List ℤ → Option LongGrab
cas_guided_long nthreads ws start [] = none
cas_guided_long nthreads ws start (found ∷ seen) =
    let retry = cas_guided_long nthreads ws found seen in
    if eq_ℤ start ws.end
    then some (none, record ws { next = found })
    else if eq_ℤ found start
    then some (
      some (start, guided_end_long ws nthreads start),
      record ws { next = guided_end_long ws nthreads start },
    )
    else retry

unfoldable pub gomp_iter_guided_next : ℕ → LongShare → List ℤ → Option LongGrab
gomp_iter_guided_next nthreads ws seen = cas_guided_long nthreads ws ws.next seen
