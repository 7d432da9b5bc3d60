-- ===== src/IterUll.antt =====
-- Work-share iteration over `unsigned long long` (libgomp/iter_ull.c): the static, dynamic and
-- guided schedules. All arithmetic wraps at 2 ^ 64.
pub mod Static
pub mod Cover
pub mod Tiles
pub mod Dynamic
pub mod Fetch
pub mod Guided
use libgomp.Prelude.{
  ℕ, zero, suc, ◌+◌, ◌-◌, ◌/◌, ◌%◌, List, [], ◌∷◌, Option, none, some, Bool, true, false, not, ◌&&◌,
  ◌==◌, ltb, leb, if◌then◌else◌,
}
use libgomp.Word.{word64, add64, sub64, mul64}

-- The fields of `struct gomp_work_share` that an `unsigned long long` loop uses.
pub record UllShare : Type 0 where
  pub mode : ℕ
  pub chunk_size : ℕ
  pub end : ℕ
  pub incr : ℕ
  pub next : ℕ

-- `-1` as an `unsigned long`.
abbrev pub last_trip : ℕ
last_trip = word64 - 1

-- What `gomp_iter_ull_static_next` returns: -1, 0 or 1.
pub data Trips : Type 0 where
  finished more nothing : Trips

-- The return value, what was stored in `*pstart` and `*pend`, and the new `static_trip`.
pub record StaticNext : Type 0 where
  pub ret : Trips
  pub range : Option (ℕ × ℕ)
  pub trip : ℕ

-- The total number of iterations: `(end - next + incr - 1) / incr`, or downwards
-- `(next - end - incr - 1) / -incr`.
unfoldable pub iteration_count : UllShare → ℕ
iteration_count ws =
    if ws.mode == 0
    then sub64 (add64 (sub64 ws.end ws.next) ws.incr) 1 / ws.incr
    else sub64 (sub64 (sub64 ws.next ws.end) ws.incr) 1 / sub64 0 ws.incr

-- The zero-based start and end of the one block of thread `i`, of `n` iterations.
unfoldable pub block : ℕ → ℕ → ℕ → ℕ × ℕ
block n nthreads i =
    let q = (if ltb i (n % nthreads) then add64 (n / nthreads) 1 else n / nthreads) in
    let t = (if ltb i (n % nthreads) then 0 else n % nthreads) in
    let s0 = add64 (mul64 q i) t in (s0, add64 s0 q)

-- The zero-based start and end of the chunk of thread `i` on a trip; the end may pass `n`.
unfoldable pub chunk : ℕ → ℕ → ℕ → ℕ → ℕ × ℕ
chunk trip nthreads i c = let s0 = mul64 (add64 (mul64 trip nthreads) i) c in (s0, add64 s0 c)

-- Zero-based numbers as values of the loop variable.
unfoldable pub to_value : UllShare → ℕ → ℕ
to_value ws x = add64 (mul64 x ws.incr) ws.next

-- The branch for `chunk_size == 0`: each thread makes one trip.
unfoldable pub static_block : UllShare → ℕ → ℕ → ℕ × ℕ → StaticNext
static_block ws trip n (s0, e0) =
    if ltb 0 trip
    then record { ret = nothing; range = none; trip = trip }
    else if leb e0 s0
    then record { ret = nothing; range = none; trip = 1 }
    else record {
      ret = more;
      range = some (to_value ws s0, to_value ws e0);
      trip = if e0 == n then last_trip else 1;
    }

-- The other branch: a chunk on each trip.
unfoldable pub static_chunk : UllShare → ℕ → ℕ → ℕ × ℕ → StaticNext
static_chunk ws trip n (s0, e) =
    let e0 = (if ltb n e then n else e) in
    if leb n s0 then record { ret = nothing; range = none; trip = trip } else record {
      ret = more;
      range = some (to_value ws s0, to_value ws e0);
      trip = if e0 == n then last_trip else add64 trip 1;
    }

unfoldable pub gomp_iter_ull_static_next : ℕ → ℕ → ℕ → UllShare → StaticNext
gomp_iter_ull_static_next nthreads i trip ws =
    if trip == last_trip
    then record { ret = finished; range = none; trip = trip }
    else if nthreads == 1
    then record {
      ret = if ws.next == ws.end then nothing else more;
      range = some (ws.next, ws.end);
      trip = last_trip;
    }
    else if ws.chunk_size == 0
    then static_block ws trip (iteration_count ws) (block (iteration_count ws) nthreads i)
    else static_chunk ws trip (iteration_count ws) (chunk trip nthreads i ws.chunk_size)

-- `*pstart` and `*pend`, or `false`, and the share.
abbrev pub Grab : Type 0
Grab = Option (ℕ × ℕ) × UllShare

-- `if (mode & 2) { if (chunk < left) chunk = left; } else { if (chunk > left) chunk = left; }`
unfoldable pub clip : UllShare → ℕ → ℕ → ℕ
clip ws size left =
    if ws.mode / 2 % 2 == 1
    then (if ltb size left then left else size)
    else (if ltb left size then left else size)

unfoldable pub gomp_iter_ull_dynamic_next_locked : UllShare → Grab
gomp_iter_ull_dynamic_next_locked ws =
    if ws.next == ws.end
    then (none, ws)
    else (let e = add64 ws.next (clip ws ws.chunk_size (sub64 ws.end ws.next)) in
        (some (ws.next, e), record ws { next = e }))

-- `__sync_fetch_and_add`, then the bounds of what was fetched.
unfoldable pub fetch_chunk : UllShare → Grab
fetch_chunk ws =
    let nend = add64 ws.next ws.chunk_size in
    let ws' : UllShare = record ws { next = nend } in
    if ws.mode / 2 % 2 == 0
    then (if leb ws.end ws.next
        then (none, ws')
        else (some (ws.next, if ltb ws.end nend then ws.end else nend), ws'))
    else (if leb ws.next ws.end
        then (none, ws')
        else (some (ws.next, if ltb nend ws.end then ws.end else nend), ws'))

-- The `while (1)` of the compare-and-swap: `seen` are the values that the thread finds in `next` on
-- its attempts, where other threads have written meanwhile. `none` is a loop that has not ended.
unfoldable pub cas_chunk : UllShare → ℕ → ℕ → List ℕ → Option Grab
cas_chunk ws size start [] = none
cas_chunk ws size start (found ∷ seen) =
    let size' = clip ws size (sub64 ws.end start) in
    let retry = cas_chunk ws size' found seen in
    if start == ws.end
    then some (none, record ws { next = found })
    else if found == start
    then some (some (start, add64 start size'), record ws { next = add64 start size' })
    else retry

unfoldable pub gomp_iter_ull_dynamic_next : UllShare → List ℕ → Option Grab
gomp_iter_ull_dynamic_next ws seen =
    if ws.mode % 2 == 1 then some (fetch_chunk ws) else cas_chunk ws ws.chunk_size ws.next seen

-- The iterations left, and the guided share of them: `q = (n + nthreads - 1) / nthreads`.
unfoldable pub iterations_left : UllShare → ℕ → ℕ
iterations_left ws start =
    if ws.mode == 0 then sub64 ws.end start / ws.incr else sub64 start ws.end / sub64 0 ws.incr

unfoldable pub guided_end : UllShare → ℕ → ℕ → ℕ
guided_end ws nthreads start =
    let n = iterations_left ws start in
    let share = sub64 (add64 n nthreads) 1 / nthreads in
    let q = (if ltb share ws.chunk_size then ws.chunk_size else share) in
    if leb q n then add64 start (mul64 q ws.incr) else ws.end

unfoldable pub gomp_iter_ull_guided_next_locked : ℕ → UllShare → Grab
gomp_iter_ull_guided_next_locked nthreads ws = if ws.next == ws.end then (none, ws) else (
  some (ws.next, guided_end ws nthreads ws.next),
  record ws { next = guided_end ws nthreads ws.next },
)

unfoldable pub cas_guided : ℕ → UllShare → ℕ → List ℕ → Option Grab
cas_guided nthreads ws start [] = none
cas_guided nthreads ws start (found ∷ seen) =
    let retry = cas_guided nthreads ws found seen in
    if start == ws.end
    then some (none, record ws { next = found })
    else if found == start
    then some (
      some (start, guided_end ws nthreads start),
      record ws { next = guided_end ws nthreads start },
    )
    else retry

unfoldable pub gomp_iter_ull_guided_next : ℕ → UllShare → List ℕ → Option Grab
gomp_iter_ull_guided_next nthreads ws seen = cas_guided nthreads ws ws.next seen
