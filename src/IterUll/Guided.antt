-- ===== src/IterUll/Guided.antt =====
-- The guided schedule of libgomp/iter_ull.c, under the lock and by compare-and-swap.
use libgomp.Prelude.{
  ℕ, ◌+◌, ◌-◌, ◌*◌, ◌/◌, ◌≤◌, ◌<◌, ◌≡◌, refl, sym, ◌∙◌, List, [], ◌∷◌, none, some, arith, ltb, leb,
  if◌then◌else◌, eq→==, ne→==, le→leb, not-le→leb, dec_le, ℕ_discrete, Returns, ◌⊎◌, inl, inr,
}
use native.Mathlib.Nat.{div-add-mod'}
use libgomp.Word.{word64, add64, sub64, mul64, add64_exact, sub64_exact, mul64_exact}
use libgomp.IterUll.Static.{mul_mono}
use libgomp.IterUll.{
  UllShare, iterations_left, guided_end, gomp_iter_ull_guided_next_locked, cas_guided,
}
use libgomp.IterUll.Tiles.{some_inj, TilesBy, Stops, take_all, Grabs, take_all-Tiles}

-- A guided loop that counts up.
pub record IsGuided (ws : UllShare) : Type 0 where
  pub up : ws.mode ≡ 0
  pub forward : ws.next ≤ ws.end
  pub fits : ws.end < word64
  pub some_chunk : 0 < ws.chunk_size
  pub step : 0 < ws.incr

-- The end stays within the loop whatever the share is, for the chunk size is positive.
module _ (ws : UllShare) (g : IsGuided ws) (lt : ws.next < ws.end) (nthreads : ℕ) where
  abbrev left : ℕ
  left = (ws.end - ws.next) / ws.incr

  abbrev share : ℕ
  share = sub64 (add64 left nthreads) 1 / nthreads

  abbrev taken : ℕ
  taken = if ltb share ws.chunk_size then ws.chunk_size else share

  taken_pos : 0 < taken
  taken_pos = ground (arith, g.some_chunk)

  guided_run :
      guided_end ws nthreads ws.next
      ≡ (if leb taken left then add64 ws.next (mul64 taken ws.incr) else ws.end)
  unfolding guided_end iterations_left
  guided_run = rw (eq→== ws.mode 0 g.up, sub64_exact ws.end ws.next g.forward g.fits)

  inside : taken ≤ left → taken * ws.incr ≤ ws.end - ws.next
  inside l = omega (arith, mul_mono taken left ws.incr l, div-add-mod' (ws.end - ws.next) ws.incr)

  -- The share, or all that is left.
  guided_exact :
      ((taken ≤ left) × (guided_end ws nthreads ws.next ≡ ws.next + taken * ws.incr))
      ⊎ (guided_end ws nthreads ws.next ≡ ws.end)
  guided_exact = elim (dec_le taken left) [
    | yes l ↦ inl (
      l,
      guided_run
          ∙ rw
              (
                le→leb taken left l,
                mul64_exact taken ws.incr (omega (arith, inside l, g.fits)),
                add64_exact ws.next (taken * ws.incr) (omega (arith, inside l, g.fits)),
              )
              refl,
    )
    | no m ↦ inr (guided_run ∙ rw (not-le→leb taken left m) refl)
  ]

  pub guided_bounds :
      (ws.next < guided_end ws nthreads ws.next)
      × (guided_end ws nthreads ws.next ≤ ws.end)
      × Stops ws.incr ws.next (guided_end ws nthreads ws.next) ws.end
  guided_bounds = elim guided_exact [
    | inl (l, e) ↦ (
      omega (arith, mul_mono 1 taken ws.incr taken_pos, g.step),
      omega (arith, inside l),
      inr (taken, e),
    )
    | inr e ↦ (omega arith, omega arith, inl e)
  ]

gomp_iter_ull_guided_next_locked-Grabs :
    (nthreads : ℕ) → Grabs IsGuided (gomp_iter_ull_guided_next_locked nthreads)
unfolding gomp_iter_ull_guided_next_locked
gomp_iter_ull_guided_next_locked-Grabs nthreads ws g = (
  λ e. rw (eq→== ws.next ws.end e),
  λ h.
      let (lo, hi, stop) = guided_bounds ws g h nthreads in
      (
        guided_end ws nthreads ws.next,
        rw (ne→== ws.next ws.end (omega arith)),
        lo,
        hi,
        stop,
        record { up = g.up; forward = hi; fits = g.fits; some_chunk = g.some_chunk; step = g.step },
      ),
)

-- In an upward guided loop with a positive chunk size and step whose end is below 2 ^ 64, for any
-- number of threads, calls of `gomp_iter_ull_guided_next_locked`, repeated until one is refused,
-- end, and cut the values into consecutive, nonempty ranges from the start of the loop to its end,
-- which start at values of the loop variable.
pub guided_locked-Tiles :
    (nthreads : ℕ) (ws : UllShare)
    → IsGuided ws
    → Returns
        (take_all (gomp_iter_ull_guided_next_locked nthreads) (ws.end + 1) ws)
        (λ ranges. TilesBy ws.incr ws.next ranges ws.end)
guided_locked-Tiles nthreads ws g =
    take_all-Tiles IsGuided (gomp_iter_ull_guided_next_locked nthreads)
      (gomp_iter_ull_guided_next_locked-Grabs nthreads) (ws.end + 1) ws g g.forward (omega arith)

guided_end_at :
    (ws : UllShare) (nthreads start v : ℕ)
    → guided_end ws nthreads start ≡ guided_end (record ws { next = v }) nthreads start
unfolding guided_end iterations_left
guided_end_at ws nthreads start v = refl

guided_taken :
    (ws : UllShare) (nthreads v : ℕ)
    → (v ≡ ws.end → ⊥)
    → (some (v, guided_end ws nthreads v), record ws { next = guided_end ws nthreads v })
      ≡ gomp_iter_ull_guided_next_locked nthreads (record ws { next = v })
unfolding gomp_iter_ull_guided_next_locked
guided_taken ws nthreads v ne = rw (ne→== v ws.end ne, guided_end_at ws nthreads v v) refl

-- Whatever other threads write to `next` meanwhile, a range that the compare-and-swap loop of the
-- guided schedule returns, with the share it leaves, is the result of
-- `gomp_iter_ull_guided_next_locked` at some value of `next`.
pub cas_guided-locked :
    (nthreads : ℕ) (ws : UllShare) (start : ℕ) (seen : List ℕ) (a b : ℕ) (ws' : UllShare)
    → cas_guided nthreads ws start seen ≡ some (some (a, b), ws')
    → (v : ℕ) × ((some (a, b), ws')
        ≡ gomp_iter_ull_guided_next_locked nthreads (record ws { next = v }))
unfolding cas_guided
cas_guided-locked nthreads ws start [] a b ws' e = absurd (cc e)
cas_guided-locked nthreads ws start (found ∷ seen) a b ws' e = elim (ℕ_discrete start ws.end) [
  | yes stop ↦
      let e' : some (none, record ws { next = found }) ≡ some (some (a, b), ws') =
        rw (eq→== start ws.end stop) at e in
      absurd (cc e')
  | no more ↦ elim (ℕ_discrete found start) [
    | yes same ↦
        let e' : some (
          some (start, guided_end ws nthreads start),
          record ws { next = guided_end ws nthreads start },
        )
            ≡ some (some (a, b), ws') =
          rw (ne→== start ws.end more, eq→== found start same) at e in
        (start, sym (some_inj _ _ e') ∙ guided_taken ws nthreads start more)
    | no lost ↦
        cas_guided-locked nthreads ws found seen a b ws'
          (rw (ne→== start ws.end more, ne→== found start lost) at e)
  ]
]
