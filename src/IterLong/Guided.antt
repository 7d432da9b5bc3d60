-- ===== src/IterLong/Guided.antt =====
-- The guided schedule over `long` (libgomp/iter.c), up and down.
use libgomp.Prelude.{
  ℕ, zero, suc, ◌+◌, ◌*◌, ◌/◌, ◌^◌, ◌≤◌, ◌<◌, ◌≡◌, refl, sym, ap, ◌∙◌, inl, inr, true, arith, ltb,
  leb, if◌then◌else◌, not-le→leb, le→leb, dec_le, Returns,
}
use mathlib.Core.Path.{subst, ap₂}
use native.Mathlib.Nat.{div-add-mod', div-le_self, mod-eq_of_lt}
use libgomp.Prelude.Int.{ℤ, pos, negsuc, neg_ℕ, int_laws, ◌+ℤ◌, ◌-ℤ◌, quot_ℤ, IsLong}
use libgomp.Word.{add64, sub64}
use libgomp.IterUll.Static.{mul_mono}
use libgomp.IterLong.{LongShare, to_unsigned, guided_end_long, gomp_iter_guided_next_locked, eq_ℤ}
use libgomp.IterLong.Tiles.{
  TilesByLong, StopsLong, take_all_long, Open, GrabsLong, take_all_long-TilesLong,
}
use libgomp.IterLong.Cas.{◌<ℤ◌, Toward, eq_ℤ_refl, eq_false, pick, pick_true}
use libgomp.IterLong.Count.{
  IsLoop, loop_up, loop_down, Shape, loop-Shape, size, dist, neg-parts, scale_up, scale_neg,
}
use libgomp.IterLong.Wrap.{step_on, share_up, share_down}

pub record IsGuidedLong (ws : LongShare) : Type 0 where
  pub loop : IsLoop ws
  pub start_fits : IsLong ws.next
  pub end_fits : IsLong ws.end
  pub some_chunk : pos 0 <ℤ ws.chunk_size
  pub chunk_fits : ws.chunk_size <ℤ pos (2 ^ 63)

quot_down : (a k : ℕ) → 0 < k → quot_ℤ (neg_ℕ a) (neg_ℕ k) ≡ pos (a / k)
quot_down a zero m = absurd (omega arith)
quot_down zero (suc k) m = grind arith
quot_down (suc a) (suc k) m = refl

some_chunk_lem : (c : ℤ) → pos 0 <ℤ c → c <ℤ pos (2 ^ 63) → 0 < to_unsigned c
some_chunk_lem (pos n) l h = omega arith
some_chunk_lem (negsuc n) l h = absurd (omega arith)

module _ (ws : LongShare) (g : IsGuidedLong ws) (o : Open ws) (nthreads : ℕ) where
  abbrev k : ℕ
  k = size ws.incr

  abbrev d : ℕ
  d = dist ws.next ws.end

  shape : Shape ws k d
  shape = loop-Shape ws g.loop

  abbrev left : ℕ
  left = to_unsigned (quot_ℤ (ws.end -ℤ ws.next) ws.incr)

  abbrev share : ℕ
  share = sub64 (add64 left nthreads) 1 / nthreads

  abbrev taken : ℕ
  taken = if ltb share (to_unsigned ws.chunk_size) then to_unsigned ws.chunk_size else share

  taken_pos : 0 < taken
  taken_pos = ground (arith, some_chunk_lem ws.chunk_size g.some_chunk g.chunk_fits)

  quot_lem : quot_ℤ (ws.end -ℤ ws.next) ws.incr ≡ pos (d / k)
  quot_lem = elim shape.sign [
    | inl (i, e) ↦
        let far : ws.end -ℤ ws.next ≡ pos d =
          subst (λ z. z -ℤ ws.next ≡ pos d) (sym e) (omega int_laws) in
        ap₂ quot_ℤ far i
    | inr (i, e) ↦
        let far : ws.end -ℤ ws.next ≡ neg_ℕ d =
          subst (λ z. ws.end -ℤ z ≡ neg_ℕ d) (sym e) (omega (int_laws, neg-parts d)) in
        ap₂ quot_ℤ far i ∙ quot_down d k shape.moves
  ]

  left_lem : left ≡ d / k
  left_lem = ap to_unsigned quot_lem ∙ mod-eq_of_lt (omega (arith, div-le_self d k, shape.fits))

  inside_left : taken ≤ left → taken * k ≤ d
  inside_left l = omega (
    arith,
    left_lem,
    mul_mono taken left k l,
    mul_mono left (d / k) k (omega (arith, left_lem)),
    div-add-mod' d k,
  )

  guided_run :
      guided_end_long ws nthreads ws.next
      ≡ (if leb taken left then step_on ws.next taken ws.incr else ws.end)
  unfolding guided_end_long
  guided_run = refl

  -- Where the range may end.
  abbrev Lands : ℤ → Type 0
  Lands e = Toward ws.next e ws.end × StopsLong ws.incr ws.next e ws.end

  whole_way : Lands ws.end
  whole_way = (elim o [ inl l ↦ inl (l, omega arith) | inr l ↦ inr (l, omega arith) ], inl refl)

  part_way : taken ≤ left → Lands (step_on ws.next taken ws.incr)
  part_way l = elim shape.sign [
    | inl (i, e) ↦
        let (run, t) =
          share_up ws.next ws.end k d taken (omega (arith, shape.fits)) taken_pos shape.moves
            (inside_left l) g.start_fits g.end_fits e in
        subst
          (λ z.
            Toward ws.next (step_on ws.next taken z) ws.end
            × StopsLong z ws.next (step_on ws.next taken z) ws.end)
          (sym i) (t, inr (taken, run ∙ ap (λ z. ws.next +ℤ z) (sym (scale_up taken k))))
    | inr (i, e) ↦
        let (run, t) =
          share_down ws.next ws.end k d taken (omega (arith, shape.fits)) taken_pos shape.moves
            (inside_left l) g.start_fits g.end_fits e in
        subst
          (λ z.
            Toward ws.next (step_on ws.next taken z) ws.end
            × StopsLong z ws.next (step_on ws.next taken z) ws.end)
          (sym i) (t, inr (taken, run ∙ ap (λ z. ws.next +ℤ z) (sym (scale_neg taken k))))
  ]

  guided-Lands : Lands (guided_end_long ws nthreads ws.next)
  guided-Lands =
      subst (λ z. Lands z) (sym guided_run)
        (elim (dec_le taken left) [
          | yes l ↦
              subst (λ b. Lands (if b then step_on ws.next taken ws.incr else ws.end))
                (sym (le→leb taken left l)) (part_way l)
          | no m ↦
              subst (λ b. Lands (if b then step_on ws.next taken ws.incr else ws.end))
                (sym (not-le→leb taken left m)) whole_way
        ])

IsLoop-on :
    (ws : LongShare) (e : ℤ) → IsLoop ws → Toward ws.next e ws.end → IsLoop (record ws { next = e })
IsLoop-on ws e (loop_up s f b) t = loop_up s (omega arith) (omega int_laws)
IsLoop-on ws e (loop_down s f b) t = loop_down s (omega arith) (omega int_laws)

pub eq_ℤ_refl_of : (a b : ℤ) → a ≡ b → eq_ℤ a b ≡ true
eq_ℤ_refl_of a b e = subst (λ z. eq_ℤ a z ≡ true) e (eq_ℤ_refl a)

guided-GrabsLong : (nthreads : ℕ) → GrabsLong IsGuidedLong (gomp_iter_guided_next_locked nthreads)
unfolding gomp_iter_guided_next_locked
guided-GrabsLong nthreads ws g = (
  λ e. pick_true (eq_ℤ ws.next ws.end) _ _ (eq_ℤ_refl_of ws.next ws.end e),
  λ o.
      let (t, stop) = guided-Lands ws g o nthreads in
      (
        guided_end_long ws nthreads ws.next,
        pick (eq_ℤ ws.next ws.end) _ _ (eq_false ws.next ws.end o),
        t,
        stop,
        record {
          loop = IsLoop-on ws (guided_end_long ws nthreads ws.next) g.loop t;
          start_fits = omega (arith, g.start_fits, g.end_fits);
          end_fits = g.end_fits;
          some_chunk = g.some_chunk;
          chunk_fits = g.chunk_fits;
        },
      ),
)

pub guided_long-TilesLong :
    (nthreads : ℕ) (ws : LongShare)
    → IsGuidedLong ws
    → Returns
        (take_all_long (gomp_iter_guided_next_locked nthreads) (dist ws.next ws.end + 1) ws)
        (λ ranges. TilesByLong ws.incr ws.next ranges ws.end)
guided_long-TilesLong nthreads ws g =
    take_all_long-TilesLong IsGuidedLong (gomp_iter_guided_next_locked nthreads)
      (guided-GrabsLong nthreads) (dist ws.next ws.end + 1) ws g (omega arith)
