-- ===== src/Binlpt/Balance.antt =====
-- The main loop of `binlpt_balance` (libgomp/loop.c): every iteration gets a thread, and the loads
-- of two threads differ by at most one chunk.
use libgomp.Prelude.{
  ℕ, zero, suc, ◌+◌, ◌-◌, ◌≤◌, ◌<◌, ◌≡◌, refl, List, some, arith, get_elem?, write, Bool-cases, inl,
  inr, sym, ◌∙◌, ◌==◌, if◌then◌else◌, ◌!◌, length, set, replicate, length-replicate,
  get_or-replicate, length-set, get_or-set, write_lem, read_lem, ◌>>=◌, Returns, Returns-bind,
  for_down_inv, for_down, dec_lt,
}
use mathlib.Core.Path.{subst}
use libgomp.Word.{word32, add32, add32_exact}
use libgomp.Sort.{Sorts}
use libgomp.Chunks.{sum_to, sum_to_mono, chunk_weight}
use libgomp.Binlpt.Owned.{owned, owned_congr, owned-le, placed, Assigned, owned_above, thread_load}
use libgomp.Binlpt.Steps.{IsLeast, least_loaded-IsLeast, assign_lem}
use libgomp.Binlpt.{Bins, least_loaded, assign, place_chunk}

-- Sums locate a cell.
pub find_chunk :
    (cs : List ℕ) (n x : ℕ)
    → x < sum_to cs n
    → (c : ℕ) × (c < n) × (sum_to cs c ≤ x) × (x < sum_to cs (suc c))
find_chunk cs zero x h = absurd (omega arith)
find_chunk cs (suc n) x h = elim (dec_lt x (sum_to cs n)) [
  | yes p ↦ let (c, l, a, b) = find_chunk cs n x p in (c, omega arith, a, b)
  | no p ↦ (n, omega arith, omega arith, h)
]

-- A task map that names a thread for each iteration, and under which the loads of any two threads
-- differ by `most` at most.
pub record Balanced (tasks : List ℕ) (ntasks nthreads most : ℕ) (map : List ℕ) : Type 0 where
  pub width : length map ≡ ntasks
  pub range : (x : ℕ) → x < ntasks → map ! x < nthreads
  pub near :
      (t u : ℕ)
      → t < nthreads
      → u < nthreads
      → thread_load tasks map ntasks t ≤ thread_load tasks map ntasks u + most

-- The bins before the main loop.
abbrev pub empty_bins : ℕ → ℕ → Bins
empty_bins ntasks nthreads = record { taskmap = replicate ntasks 0; load = replicate nthreads 0 }

-- The arrays that the main loop reads, and what was shown of them.
pub record Chunking (tasks : List ℕ) (ntasks nthreads nchunks : ℕ)
    (cs chunks sorted sortmap off : List ℕ) : Type 0 where
  pub size : length cs ≡ nchunks
  pub total : sum_to cs nchunks ≡ ntasks
  pub loads : (c : ℕ) → c < nchunks → chunks ! c ≡ chunk_weight tasks cs c
  pub order : Sorts chunks nchunks (record { map = sortmap; a = sorted })
  pub off_size : length off ≡ nchunks
  pub offs : (c : ℕ) → c < nchunks → off ! c ≡ sum_to cs c
  pub small : sum_to tasks ntasks < word32
  pub few : ntasks < word32
  pub some_thread : 0 < nthreads

module _ {tasks : List ℕ} {ntasks nthreads nchunks : ℕ} {cs chunks sorted sortmap off : List ℕ}
    (ch : Chunking tasks ntasks nthreads nchunks cs chunks sorted sortmap off) (most : ℕ)
    (bound : (c : ℕ) → c < nchunks → chunk_weight tasks cs c ≤ most) where
  -- The iteration `x` belongs to the chunk `c`.
  abbrev In : ℕ → ℕ → Type 0
  In c x = (sum_to cs c ≤ x) × (x < sum_to cs (suc c))

  In-unique : (c d x : ℕ) → In c x → In d x → c ≡ d
  In-unique c d x p q = elim (dec_lt c d) [
    | yes lt ↦ absurd (omega (arith, sum_to_mono cs (suc c) d lt))
    | no ge ↦ elim (dec_lt d c) [
      | yes lt ↦ absurd (omega (arith, sum_to_mono cs (suc d) c lt))
      | no le ↦ omega arith
    ]
  ]

  -- The number of the chunk at the sorted position `k`.
  abbrev at : ℕ → ℕ
  at k = sortmap ! k

  at-lt : (k : ℕ) → k < nchunks → at k < nchunks
  at-lt k h = (ch.order.tracks.entry k h).0

  sorted_load : (k : ℕ) → k < nchunks → sorted ! k ≡ chunk_weight tasks cs (at k)
  sorted_load k h = (ch.order.tracks.entry k h).1 ∙ ch.loads (at k) (at-lt k h)

  end_le : (k : ℕ) → k < nchunks → sum_to cs (suc (at k)) ≤ ntasks
  end_le k h = omega (arith, sum_to_mono cs (suc (at k)) nchunks (at-lt k h), ch.total)

  -- The chunks at the sorted positions from `i` on are placed. `w x` is the load of `x` if it is.
  record Placed (i : ℕ) (s : Bins) : Type 0 where
    w : ℕ → ℕ
    width : length s.taskmap ≡ ntasks
    bins : length s.load ≡ nthreads
    range : (x : ℕ) → x < ntasks → s.taskmap ! x < nthreads
    bounded : (x : ℕ) → w x ≤ tasks ! x
    loads : (t : ℕ) → t < nthreads → s.load ! t ≡ owned w s.taskmap t ntasks
    done : (p x : ℕ) → i ≤ p → p < nchunks → In (at p) x → w x ≡ tasks ! x
    todo : (p x : ℕ) → p < i → In (at p) x → w x ≡ 0
    balanced : (t u : ℕ) → t < nthreads → u < nthreads → s.load ! t ≤ s.load ! u + most

  -- A chunk with no load leaves nothing to place.
  zero_chunk : (c x : ℕ) → chunk_weight tasks cs c ≡ 0 → In c x → tasks ! x ≡ 0
  zero_chunk c x z l = omega (
    arith,
    sum_to_mono tasks (sum_to cs c) x l.0,
    sum_to_mono tasks (suc x) (sum_to cs (suc c)) l.1,
  )

  skip-Placed : (k : ℕ) (s : Bins) → k < nchunks → sorted ! k ≡ 0 → Placed (suc k) s → Placed k s
  skip-Placed k s h z pl = record {
    w = pl.w;
    width = pl.width;
    bins = pl.bins;
    range = pl.range;
    bounded = pl.bounded;
    loads = pl.loads;
    done = λ p x a b c. elim (dec_lt k p) [
      | yes q ↦ pl.done p x q b c
      | no q ↦
          let e : p ≡ k = omega arith in
          let c' : In (at k) x = subst (λ r. In (at r) x) e c in
          pl.todo k x (omega arith) c' ∙ sym (zero_chunk (at k) x (sym (sorted_load k h) ∙ z) c')
    ];
    todo = λ p x a c. pl.todo p x (omega arith) c;
    balanced = pl.balanced;
  }

  -- The bins after the chunk at the position `k` went to the thread `tid`.
  module _ (k : ℕ) (s : Bins) (h : k < nchunks) (pl : Placed (suc k) s) (tid : ℕ)
      (lst : IsLeast s.load nthreads tid) (map' : List ℕ) (width : length map' ≡ length s.taskmap)
      (a : Assigned s.taskmap (sum_to cs (at k)) (sum_to cs (suc (at k))) tid map') where
    w' : ℕ → ℕ
    w' = placed tasks (sum_to cs (at k)) (sum_to cs (suc (at k))) pl.w

    w'_bounded : (x : ℕ) → w' x ≤ tasks ! x
    unfolding w'
    w'_bounded x = ground (arith, pl.bounded x)

    owned-w' :
        (t : ℕ)
        → owned w' map' t ntasks
          ≡ owned pl.w s.taskmap t ntasks + (if tid == t then sorted ! k else 0)
    unfolding w'
    owned-w' t = rw (sorted_load k h) (
        owned_above tasks s.taskmap map' (sum_to cs (at k)) (sum_to cs (suc (at k))) tid a pl.w
          (λ x l u. pl.todo k x (omega arith) (l, u)) t ntasks (omega arith) (end_le k h))

    -- The new load fits an `unsigned`.
    add_load : add32 (s.load ! tid) (sorted ! k) ≡ s.load ! tid + sorted ! k
    add_load = add32_exact (s.load ! tid) (sorted ! k) (
        ground (
          arith,
          ch.small,
          pl.loads tid lst.0,
          owned-w' tid,
          owned-le w' tasks map' tid ntasks w'_bounded,
        ))

    load' :
        (t : ℕ)
        → set s.load tid (s.load ! tid + sorted ! k) ! t
          ≡ (if tid == t then s.load ! tid + sorted ! k else s.load ! t)
    load' t = get_or-set s.load tid t (s.load ! tid + sorted ! k) 0 (omega (arith, pl.bins, lst.0))

    range' : (x : ℕ) → x < ntasks → map' ! x < nthreads
    range' x l = elim (dec_lt x (sum_to cs (at k))) [
      | yes p ↦ rw (a.below x p) (pl.range x l)
      | no p ↦ elim (dec_lt x (sum_to cs (suc (at k)))) [
        | yes q ↦ rw (a.inside x (omega arith) q) lst.0
        | no q ↦ rw (a.above x (omega arith)) (pl.range x l)
      ]
    ]

    done' : (p x : ℕ) → k ≤ p → p < nchunks → In (at p) x → w' x ≡ tasks ! x
    unfolding w'
    done' p x l u i = elim (dec_lt k p) [
      | yes q ↦ ground (arith, pl.done p x q u i)
      | no q ↦
          let e : p ≡ k = omega arith in
          let i' : In (at k) x = subst (λ r. In (at r) x) e i in ground arith
    ]

    w'_out : (p x : ℕ) → p < k → p < nchunks → In (at p) x → w' x ≡ pl.w x
    unfolding w'
    w'_out p x l u i = elim (dec_lt x (sum_to cs (at k))) [
      | yes q ↦ ground arith
      | no q ↦ elim (dec_lt x (sum_to cs (suc (at k)))) [
        | no r ↦ ground arith
        | yes r ↦
            let e : p ≡ k =
              ch.order.tracks.distinct p k u h (In-unique (at p) (at k) x i (omega arith, r)) in
            absurd (omega arith)
      ]
    ]

    place-Placed :
        Placed k (record { taskmap = map'; load = set s.load tid (s.load ! tid + sorted ! k) })
    place-Placed = record {
      w = w';
      width = width ∙ pl.width;
      bins = cc (length-set s.load tid (s.load ! tid + sorted ! k), pl.bins);
      range = range';
      bounded = w'_bounded;
      loads = λ t l. ground (arith, load' t, owned-w' t, pl.loads t l);
      done = done';
      todo = λ p x l i. w'_out p x l (omega arith) i ∙ pl.todo p x (omega arith) i;
      balanced = λ t u l m. ground (
        arith,
        load' t,
        load' u,
        pl.balanced t u l m,
        lst.1 u m,
        bound (at k) (at-lt k h),
        sorted_load k h,
      );
    }

  -- A chunk with a load goes to the least loaded thread.
  fill_bin :
      (k : ℕ) (s : Bins)
      → k < nchunks
      → Placed (suc k) s
      → (tid : ℕ) → IsLeast s.load nthreads tid
      → Returns
          (do
            c ← get_elem? sortmap k
            size ← get_elem? cs c
            start ← get_elem? off c
            taskmap' ← assign start size tid s.taskmap
            l ← get_elem? s.load tid
            load' ← write s.load tid (add32 l (sorted ! k))
            some (record { taskmap = taskmap'; load = load' }))
          (Placed k)
  fill_bin k s h pl tid lst =
      rw
        (
          read_lem sortmap k 0 (omega (arith, ch.order.tracks.size_map)),
          read_lem cs (at k) 0 (omega (arith, ch.size, at-lt k h)),
          read_lem off (at k) 0 (omega (arith, ch.off_size, at-lt k h)),
          ch.offs (at k) (at-lt k h),
        )
        (Returns-bind _ (Placed k) (assign (sum_to cs (at k)) (cs ! at k) tid s.taskmap) _
          (assign_lem (sum_to cs (at k)) (cs ! at k) tid s.taskmap
            (omega (arith, pl.width, end_le k h)) (omega (arith, pl.width, ch.few)))
          (λ map' r.
            rw
              (
                read_lem s.load tid 0 (omega (arith, pl.bins, lst.0)),
                add_load k s h pl tid lst map' r.0 r.1,
                write_lem s.load tid (s.load ! tid + sorted ! k) (omega (arith, pl.bins, lst.0)),
              )
              (place-Placed k s h pl tid lst map' r.0 r.1)))

  place_chunk-Placed :
      (k : ℕ) (s : Bins)
      → k < nchunks
      → Placed (suc k) s
      → Returns (place_chunk sorted sortmap cs off nthreads (suc k) s) (Placed k)
  unfolding place_chunk
  place_chunk-Placed k s h pl =
      let e : suc k - 1 ≡ k = omega arith in
      rw (e, read_lem sorted k 0 (omega (arith, ch.order.tracks.size_a)))
        (elim (Bool-cases (sorted ! k == 0)) [
          | inl z ↦ rw z (skip-Placed k s h (ground arith) pl)
          | inr nz ↦ rw nz (
              Returns-bind (IsLeast s.load nthreads) (Placed k) (least_loaded s.load nthreads) _
                (least_loaded-IsLeast s.load nthreads ch.some_thread (omega (arith, pl.bins)))
                (fill_bin k s h pl))
        ])

  owned_zero : (map : List ℕ) (t n : ℕ) → owned (λ _. 0) map t n ≡ 0
  owned_zero map t zero = refl
  owned_zero map t (suc n) = ground (arith, owned_zero map t n)

  start-Placed : Placed nchunks (empty_bins ntasks nthreads)
  start-Placed = record {
    w = λ _. 0;
    width = length-replicate ntasks 0;
    bins = length-replicate nthreads 0;
    range = λ x l. ground (arith, get_or-replicate {A = ℕ} ntasks 0 x 0 l, ch.some_thread);
    bounded = λ x. omega arith;
    loads =
        λ t l. get_or-replicate nthreads 0 t 0 l ∙ sym (owned_zero (replicate ntasks 0) t ntasks);
    done = λ p x l u i. absurd (omega arith);
    todo = λ p x l i. refl;
    balanced = λ t u l m. ground (arith, get_or-replicate {A = ℕ} nthreads 0 t 0 l);
  }

  finish : (s : Bins) → Placed 0 s → Balanced tasks ntasks nthreads most s.taskmap
  finish s pl = record {
    width = pl.width;
    range = pl.range;
    near = λ t u l m. ground (arith, pl.balanced t u l m, full t l, full u m);
  }
    where
      all : (x : ℕ) → x < ntasks → pl.w x ≡ tasks ! x
      all x l =
          let (c, lt, a, b) = find_chunk cs nchunks x (omega (arith, ch.total)) in
          let (p, lp, e) = ch.order.tracks.onto c lt in
          pl.done p x (omega arith) lp (subst (λ d. In d x) (sym e) (a, b))

      full : (t : ℕ) → t < nthreads → s.load ! t ≡ thread_load tasks s.taskmap ntasks t
      full t l = pl.loads t l ∙ owned_congr pl.w (λ x. tasks ! x) s.taskmap t ntasks all

  pub main_loop-Balanced :
      Returns
        (for_down nchunks (place_chunk sorted sortmap cs off nthreads) (empty_bins ntasks nthreads)
          >>= λ s. some s.taskmap)
        (Balanced tasks ntasks nthreads most)
  main_loop-Balanced =
      Returns-bind (Placed 0) (Balanced tasks ntasks nthreads most)
        (for_down nchunks (place_chunk sorted sortmap cs off nthreads) (empty_bins ntasks nthreads))
        (λ s. some s.taskmap)
        (for_down_inv Placed (place_chunk sorted sortmap cs off nthreads) nchunks place_chunk-Placed
          nchunks (empty_bins ntasks nthreads) (omega arith) start-Placed)
        finish
