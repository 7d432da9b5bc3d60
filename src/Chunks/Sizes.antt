-- ===== src/Chunks/Sizes.antt =====
-- `compute_chunksizes` (libgomp/loop.c): how the iterations are cut into chunks.
use libgomp.Prelude.{
  ℕ, zero, suc, ◌+◌, ◌-◌, ◌*◌, ◌/◌, ◌≤◌, ◌<◌, ◌≡◌, refl, List, Option, none, some, arith, sym, ◌∙◌,
  get_or-replicate, ltb, lt→ltb, not-lt→ltb, ◌==◌, if◌then◌else◌, length, get_elem?, replicate,
  length-replicate, set, length-set, get_or-set, write, write_lem, read_lem, ◌>>=◌, Returns,
  Returns-bind, ◌!◌, ap, dec_lt,
}
use mathlib.Core.Path.{subst}
use libgomp.Word.{word32, add32, add32_exact, sub32, sub32_exact}
use libgomp.Chunks.Sums.{
  sum_to, weight, sum_to_next, sum_to_mono, sum_to_pred, sum_to-set_above, sum_to_zeros,
  compute_cummulativesum, compute_cummulativesum_lem,
}

-- A division by zero faults.
unfoldable pub divide : ℕ → ℕ → Option ℕ
divide a b = if b == 0 then none else some (a / b)

divide_lem : (a b : ℕ) → 0 < b → divide a b ≡ some (a / b)
unfolding divide
divide_lem a b h = ground arith

-- `for (; j < ntasks; j++) if (workload[j] - workload[i] > chunkweight) break;`, for `r` more rounds.
unfoldable pub chunk_end : List ℕ → ℕ → ℕ → ℕ → ℕ → Option ℕ
chunk_end workload chunkweight i zero j = some j
chunk_end workload chunkweight i (suc r) j = do
  y ← get_elem? workload j
  x ← get_elem? workload i
  let rest = chunk_end workload chunkweight i r (j + 1)
  if ltb chunkweight (sub32 y x) then some j else rest

-- `for (k = 0, i = 0; i < ntasks; )`. Each round takes at least one task, so `ntasks` rounds are
-- enough; `none` means here that the fuel ran out.
unfoldable pub chunksizes_loop : List ℕ → ℕ → ℕ → ℕ → ℕ → ℕ → ℕ → List ℕ → Option (List ℕ)
chunksizes_loop workload chunkweight ntasks nchunks zero k i chunksizes =
    if ltb i ntasks then none else some chunksizes
chunksizes_loop workload chunkweight ntasks nchunks (suc fuel) k i chunksizes =
    let body = (do
      j ←
          (if ltb k (sub32 nchunks 1)
            then chunk_end workload chunkweight i (ntasks - (i + 1)) (i + 1)
            else some ntasks)
      chunksizes' ← write chunksizes k (j - i)
      chunksizes_loop workload chunkweight ntasks nchunks fuel (k + 1) j chunksizes') in
    if ltb i ntasks then body else some chunksizes

unfoldable pub compute_chunksizes : ℕ → List ℕ → ℕ → ℕ → Option (List ℕ)
compute_chunksizes junk tasks ntasks nchunks = do
  workload ← compute_cummulativesum junk tasks ntasks
  before ← get_elem? workload (sub32 ntasks 1)
  last ← get_elem? tasks (sub32 ntasks 1)
  chunkweight ← divide (add32 before last) nchunks
  chunksizes_loop workload chunkweight ntasks nchunks ntasks 0 0 (replicate nchunks 0)

-- A chunk from `s` to before `e` is filled: without its last task it weighs at most `chunkweight`,
-- and with it more, unless it reaches the end.
pub record IsFilled (tasks : List ℕ) (ntasks chunkweight s e : ℕ) : Type 0 where
  pub nonempty : s < e
  pub within : (m : ℕ) → s < m → m < e → weight tasks s m ≤ chunkweight
  pub over : e < ntasks → chunkweight < weight tasks s e

-- What the chunk sizes are in the end: they cut the tasks into filled chunks.
pub record Cuts (tasks : List ℕ) (ntasks chunkweight nchunks : ℕ) (cs : List ℕ) : Type 0 where
  pub size : length cs ≡ nchunks
  pub total : sum_to cs nchunks ≡ ntasks
  pub filled :
      (c : ℕ)
      → c < nchunks
      → 0 < cs ! c
      → IsFilled tasks ntasks chunkweight (sum_to cs c) (sum_to cs (suc c))

-- What the parameters of the loop are: the sums of the tasks, which fit an `unsigned`.
pub record IsWorkload (tasks : List ℕ) (ntasks : ℕ) (workload : List ℕ) : Type 0 where
  pub size : length workload ≡ ntasks
  pub sums : (k : ℕ) → k < ntasks → workload ! k ≡ sum_to tasks k
  pub small : sum_to tasks ntasks < word32

module _ (tasks : List ℕ) (ntasks chunkweight : ℕ) (workload : List ℕ)
    (w : IsWorkload tasks ntasks workload) where
  -- Within the bounds the unsigned difference is the weight.
  workload_weight :
      (i j : ℕ) → i ≤ j → j < ntasks → sub32 (workload ! j) (workload ! i) ≡ weight tasks i j
  workload_weight i j h lt =
      rw (w.sums j lt, w.sums i (omega arith))
        (sub32_exact (sum_to tasks j) (sum_to tasks i) (sum_to_mono tasks i j h)
          (omega (arith, sum_to_mono tasks j ntasks, w.small)))

  chunk_end-IsFilled :
      (i r j : ℕ)
      → i < j
      → j + r ≡ ntasks
      → ((m : ℕ) → i < m → m < j → weight tasks i m ≤ chunkweight)
      → Returns
          (chunk_end workload chunkweight i r j)
          (λ e. (e ≤ ntasks) × IsFilled tasks ntasks chunkweight i e)
  unfolding chunk_end
  chunk_end-IsFilled i zero j h e seen =
      (omega arith, record { nonempty = h; within = seen; over = λ lt. absurd (omega arith) })
  chunk_end-IsFilled i (suc r) j h e seen =
      rw
        (
          read_lem workload j 0 (omega (arith, w.size)),
          read_lem workload i 0 (omega (arith, w.size)),
          workload_weight i j (omega arith) (omega arith),
        )
        (elim (dec_lt chunkweight (weight tasks i j)) [
          | yes lt ↦
              rw (lt→ltb chunkweight (weight tasks i j) lt)
                (omega arith, record { nonempty = h; within = seen; over = λ _. lt })
          | no ge ↦ rw (not-lt→ltb chunkweight (weight tasks i j) ge) (
              chunk_end-IsFilled i r (j + 1) (omega arith) (omega arith)
                (λ m p q. ground (arith, seen m p)))
        ])

  -- The first `k` chunks cover the tasks before `i`, and the others are still empty.
  record Cut (nchunks k i : ℕ) (cs : List ℕ) : Type 0 where
    size : length cs ≡ nchunks
    reached : sum_to cs k ≡ i
    i_le : i ≤ ntasks
    k_le : k ≤ nchunks
    room : i < ntasks → k < nchunks
    rest : (c : ℕ) → k ≤ c → c < nchunks → cs ! c ≡ 0
    filled : (c : ℕ) → c < k → IsFilled tasks ntasks chunkweight (sum_to cs c) (sum_to cs (suc c))
    heavy : i < ntasks → k * suc chunkweight ≤ sum_to tasks i

  module _ (nchunks : ℕ) (share : sum_to tasks ntasks < nchunks * suc chunkweight) where
    Cut→Cuts :
        (k i : ℕ) (cs : List ℕ)
        → ¬ (i < ntasks)
        → Cut nchunks k i cs
        → Cuts tasks ntasks chunkweight nchunks cs
    Cut→Cuts k i cs done c = record {
      size = c.size;
      total = omega (arith, sum_to_zeros cs k nchunks c.k_le c.rest, c.reached, c.i_le);
      filled = λ d lt pos. elim (dec_lt d k) [
        | yes p ↦ c.filled d p
        | no p ↦ absurd (omega (arith, c.rest d (omega arith) lt))
      ];
    }

    -- The last chunk takes what is left, which is no more than its share.
    last-IsFilled :
        (k i : ℕ) (cs : List ℕ)
        → i < ntasks
        → suc k ≡ nchunks
        → Cut nchunks k i cs
        → IsFilled tasks ntasks chunkweight i ntasks
    last-IsFilled k i cs lt e c = record {
      nonempty = lt;
      within = λ m p q. omega (
        arith,
        c.heavy lt,
        ap (λ (t : ℕ). t * suc chunkweight) e,
        sum_to_mono tasks m ntasks (omega arith),
        sum_to_mono tasks i m (omega arith),
      );
      over = λ p. absurd (omega arith);
    }

    -- The chunk from `i` to before `j` is written down.
    next-Cut :
        (k i j : ℕ) (cs : List ℕ)
        → i < ntasks
        → j ≤ ntasks
        → IsFilled tasks ntasks chunkweight i j
        → (j < ntasks → suc k < nchunks)
        → Cut nchunks k i cs
        → Cut nchunks (k + 1) j (set cs k (j - i))
    next-Cut k i j cs lt le f more c = record {
      size = cc (length-set cs k (j - i), c.size);
      reached = covers;
      i_le = le;
      k_le = omega (arith, c.room lt);
      room = λ h. omega (arith, more h);
      rest = λ d p q. ground (
        arith,
        get_or-set cs k d (j - i) 0 (omega (arith, c.size, c.room lt)),
        c.rest d (omega arith) q,
      );
      filled = λ d p. elim (dec_lt d k) [
        | yes old ↦ rw (before d (omega arith), kept d old) (c.filled d old)
        | no new ↦
            let e : d ≡ k = omega arith in
            rw (e, before k (omega arith), c.reached)
              (subst (IsFilled tasks ntasks chunkweight i) (omega (arith, here)) f)
      ];
      heavy = λ h. omega (arith, c.heavy lt, f.over h);
    }
      where
        before : (d : ℕ) → d ≤ k → sum_to (set cs k (j - i)) d ≡ sum_to cs d
        before d h = sum_to-set_above cs k (j - i) d h (omega (arith, c.size, c.room lt))

        kept : (d : ℕ) → d < k → set cs k (j - i) ! d ≡ cs ! d
        kept d h = ground (arith, get_or-set cs k d (j - i) 0 (omega (arith, c.size, c.room lt)))

        here : set cs k (j - i) ! k ≡ j - i
        here = ground (arith, get_or-set cs k k (j - i) 0 (omega (arith, c.size, c.room lt)))

        covers : sum_to (set cs k (j - i)) (k + 1) ≡ j
        covers = omega (
          arith,
          sum_to_next (set cs k (j - i)) k,
          before k (omega arith),
          c.reached,
          here,
          f.nonempty,
        )

    loop-Cuts :
        (fuel k i : ℕ) (cs : List ℕ)
        → ntasks ≤ fuel + i
        → nchunks < word32
        → Cut nchunks k i cs
        → Returns
            (chunksizes_loop workload chunkweight ntasks nchunks fuel k i cs)
            (Cuts tasks ntasks chunkweight nchunks)
    unfolding chunksizes_loop
    loop-Cuts zero k i cs h small c =
        rw (not-lt→ltb i ntasks (omega arith)) (Cut→Cuts k i cs (omega arith) c)
    loop-Cuts (suc fuel) k i cs h small c = elim (dec_lt i ntasks) [
      | no done ↦ rw (not-lt→ltb i ntasks done) (Cut→Cuts k i cs done c)
      | yes lt ↦
          rw (lt→ltb i ntasks lt, sub32_exact nchunks 1 (omega (arith, c.room lt)) small)
            (elim (dec_lt k (nchunks - 1)) [
              | yes inner ↦ rw (lt→ltb k (nchunks - 1) inner) (
                  Returns-bind (λ j. (j ≤ ntasks) × IsFilled tasks ntasks chunkweight i j)
                    (Cuts tasks ntasks chunkweight nchunks)
                    (chunk_end workload chunkweight i (ntasks - (i + 1)) (i + 1))
                    (λ j. write cs k (j - i) >>= λ cs'.
                      chunksizes_loop workload chunkweight ntasks nchunks fuel (k + 1) j cs')
                    (chunk_end-IsFilled i (ntasks - (i + 1)) (i + 1) (omega arith) (omega arith)
                      (λ m p q. absurd (omega arith)))
                    (λ j f. write_next lt j f.0 f.1 (λ _. omega arith) (loop-Cuts fuel (k + 1) j)))
              | no last ↦ rw (not-lt→ltb k (nchunks - 1) last) (
                  write_next lt ntasks (omega arith)
                    (last-IsFilled k i cs lt (omega (arith, c.room lt)) c)
                    (λ p. absurd (omega arith)) (loop-Cuts fuel (k + 1) ntasks))
            ])
    ]
      where
        write_next :
            i < ntasks
            → (j : ℕ) → j ≤ ntasks
            → IsFilled tasks ntasks chunkweight i j
            → (j < ntasks → suc k < nchunks)
            → ((cs' : List ℕ)
                → ntasks ≤ fuel + j
                → nchunks < word32
                → Cut nchunks (k + 1) j cs'
                → Returns
                    (chunksizes_loop workload chunkweight ntasks nchunks fuel (k + 1) j cs')
                    (Cuts tasks ntasks chunkweight nchunks))
            → Returns
                (write cs k (j - i) >>= λ cs'.
                  chunksizes_loop workload chunkweight ntasks nchunks fuel (k + 1) j cs')
                (Cuts tasks ntasks chunkweight nchunks)
        write_next lt j le f more go =
            rw (write_lem cs k (j - i) (omega (arith, c.size, c.room lt))) (
              go (set cs k (j - i)) (omega (arith, f.nonempty)) small
                (next-Cut k i j cs lt le f more c))

    start-Cut : 0 < nchunks → Cut nchunks 0 0 (replicate nchunks 0)
    start-Cut pos = record {
      size = length-replicate nchunks 0;
      reached = refl;
      i_le = omega arith;
      k_le = omega arith;
      room = λ _. pos;
      rest = λ c p q. get_or-replicate nchunks 0 c 0 q;
      filled = λ c p. absurd (omega arith);
      heavy = λ _. omega arith;
    }

module _ (junk : ℕ) (tasks : List ℕ) (ntasks nchunks : ℕ) (some_task : 0 < ntasks)
    (fits : ntasks ≤ length tasks) (small : sum_to tasks ntasks < word32) (few : ntasks < word32)
    (some_chunk : 0 < nchunks) (few_chunks : nchunks < word32) where
  share_lem : sum_to tasks ntasks < nchunks * suc (sum_to tasks ntasks / nchunks)
  share_lem = grind arith

  -- For at least one task, a number of chunks between 1 and 2 ^ 32 - 1, fewer than 2 ^ 32 tasks,
  -- an array with a cell for each, and loads that add up to less than 2 ^ 32,
  -- `compute_chunksizes` returns a size for each chunk; the sizes add up to the number of tasks,
  -- and every chunk that is not empty weighs at most the mean without its last task, and more
  -- than the mean unless it ends with the last task.
  pub compute_chunksizes-Cuts :
      Returns
        (compute_chunksizes junk tasks ntasks nchunks)
        (λ cs. Cuts tasks ntasks (sum_to tasks ntasks / nchunks) nchunks cs)
  unfolding compute_chunksizes
  compute_chunksizes-Cuts =
      Returns-bind (λ ws. (length ws ≡ ntasks) × ((k : ℕ) → k < ntasks → ws ! k ≡ sum_to tasks k))
        Result (compute_cummulativesum junk tasks ntasks) _
        (compute_cummulativesum_lem junk tasks ntasks some_task fits small)
        (λ ws p.
          rw
            (
              sub32_exact ntasks 1 some_task few,
              read_lem ws (ntasks - 1) 0 (omega (arith, p.0)),
              read_lem tasks (ntasks - 1) 0 (omega arith),
              mean ws (p.1 (ntasks - 1) (omega arith)),
              divide_lem (sum_to tasks ntasks) nchunks some_chunk,
            )
            (loop-Cuts tasks ntasks (sum_to tasks ntasks / nchunks) ws (work ws p) nchunks share_lem
              ntasks 0 0 (replicate nchunks 0) (omega arith) few_chunks
              (start-Cut tasks ntasks (sum_to tasks ntasks / nchunks) ws (work ws p) nchunks
                share_lem some_chunk)))
    where
      Result : List ℕ → Type 0
      Result = Cuts tasks ntasks (sum_to tasks ntasks / nchunks) nchunks

      work :
          (ws : List ℕ)
          → (length ws ≡ ntasks) × ((k : ℕ) → k < ntasks → ws ! k ≡ sum_to tasks k)
          → IsWorkload tasks ntasks ws
      work ws p = record { size = p.0; sums = p.1; small = small }

      mean :
          (ws : List ℕ)
          → ws ! (ntasks - 1) ≡ sum_to tasks (ntasks - 1)
          → add32 (ws ! (ntasks - 1)) (tasks ! (ntasks - 1)) ≡ sum_to tasks ntasks
      mean ws e = rw e (
          add32_exact (sum_to tasks (ntasks - 1)) (tasks ! (ntasks - 1))
            (omega (arith, sum_to_pred tasks ntasks some_task))
          ∙ sym (sum_to_pred tasks ntasks some_task))
