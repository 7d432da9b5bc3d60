-- ===== src/Chunks/Weights.antt =====
-- `compute_chunks` (libgomp/loop.c): the load of each chunk.
use libgomp.Prelude.{
  ℕ, suc, ◌+◌, ◌≤◌, ◌<◌, ◌≡◌, refl, List, Option, none, some, arith, ◌==◌, leb, if◌then◌else◌,
  length, get_elem?, replicate, length-replicate, get_or-replicate, set, length-set, get_or-set,
  write, write_lem, read_lem, ◌>>=◌, Returns, Returns-bind, Returns-mono, ◌!◌, for_up, for_up_inv,
  le→leb, dec_lt,
}
use mathlib.Core.Path.{subst}
use libgomp.Word.{word32, add32, add32_exact}
use libgomp.Chunks.Sums.{sum_to, weight, sum_to_plus, sum_to_mono}
use native.Mathlib.Numerals.{add-one}

-- The chunks with `k`, the task to be added next.
pub record Filling : Type 0 where
  pub chunks : List ℕ
  pub k : ℕ

-- `chunks[i] += tasks[k++]`
unfoldable pub add_task : List ℕ → ℕ → Filling → Option Filling
add_task tasks i s = do
  x ← get_elem? s.chunks i
  y ← get_elem? tasks s.k
  chunks' ← write s.chunks i (add32 x y)
  some (record { chunks = chunks'; k = add32 s.k 1 })

-- The body of the outer loop. A failed `assert` aborts.
unfoldable pub fill_chunk : List ℕ → ℕ → List ℕ → ℕ → Filling → Option Filling
fill_chunk tasks ntasks chunksizes i s =
    if leb s.k ntasks
    then (do r ← get_elem? chunksizes i; for_up r 0 (λ _. add_task tasks i) s)
    else none

unfoldable pub compute_chunks : List ℕ → ℕ → List ℕ → ℕ → Option (List ℕ)
compute_chunks tasks ntasks chunksizes nchunks = do
  s ←
      for_up nchunks 0 (fill_chunk tasks ntasks chunksizes)
        (record { chunks = replicate nchunks 0; k = 0 })
  some s.chunks

-- The load of the chunk `c`.
abbrev pub chunk_weight : List ℕ → List ℕ → ℕ → ℕ
chunk_weight tasks cs c = weight tasks (sum_to cs c) (sum_to cs (suc c))

module _ (tasks : List ℕ) (ntasks nchunks : ℕ) (cs : List ℕ) (size : length cs ≡ nchunks)
    (total : sum_to cs nchunks ≡ ntasks) (fits : ntasks ≤ length tasks)
    (small : sum_to tasks ntasks < word32) (few : ntasks < word32) where
  -- The chunks before `i` are complete, and `i` has its first `m` tasks.
  record Filled (i m : ℕ) (s : Filling) : Type 0 where
    width : length s.chunks ≡ nchunks
    next : s.k ≡ sum_to cs i + m
    complete : (c : ℕ) → c < i → s.chunks ! c ≡ chunk_weight tasks cs c
    partial : i < nchunks → s.chunks ! i ≡ weight tasks (sum_to cs i) (sum_to cs i + m)
    rest : (c : ℕ) → i < c → c < nchunks → s.chunks ! c ≡ 0

  end_le : (i : ℕ) → i < nchunks → sum_to cs i + cs ! i ≤ ntasks
  end_le i h = omega (arith, sum_to_mono cs (suc i) nchunks h, total)

  add_task-Filled :
      (i m : ℕ) (s : Filling)
      → i < nchunks
      → m < cs ! i
      → Filled i m s
      → Returns (add_task tasks i s) (Filled i (m + 1))
  unfolding add_task
  add_task-Filled i m s hi hm f =
      rw
        (
          read_lem s.chunks i 0 (omega (arith, f.width)),
          read_lem tasks s.k 0 (omega (arith, f.next, end_le i hi)),
          write_lem s.chunks i (add32 (s.chunks ! i) (tasks ! s.k)) (omega (arith, f.width)),
        )
        (record {
          width = cc (length-set s.chunks i (add32 (s.chunks ! i) (tasks ! s.k)), f.width);
          next = omega (arith, add32_exact s.k 1, f.next, end_le i hi);
          complete = λ c h. ground (arith, written c, f.complete c h);
          partial = λ _. ground (
            arith,
            written i,
            f.partial hi,
            f.next,
            add32_exact (s.chunks ! i) (tasks ! s.k),
            sum_to_plus tasks (sum_to cs i) m,
            sum_to_mono tasks (sum_to cs i) (sum_to cs i + m) (omega arith),
            sum_to_mono tasks (sum_to cs i + (m + 1)) ntasks (omega (arith, end_le i hi)),
          );
          rest = λ c p q. ground (arith, written c, f.rest c p q);
        })
    where
      written :
          (c : ℕ)
          → set s.chunks i (add32 (s.chunks ! i) (tasks ! s.k)) ! c
            ≡ (if i == c then add32 (s.chunks ! i) (tasks ! s.k) else s.chunks ! c)
      written c =
          get_or-set s.chunks i c (add32 (s.chunks ! i) (tasks ! s.k)) 0 (omega (arith, f.width))

  -- A complete chunk makes the next one current, still empty.
  advance : (i : ℕ) (s : Filling) → i < nchunks → Filled i (cs ! i) s → Filled (suc i) 0 s
  advance i s hi f = record {
    width = f.width;
    next = omega (arith, f.next);
    complete = λ c h. elim (dec_lt c i) [
      | yes old ↦ f.complete c old
      | no new ↦
          let e : i ≡ c = omega arith in
          subst (λ k. s.chunks ! k ≡ chunk_weight tasks cs k) e (f.partial hi)
    ];
    partial = λ h. ground (arith, f.rest (suc i), same);
    rest = λ c p q. f.rest c (omega arith) q;
  }
    where
      same : sum_to cs i + cs ! i + 0 ≡ sum_to cs i + cs ! i
      same = omega arith

  fill_chunk-Filled :
      (i : ℕ) (s : Filling)
      → i < nchunks
      → Filled i 0 s
      → Returns (fill_chunk tasks ntasks cs i s) (Filled (i + 1) 0)
  unfolding fill_chunk
  fill_chunk-Filled i s hi f =
      rw
        (
          le→leb s.k ntasks (omega (arith, f.next, end_le i hi)),
          read_lem cs i 0 (omega (arith, size)),
          add-one i,
        )
        (Returns-mono (Filled i (cs ! i)) (Filled (suc i) 0)
          (for_up (cs ! i) 0 (λ _. add_task tasks i) s) (λ s' f'. advance i s' hi f')
          (for_up_inv (Filled i) (λ _. add_task tasks i) 0 (cs ! i)
            (λ m s' l u f'. add_task-Filled i m s' hi u f') (cs ! i) 0 s (omega arith) (omega arith)
            f))

  -- If the chunk sizes, one for each chunk, add up to the number of tasks, fewer than 2 ^ 32 with
  -- a cell for each, and the loads add up to less than 2 ^ 32, `compute_chunks` returns the load
  -- of each chunk, the sum of the loads of its own tasks.
  pub compute_chunks_lem : Returns (compute_chunks tasks ntasks cs nchunks) (λ chunks.
      (length chunks ≡ nchunks) × ((c : ℕ) → c < nchunks → chunks ! c ≡ chunk_weight tasks cs c))
  unfolding compute_chunks
  compute_chunks_lem =
      Returns-bind (Filled nchunks 0) _ (for_up nchunks 0 (fill_chunk tasks ntasks cs) start)
        (λ s. some s.chunks)
        (for_up_inv (λ i. Filled i 0) (fill_chunk tasks ntasks cs) 0 nchunks
          (λ i s l u f. fill_chunk-Filled i s u f) nchunks 0 start (omega arith) (omega arith)
          (record {
            width = length-replicate nchunks 0;
            next = refl;
            complete = λ c h. absurd (omega arith);
            partial = λ h. ground (arith, get_or-replicate {A = ℕ} nchunks 0 0 0 h);
            rest = λ c p q. get_or-replicate nchunks 0 c 0 q;
          }))
        (λ s f. (f.width, f.complete))
    where
      start : Filling
      start = record { chunks = replicate nchunks 0; k = 0 }
