-- ===== src/Binlpt/Result.antt =====
-- `binlpt_balance` (libgomp/loop.c) as a whole.
use libgomp.Prelude.{
  ℕ, suc, ◌+◌, ◌-◌, ◌/◌, ◌≤◌, ◌<◌, ◌≡◌, List, none, arith, ap, ◌!◌, length, replicate,
  length-replicate, bind_none, bind_fault, Returns, Returns-bind, dec_lt,
}
use libgomp.Word.{word32}
use libgomp.Sort.{Sorts, sort, sort-Sorts, sort_fault}
use libgomp.Chunks.{
  sum_to, sum_to_pred, chunk_weight, Cuts, IsFilled, compute_cummulativesum,
  compute_cummulativesum_lem, compute_chunksizes, compute_chunksizes-Cuts, compute_chunks,
  compute_chunks_lem,
}
use libgomp.Binlpt.Balance.{Balanced, main_loop-Balanced}
use libgomp.Binlpt.{binlpt_balance}

-- A filled chunk weighs at most the limit and one task more.
chunk_weight-le :
    (tasks : List ℕ) (ntasks limit biggest nchunks : ℕ) (cs : List ℕ)
    → ((x : ℕ) → tasks ! x ≤ biggest)
    → Cuts tasks ntasks limit nchunks cs
    → (c : ℕ) → c < nchunks
    → chunk_weight tasks cs c ≤ limit + biggest
chunk_weight-le tasks ntasks limit biggest nchunks cs big cuts c h = elim (dec_lt 0 (cs ! c)) [
  | no empty ↦
      let e : cs ! c ≡ 0 = omega arith in
      let e' : sum_to cs c + 0 ≡ sum_to cs c = omega arith in rw (e, e') (omega arith)
  | yes full ↦ last (cuts.filled c h full)
]
  where
    end : ℕ
    end = sum_to cs (suc c)

    last : IsFilled tasks ntasks limit (sum_to cs c) end → chunk_weight tasks cs c ≤ limit + biggest
    last f = elim (dec_lt (sum_to cs c) (end - 1)) [
      | yes more ↦ omega (
        arith,
        f.within (end - 1) more (omega (arith, f.nonempty)),
        sum_to_pred tasks end (omega (arith, f.nonempty)),
        big (end - 1),
      )
      | no one ↦
          let e : sum_to cs c ≡ end - 1 = omega (arith, f.nonempty) in
          omega (
            arith,
            ap (sum_to tasks) e,
            sum_to_pred tasks end (omega (arith, f.nonempty)),
            big (end - 1),
          )
    ]

module _ (junk : ℕ) (tasks : List ℕ) (ntasks nthreads nchunks biggest : ℕ) (some_task : 0 < ntasks)
    (fits : ntasks ≤ length tasks) (small : sum_to tasks ntasks < word32) (few : ntasks < word32)
    (some_thread : 0 < nthreads) (some_chunk : 0 < nchunks) (room : nchunks ≤ ntasks)
    (big : (x : ℕ) → tasks ! x ≤ biggest) where
  most : ℕ
  most = sum_to tasks ntasks / nchunks + biggest

  -- For at least one task, thread and chunk, no more chunks than tasks, fewer than 2 ^ 32 tasks,
  -- an array with a cell for each task, and loads that are `biggest` at most and add up to less
  -- than 2 ^ 32, `binlpt_balance` returns a map with one cell for each task; each cell names a
  -- thread of the team, and the loads of any two threads differ by at most the mean load of a
  -- chunk, rounded down, plus `biggest`.
  pub binlpt_balance-Balanced :
      Returns
        (binlpt_balance junk tasks ntasks nthreads nchunks)
        (Balanced tasks ntasks nthreads (sum_to tasks ntasks / nchunks + biggest))
  unfolding binlpt_balance most
  binlpt_balance-Balanced =
      Returns-bind _ Goal (compute_chunksizes junk tasks ntasks nchunks) _
        (compute_chunksizes-Cuts junk tasks ntasks nchunks some_task fits small few some_chunk
          (omega arith))
        (λ cs cuts.
          Returns-bind _ Goal (compute_chunks tasks ntasks cs nchunks) _
            (compute_chunks_lem tasks ntasks nchunks cs cuts.size cuts.total fits small few)
            (λ chunks c.
              Returns-bind _ Goal (compute_cummulativesum junk cs nchunks) _
                (compute_cummulativesum_lem junk cs nchunks some_chunk (omega (arith, cuts.size))
                  (omega (arith, cuts.total)))
                (λ off o.
                  Returns-bind (Sorts chunks nchunks) Goal
                    (sort chunks nchunks (replicate ntasks junk)) _
                    (sort-Sorts chunks (replicate ntasks junk) nchunks (omega arith) c.0
                      (omega (arith, length-replicate ntasks junk)))
                    (λ sorted srt.
                      main_loop-Balanced
                        (record {
                          size = cuts.size;
                          total = cuts.total;
                          loads = c.1;
                          order = srt;
                          off_size = o.0;
                          offs = o.1;
                          small = small;
                          few = few;
                          some_thread = some_thread;
                        })
                        most
                        (chunk_weight-le tasks ntasks (sum_to tasks ntasks / nchunks) biggest
                          nchunks cs big cuts)))))
    where
      Goal : List ℕ → Type 0
      Goal = Balanced tasks ntasks nthreads most

-- With more chunks than tasks no run of `binlpt_balance` gets to its end: it accesses an array out
-- of its bounds, or divides by zero, or fails an assertion.
pub binlpt_balance_fault :
    (junk : ℕ) (tasks : List ℕ) (ntasks nthreads nchunks : ℕ)
    → ntasks < nchunks
    → binlpt_balance junk tasks ntasks nthreads nchunks ≡ none
unfolding binlpt_balance
binlpt_balance_fault junk tasks ntasks nthreads nchunks h =
    bind_none (compute_chunksizes junk tasks ntasks nchunks) _ (λ cs.
      bind_none (compute_chunks tasks ntasks cs nchunks) _ (λ chunks.
        bind_none (compute_cummulativesum junk cs nchunks) _ (λ off.
          bind_fault (sort chunks nchunks (replicate ntasks junk)) _ (
            sort_fault chunks (replicate ntasks junk) nchunks
              (omega (arith, length-replicate ntasks junk))))))
