-- ===== src/Tests/Balance.antt =====
-- The load balancers of libgomp/loop.c on small arrays.
use libgomp.Prelude.{
  ℕ, zero, suc, ◌+◌, ◌/◌, ◌≤◌, ◌≡◌, refl, List, [], ◌∷◌, none, some, inl, arith, ◌!◌, for_up,
  for_down, Returns,
}
use libgomp.Word.{add32, sub32}
use libgomp.Sort.{Sorts, exch, insertion_step, insertion_row, insertion, init_map, sort, sort-Sorts}
use libgomp.Chunks.{
  sum_to, Cuts, cummulativesum_step, compute_cummulativesum, divide, chunk_end, chunksizes_loop,
  compute_chunksizes, compute_chunksizes-Cuts, add_task, fill_chunk, compute_chunks,
}
use libgomp.Binlpt.{least_step, least_loaded, assign, place_chunk, binlpt_balance}
use libgomp.Binlpt.Balance.{Balanced}
use libgomp.Binlpt.Result.{binlpt_balance-Balanced, binlpt_balance_fault}
use libgomp.Srr.{next_tid, deal_pair, deal_rest, srr_balance}
use libgomp.Srr.Pairs.{IsPaired, srr_balance-IsPaired, srr_balance_fault}

program : Unit {0}
unfolding exch insertion_step insertion_row insertion init_map sort cummulativesum_step
    compute_cummulativesum divide chunk_end chunksizes_loop compute_chunksizes add_task fill_chunk
    compute_chunks least_step least_loaded assign place_chunk binlpt_balance next_tid deal_pair
    deal_rest srr_balance add32 sub32 for_up for_down
program = tt

abbrev loads : List ℕ
loads = 5 ∷ 3 ∷ 9 ∷ 1 ∷ []

loads-le : (x : ℕ) → loads ! x ≤ 9
loads-le zero = omega arith
loads-le (suc zero) = omega arith
loads-le (suc (suc zero)) = omega arith
loads-le (suc (suc (suc zero))) = omega arith
loads-le (suc (suc (suc (suc x)))) = omega arith

-- two chunks for two threads: the first, `5 3 9`, is above the mean with its last task
binlpt_two : binlpt_balance 7 loads 4 2 2 ≡ some (0 ∷ 0 ∷ 0 ∷ 1 ∷ [])
unfolding program
binlpt_two = refl

-- the sorted order is 3 1 0 2; the pairs are dealt to 0 1 2 3, and the last deal counts
srr_four :
    srr_balance 7 loads 4 4
    ≡ some (record { taskmap = 2 ∷ 2 ∷ 3 ∷ 3 ∷ []; tasks = 1 ∷ 3 ∷ 5 ∷ 9 ∷ [] })
unfolding program
srr_four = refl

sort-Sorts_example : Returns (sort loads 4 (7 ∷ 7 ∷ 7 ∷ 7 ∷ [])) (Sorts loads 4)
sort-Sorts_example = sort-Sorts loads (7 ∷ 7 ∷ 7 ∷ 7 ∷ []) 4 (omega arith) refl (omega arith)

compute_chunksizes_example :
    Returns (compute_chunksizes 7 loads 4 2) (λ cs. Cuts loads 4 (sum_to loads 4 / 2) 2 cs)
compute_chunksizes_example =
    compute_chunksizes-Cuts 7 loads 4 2 (omega arith) (omega arith) (omega arith) (omega arith)
      (omega arith) (omega arith)

binlpt_balance_example :
    Returns (binlpt_balance 7 loads 4 2 3) (Balanced loads 4 2 (sum_to loads 4 / 3 + 9))
binlpt_balance_example =
    binlpt_balance-Balanced 7 loads 4 2 3 9 (omega arith) (omega arith) (omega arith) (omega arith)
      (omega arith) (omega arith) (omega arith) loads-le

binlpt_balance_fault_example : binlpt_balance 7 loads 4 2 5 ≡ none
binlpt_balance_fault_example = binlpt_balance_fault 7 loads 4 2 5 (omega arith)

srr_balance_example : Returns (srr_balance 7 loads 4 3) (IsPaired loads 4 3)
srr_balance_example =
    srr_balance-IsPaired 7 loads 4 3 refl (omega arith) (omega arith) (omega arith) (inl refl)

srr_balance_fault_example : srr_balance 7 (4 ∷ 2 ∷ 6 ∷ []) 3 5 ≡ none
srr_balance_fault_example =
    srr_balance_fault 7 (4 ∷ 2 ∷ 6 ∷ []) 3 5 refl (omega arith) refl (omega arith)
