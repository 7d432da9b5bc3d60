-- ===== src/Srr/Pairs.antt =====
-- The map of `srr_balance` (libgomp/loop.c): who shares a thread, and when the run faults.
use libgomp.Prelude.{
  ℕ, zero, suc, ◌+◌, ◌-◌, ◌%◌, ◌≤◌, ◌<◌, ◌≡◌, refl, ◌≢◌, ◌⊎◌, inl, inr, sym, ◌∙◌, List, none, some,
  arith, ap, ◌==◌, if◌then◌else◌, ◌!◌, length, set, replicate, length-replicate, length-set,
  get_or-set, write_lem, read_lem, read_out, bind_none, bind_fault, Returns, Returns-fault,
  Returns-bind, Returns-mono, for_up, for_up_inv, for_down, for_down_none, for_down_once, dec_lt,
  dec_le, ℕ_discrete,
}
use mathlib.Core.Path.{subst}
use native.Mathlib.Nat.{mod-lt, mod-le, mod-eq_of_lt, mod-add-mod}
use libgomp.Word.{word32, add32, add32_exact}
use libgomp.Sort.{Arrays, Sorts, sort, sort-Sorts}
use libgomp.Binlpt.{least_step, least_loaded}
use libgomp.Binlpt.Steps.{IsLeast, least_loaded-IsLeast}
use libgomp.Srr.{Deal, next_tid, deal_pair, deal_rest, Schedule, srr_balance}

-- The position that is dealt out together with `q`, where `k` positions are left over.
abbrev pub mirror : ℕ → ℕ → ℕ → ℕ
mirror ntasks k q = ntasks + k - 1 - q

-- The state before the first loop.
abbrev start_deal : ℕ → ℕ → Deal
start_deal ntasks junk = record {
  taskmap = replicate ntasks junk;
  load = replicate ntasks 0;
  tid = 0;
}

module _ (tasks : List ℕ) (ntasks nthreads k : ℕ) (s0 : Arrays) (srt : Sorts tasks ntasks s0)
    (some_thread : 0 < nthreads) (few : ntasks < word32) (left : k < 2) where
  -- The iteration at the sorted position `q`.
  abbrev at : ℕ → ℕ
  at q = s0.map ! q

  -- The pairs of the positions from `k` to before `i` are dealt out: the last deal counts.
  record Dealt (i : ℕ) (s : Deal) : Type 0 where
    width : length s.taskmap ≡ ntasks
    bins : length s.load ≡ ntasks
    turn : s.tid ≡ (i - k) % nthreads
    light :
        (q : ℕ)
        → k ≤ q
        → q < ntasks
        → q < i
        → (mirror ntasks k q ≤ q) ⊎ (i ≤ mirror ntasks k q)
        → s.taskmap ! at q ≡ (q - k) % nthreads
    heavy :
        (q : ℕ)
        → k ≤ q
        → q < ntasks
        → mirror ntasks k q < i
        → (q ≤ mirror ntasks k q) ⊎ (i ≤ q)
        → s.taskmap ! at q ≡ (mirror ntasks k q - k) % nthreads

  module _ (i : ℕ) (s : Deal) (lo : k ≤ i) (hi : i < ntasks) (d : Dealt i s) where
    abbrev j : ℕ
    j = ntasks - ((i - k) + 1)

    j-lt : j < ntasks
    j-lt = omega arith

    tid-lt : s.tid < ntasks
    tid-lt = omega (arith, d.turn, mod-le (i - k) nthreads)

    next_lem : next_tid s.tid nthreads ≡ some ((i + 1 - k) % nthreads)
    unfolding next_tid
    next_lem =
        let e : i - k + 1 ≡ i + 1 - k = omega arith in
        let turn : (s.tid + 1) % nthreads ≡ (i + 1 - k) % nthreads =
          rw (d.turn, mod-add-mod (i - k) nthreads 1, e) in
        rw (add32_exact s.tid 1 (omega (arith, tid-lt)), turn) (ground arith)

    abbrev dealt_map : List ℕ
    dealt_map = set (set s.taskmap (at i) s.tid) (at j) s.tid

    at-lt : (q : ℕ) → q < ntasks → at q < ntasks
    at-lt q h = (srt.tracks.entry q h).0

    dealt :
        (q : ℕ)
        → q < ntasks
        → dealt_map ! at q
          ≡ (if at j == at q then s.tid else if at i == at q then s.tid else s.taskmap ! at q)
    dealt q h = ground (
      arith,
      length-set s.taskmap (at i) s.tid,
      d.width,
      at-lt i hi,
      at-lt j j-lt,
      get_or-set (set s.taskmap (at i) s.tid) (at j) (at q) s.tid 0,
      get_or-set s.taskmap (at i) (at q) s.tid 0,
    )

    hit : (q : ℕ) → q < ntasks → (q ≡ i) ⊎ (q ≡ j) → dealt_map ! at q ≡ s.tid
    hit q h (inl e) = ground (arith, dealt q h, ap (λ p. at p) e)
    hit q h (inr e) = ground (arith, dealt q h, ap (λ p. at p) e)

    miss : (q : ℕ) → q < ntasks → q ≢ i → q ≢ j → dealt_map ! at q ≡ s.taskmap ! at q
    miss q h ni nj =
        ground (arith, dealt q h, srt.tracks.distinct i q hi h, srt.tracks.distinct j q j-lt h)

    next_load : List ℕ
    next_load = set s.load s.tid (add32 (s.load ! s.tid) (add32 (s0.a ! at i) (s0.a ! at j)))

    deal_pair_lem :
        deal_pair s0.a s0.map ntasks nthreads k i s
        ≡ some (record { taskmap = dealt_map; load = next_load; tid = (i + 1 - k) % nthreads })
    unfolding deal_pair next_load
    deal_pair_lem = rw (
      read_lem s0.map i 0 (omega (arith, srt.tracks.size_map)),
      read_lem s0.map j 0 (omega (arith, srt.tracks.size_map)),
      write_lem s.taskmap (at i) s.tid (omega (arith, d.width, at-lt i hi)),
      write_lem (set s.taskmap (at i) s.tid) (at j) s.tid
          (omega (arith, length-set s.taskmap (at i) s.tid, d.width, at-lt j j-lt)),
      read_lem s.load s.tid 0 (omega (arith, d.bins, tid-lt)),
      read_lem s0.a (at i) 0 (omega (arith, srt.tracks.size_a, at-lt i hi)),
      read_lem s0.a (at j) 0 (omega (arith, srt.tracks.size_a, at-lt j j-lt)),
      write_lem s.load s.tid (add32 (s.load ! s.tid) (add32 (s0.a ! at i) (s0.a ! at j)))
          (omega (arith, d.bins, tid-lt)),
      next_lem,
    )

    next-Dealt :
        Dealt
          (i + 1)
          (record { taskmap = dealt_map; load = next_load; tid = (i + 1 - k) % nthreads })
    unfolding next_load
    next-Dealt = record {
      width = cc (
        length-set (set s.taskmap (at i) s.tid) (at j) s.tid,
        length-set s.taskmap (at i) s.tid,
        d.width,
      );
      bins = cc (
        length-set s.load s.tid (add32 (s.load ! s.tid) (add32 (s0.a ! at i) (s0.a ! at j))),
        d.bins,
      );
      turn = refl;
      light = λ q a b c e. elim (ℕ_discrete q i) [
        | yes same ↦ hit q b (inl same) ∙ d.turn ∙ ap (λ z. (z - k) % nthreads) (sym same)
        | no other ↦
            miss q b other (λ f. absurd (ground arith)) ∙ d.light q a b (omega arith) (ground arith)
      ];
      heavy = λ q a b c e. elim (ℕ_discrete q j) [
        | yes same ↦
            let m : i ≡ mirror ntasks k q = omega arith in
            hit q b (inr same) ∙ d.turn ∙ ap (λ z. (z - k) % nthreads) m
        | no other ↦
            miss q b (λ f. absurd (ground arith)) other ∙ d.heavy q a b (omega arith) (ground arith)
      ];
    }

  -- The later of two positions that are dealt together decides the thread of both.
  abbrev Turns : List ℕ → Type 0
  Turns map =
      (q : ℕ)
      → k ≤ q
      → q < ntasks
      → (mirror ntasks k q ≤ q → map ! at q ≡ (q - k) % nthreads)
        × (q ≤ mirror ntasks k q → map ! at q ≡ (mirror ntasks k q - k) % nthreads)

  -- The map when the first loop is done.
  record Paired (s : Deal) : Type 0 where
    width : length s.taskmap ≡ ntasks
    bins : length s.load ≡ ntasks
    turns : Turns s.taskmap

  first_loop-Paired :
      (junk : ℕ)
      → k ≤ ntasks
      → Returns
          (for_up (ntasks - k) k (deal_pair s0.a s0.map ntasks nthreads k) (start_deal ntasks junk))
          Paired
  first_loop-Paired junk h =
      Returns-mono (Dealt ntasks) Paired
        (for_up (ntasks - k) k (deal_pair s0.a s0.map ntasks nthreads k) (start_deal ntasks junk))
        (λ s d. record {
          width = d.width;
          bins = d.bins;
          turns = λ q a b. (λ e. d.light q a b b (inl e), λ e. d.heavy q a b (omega arith) (inl e));
        })
        (for_up_inv Dealt (deal_pair s0.a s0.map ntasks nthreads k) k ntasks
          (λ i s lo hi d. rw (deal_pair_lem i s lo hi d) (next-Dealt i s lo hi d)) (ntasks - k) k
          (start_deal ntasks junk) (omega arith) (omega arith)
          (record {
            width = length-replicate ntasks junk;
            bins = length-replicate ntasks 0;
            turn = let e : k - k ≡ 0 = omega arith in rw e (sym (mod-eq_of_lt some_thread));
            light = λ q a b c e. absurd (omega arith);
            heavy = λ q a b c e. absurd (omega arith);
          }))

  -- The whole map: every iteration has a thread.
  record Shared (map : List ℕ) : Type 0 where
    width : length map ≡ ntasks
    turns : Turns map
    range : (x : ℕ) → x < ntasks → map ! x < nthreads

  Paired→Shared :
      (s : Deal) → Paired s → ((q : ℕ) → q < k → s.taskmap ! at q < nthreads) → Shared s.taskmap
  Paired→Shared s p rest = record { width = p.width; turns = p.turns; range = range }
    where
      dealt_range : (q : ℕ) → q < ntasks → s.taskmap ! at q < nthreads
      dealt_range q h = elim (dec_lt q k) [
        | yes l ↦ rest q l
        | no l ↦ elim (dec_le q (mirror ntasks k q)) [
          | yes e ↦ rw ((p.turns q (omega arith) h).1 e) (mod-lt _ some_thread)
          | no e ↦ rw ((p.turns q (omega arith) h).0 (omega arith)) (mod-lt _ some_thread)
        ]
      ]

      range : (x : ℕ) → x < ntasks → s.taskmap ! x < nthreads
      range x h =
          let (q, l, e) = srt.tracks.onto x h in
          subst (λ z. s.taskmap ! z < nthreads) e (dealt_range q l)

  rest-Shared :
      (s : Deal)
      → 1 ≡ k
      → 0 < ntasks
      → Paired s
      → (t : ℕ) → t < nthreads
      → Shared (set s.taskmap (at 0) t)
  rest-Shared s one pos p t l =
      Paired→Shared (record s { taskmap = set s.taskmap (at 0) t })
        (record {
          width = cc (length-set s.taskmap (at 0) t, p.width);
          bins = p.bins;
          turns = λ q a b. rw (kept q (omega arith) b) (p.turns q a b);
        })
        (λ q h. ground (arith, written q, ap (λ z. at z) (zero_lem q h)))
    where
      zero_lem : (q : ℕ) → q < k → q ≡ 0
      zero_lem q h = omega arith

      written :
          (q : ℕ) → set s.taskmap (at 0) t ! at q ≡ (if at 0 == at q then t else s.taskmap ! at q)
      written q =
          get_or-set s.taskmap (at 0) (at q) t 0
            (omega (arith, p.width, (srt.tracks.entry 0 pos).0))

      kept : (q : ℕ) → 0 < q → q < ntasks → set s.taskmap (at 0) t ! at q ≡ s.taskmap ! at q
      kept q h b = ground (arith, written q, srt.tracks.distinct 0 q pos b)

  -- The left-over iteration goes to the least loaded thread.
  deal_rest-Shared :
      (s : Deal)
      → 1 ≡ k
      → nthreads ≤ ntasks
      → 0 < ntasks
      → Paired s
      → Returns (deal_rest s0.a s0.map nthreads 1 s) (λ s'. Shared s'.taskmap)
  unfolding deal_rest
  deal_rest-Shared s one fit pos p =
      Returns-bind (IsLeast s.load nthreads) _ (least_loaded s.load nthreads) _
        (least_loaded-IsLeast s.load nthreads some_thread (omega (arith, p.bins)))
        (λ t l.
          rw
            (
              read_lem s0.map 0 0 (omega (arith, srt.tracks.size_map)),
              write_lem s.taskmap (at 0) t (omega (arith, p.width, (srt.tracks.entry 0 pos).0)),
              read_lem s.load t 0 (omega (arith, p.bins, l.0)),
              read_lem s0.a (at 0) 0 (omega (arith, srt.tracks.size_a, (srt.tracks.entry 0 pos).0)),
              write_lem s.load t (add32 (s.load ! t) (s0.a ! at 0)) (omega (arith, p.bins, l.0)),
            )
            (rest-Shared s one pos p t l.0))

  second_loop-Shared :
      (s : Deal)
      → 0 < ntasks
      → (k ≡ 0) ⊎ (nthreads ≤ ntasks)
      → Paired s
      → Returns (for_down k (deal_rest s0.a s0.map nthreads) s) (λ s'. Shared s'.taskmap)
  second_loop-Shared s pos c p = elim (ℕ_discrete k 0) [
    | yes e ↦
        rw (for_down_none k (deal_rest s0.a s0.map nthreads) s e)
          (Paired→Shared s p (λ q h. absurd (omega arith)))
    | no ne ↦
        rw (for_down_once k (deal_rest s0.a s0.map nthreads) s (omega arith))
          (deal_rest-Shared s (omega arith) (omega arith) pos p)
  ]

parity-lt : (n : ℕ) → n % 2 < 2
parity-lt n = omega arith

mirror-mirror : (n k q : ℕ) → k ≤ q → q < n → mirror n k (mirror n k q) ≡ q
mirror-mirror n k q a b = omega arith

-- What the caller gets: the map deals out the pairs of the sorted order, and `s` is that order.
pub record IsPaired (tasks : List ℕ) (ntasks nthreads : ℕ) (out : Schedule) : Type 0 where
  pub s : Arrays
  pub order : Sorts tasks ntasks s
  pub overwritten : out.tasks ≡ s.a
  pub width : length out.taskmap ≡ ntasks
  pub range : (x : ℕ) → x < ntasks → out.taskmap ! x < nthreads
  pub pair :
      (q : ℕ)
      → ntasks % 2 ≤ q
      → q < ntasks
      → out.taskmap ! (s.map ! q) ≡ out.taskmap ! (s.map ! mirror ntasks (ntasks % 2) q)
  pub turn :
      (q : ℕ)
      → ntasks % 2 ≤ q
      → q < ntasks
      → mirror ntasks (ntasks % 2) q ≤ q
      → out.taskmap ! (s.map ! q) ≡ (q - ntasks % 2) % nthreads

module _ (junk : ℕ) (tasks : List ℕ) (ntasks nthreads : ℕ) (size : length tasks ≡ ntasks)
    (few : ntasks < word32) (some_task : 0 < ntasks) (some_thread : 0 < nthreads) where
  Shared→IsPaired :
      (s0 : Arrays) (srt : Sorts tasks ntasks s0) (map : List ℕ)
      → Shared tasks ntasks nthreads (ntasks % 2) s0 srt some_thread few (parity-lt ntasks) map
      → IsPaired tasks ntasks nthreads (record { taskmap = map; tasks = s0.a })
  Shared→IsPaired s0 srt map sh = record {
    s = s0;
    order = srt;
    overwritten = refl;
    width = sh.width;
    range = sh.range;
    pair = λ q a b.
        let back = mirror-mirror ntasks (ntasks % 2) q a b in
        let there = sh.turns (mirror ntasks (ntasks % 2) q) (omega arith) (omega arith) in
        elim (dec_le (mirror ntasks (ntasks % 2) q) q) [
          | yes e ↦
              (sh.turns q a b).0 e
              ∙ sym (there.1 (omega arith) ∙ ap (λ z. (z - ntasks % 2) % nthreads) back)
          | no e ↦ (sh.turns q a b).1 (omega arith) ∙ sym (there.0 (omega arith))
        ];
    turn = λ q a b e. (sh.turns q a b).0 e;
  }

  -- For at least one task and one thread, fewer than 2 ^ 32 tasks, an array of that many loads,
  -- and an even number of tasks or no more threads than tasks, `srr_balance` returns; it has
  -- sorted the caller's array, its map names a thread of the team for each task, the tasks at
  -- mirrored positions of the sorted order, without the lightest task of an odd number, have the
  -- same thread, and those of the heavier half go round robin over the threads.
  pub srr_balance-IsPaired :
      (ntasks % 2 ≡ 0) ⊎ (nthreads ≤ ntasks)
      → Returns (srr_balance junk tasks ntasks nthreads) (IsPaired tasks ntasks nthreads)
  unfolding srr_balance
  srr_balance-IsPaired c =
      Returns-bind (Sorts tasks ntasks) Goal (sort tasks ntasks (replicate ntasks junk)) _
        (sort-Sorts tasks (replicate ntasks junk) ntasks few size
          (omega (arith, length-replicate ntasks junk)))
        (λ s0 srt.
          Returns-bind (Paired tasks ntasks nthreads k s0 srt some_thread few left) Goal
            (for_up (ntasks - k) k (deal_pair s0.a s0.map ntasks nthreads k)
              (start_deal ntasks junk))
            _
            (first_loop-Paired tasks ntasks nthreads k s0 srt some_thread few left junk
              (omega arith))
            (λ d p.
              Returns-bind
                (λ d'. Shared tasks ntasks nthreads k s0 srt some_thread few left d'.taskmap) Goal
                (for_down k (deal_rest s0.a s0.map nthreads) d) _
                (second_loop-Shared tasks ntasks nthreads k s0 srt some_thread few left d some_task
                  c p)
                (λ d' sh. Shared→IsPaired s0 srt d'.taskmap sh)))
    where
      Goal : Schedule → Type 0
      Goal = IsPaired tasks ntasks nthreads

      k : ℕ
      k = ntasks % 2

      left : k < 2
      left = parity-lt ntasks

-- The search for the least loaded thread reads past `load` if there are more threads than tasks.
least_past :
    (load : List ℕ) (r j t : ℕ)
    → j ≤ length load
    → length load < j + r
    → for_up r j (least_step load) t ≡ none
unfolding for_up least_step
least_past load zero j t l h = absurd (omega arith)
least_past load (suc r) j t l h = elim (dec_lt j (length load)) [
  | yes p ↦
      bind_none (least_step load j t) _
        (λ t'. least_past load r (j + 1) t' (omega arith) (omega arith))
  | no q ↦ rw (read_out load j (omega arith))
]

least_loaded_fault :
    (load : List ℕ) (nthreads : ℕ)
    → 0 < length load
    → length load < nthreads
    → least_loaded load nthreads ≡ none
unfolding least_loaded
least_loaded_fault load nthreads pos h =
    least_past load (nthreads - 1) 1 0 (omega arith) (omega arith)

-- For an odd number of tasks, fewer than the threads and than 2 ^ 32, each with a load, no run of
-- `srr_balance` gets to its end: it accesses an array out of its bounds.
pub srr_balance_fault :
    (junk : ℕ) (tasks : List ℕ) (ntasks nthreads : ℕ)
    → length tasks ≡ ntasks
    → ntasks < word32
    → ntasks % 2 ≡ 1
    → ntasks < nthreads
    → srr_balance junk tasks ntasks nthreads ≡ none
unfolding srr_balance deal_rest
srr_balance_fault junk tasks ntasks nthreads size few odd h =
    Returns-fault (Sorts tasks ntasks) (sort tasks ntasks (replicate ntasks junk)) _
      (sort-Sorts tasks (replicate ntasks junk) ntasks few size
        (omega (arith, length-replicate ntasks junk)))
      (λ s0 srt.
        Returns-fault
          (Paired tasks ntasks nthreads (ntasks % 2) s0 srt (omega arith) few (parity-lt ntasks))
          (for_up (ntasks - ntasks % 2) (ntasks % 2)
            (deal_pair s0.a s0.map ntasks nthreads (ntasks % 2)) (start_deal ntasks junk))
          _
          (first_loop-Paired tasks ntasks nthreads (ntasks % 2) s0 srt (omega arith) few
            (parity-lt ntasks) junk (omega arith))
          (λ d p. bind_fault (for_down (ntasks % 2) (deal_rest s0.a s0.map nthreads) d) _ (
            for_down_once (ntasks % 2) (deal_rest s0.a s0.map nthreads) d odd
            ∙ bind_fault (least_loaded d.load nthreads) _ (
                least_loaded_fault d.load nthreads (omega (arith, p.bins))
                  (omega (arith, p.bins))))))
