-- ===== src/MapIter/Schedule.antt =====
-- Threads that call `gomp_iter_binlpt_next` or `gomp_iter_srr_next` (libgomp/iter.c) in any order.
use libgomp.Prelude.{
  ℕ, zero, suc, ◌+◌, ◌-◌, ◌≤◌, ◌<◌, ◌^◌, ◌≡◌, refl, sym, ◌∙◌, ap, ◌≢◌, List, [], ◌∷◌, ◌++◌, Option,
  none, some, arith, true, false, eq→==, ne→==, ◌==◌, if◌then◌else◌, ◌!◌, length, set, replicate,
  length-set, get_or-set, ◌>>=◌, Returns, Returns-bind, Bool-cases, inl, inr, dec_le, ℕ_discrete,
}
use mathlib.Core.Path.{subst}
use mathlib.Core.List.{append_assoc, append-nil}
use libgomp.Prelude.Int.{ℤ, pos, ◌+ℤ◌, ◌-ℤ◌, pos_part, int_laws, IsLong}
use libgomp.MapIter.{MapShare, Range}
use libgomp.MapIter.Search.{Advance, finished, taken, IsReady}

-- The iterations of a range of length `n` from `a` on: the loop body's `for (x = a; x < b; x++)`.
abbrev pub span : ℤ → ℕ → List ℤ
span a zero = []
span a (suc n) = span a n ++ (a +ℤ pos n) ∷ []

abbrev pub iterations : Range → List ℤ
iterations none = []
iterations (some (a, b)) = span a (pos_part (b -ℤ a))

-- The iterations below `e` that the map gives to thread `t`, in ascending order.
abbrev pub mine : ℤ → List ℕ → ℕ → ℕ → List ℤ
mine first map t zero = []
mine first map t (suc e) =
    mine first map t e ++ (if map ! e == t then (first +ℤ pos e) ∷ [] else [])

pub mine_skip :
    (first : ℤ) (map : List ℕ) (t s e : ℕ)
    → s ≤ e
    → ((x : ℕ) → s ≤ x → x < e → map ! x ≢ t)
    → mine first map t e ≡ mine first map t s
mine_skip first map t s zero h n = let e : 0 ≡ s = omega arith in ap (mine first map t) e
mine_skip first map t s (suc e) h n = elim (dec_le s e) [
  | yes p ↦
      let no_hit : (map ! e == t) ≡ false = ne→== (map ! e) t (n e p (omega arith)) in
      rw no_hit (
        append-nil (mine first map t e)
        ∙ mine_skip first map t s e p (λ x l u. n x l (omega arith)))
  | no q ↦ let e' : suc e ≡ s = omega arith in ap (mine first map t) e'
]

-- Consecutive iterations from `first + i` on.
from_first : (first : ℤ) (i d : ℕ) → first +ℤ pos i +ℤ pos d ≡ first +ℤ pos (i + d)
from_first first i d = omega int_laws

mine_take :
    (first : ℤ) (map : List ℕ) (t i d : ℕ)
    → ((x : ℕ) → i ≤ x → x < i + d → map ! x ≡ t)
    → mine first map t (i + d) ≡ mine first map t i ++ span (first +ℤ pos i) d
mine_take first map t i zero own =
    let e : i + 0 ≡ i = omega arith in
    ap (mine first map t) e ∙ sym (append-nil (mine first map t i))
mine_take first map t i (suc d) own =
    let e : i + suc d ≡ suc (i + d) = omega arith in
    let hit : (map ! (i + d) == t) ≡ true =
      eq→== (map ! (i + d)) t (own (i + d) (omega arith) (omega arith)) in
    rw (e, hit, mine_take first map t i d (λ x l u. own x l (omega arith)), from_first first i d)
      (append_assoc (mine first map t i) (span (first +ℤ pos i) d) ((first +ℤ pos (i + d)) ∷ []))

range_length : (first : ℤ) (i d : ℕ) → pos_part (first +ℤ pos (i + d) -ℤ (first +ℤ pos i)) ≡ d
range_length first i d = ap pos_part (diff first i d)
  where
    diff : (first : ℤ) (i d : ℕ) → first +ℤ pos (i + d) -ℤ (first +ℤ pos i) ≡ pos d
    diff first i d = omega int_laws

-- A range that begins at the first own iteration continues the list of what was executed.
taken_mine :
    (first : ℤ) (map : List ℕ) (t st i j : ℕ)
    → st ≤ i
    → i < j
    → ((x : ℕ) → st ≤ x → x < i → map ! x ≢ t)
    → ((x : ℕ) → i ≤ x → x < j → map ! x ≡ t)
    → mine first map t st ++ iterations (some (first +ℤ pos i, first +ℤ pos j)) ≡ mine first map t j
taken_mine first map t st i j a b skip own =
    let e : i + (j - i) ≡ j = omega arith in
    let taken_all : mine first map t (i + (j - i))
        ≡ mine first map t i ++ span (first +ℤ pos i) (j - i) =
      mine_take first map t i (j - i) (λ x l u. own x l (omega arith)) in
    let len : pos_part (first +ℤ pos (i + (j - i)) -ℤ (first +ℤ pos i)) ≡ j - i =
      range_length first i (j - i) in
    ap (λ n. mine first map t st ++ span (first +ℤ pos i) n)
      (subst (λ z. pos_part (first +ℤ pos z -ℤ (first +ℤ pos i)) ≡ j - i) e len)
    ∙ ap (λ l. l ++ span (first +ℤ pos i) (j - i)) (sym (mine_skip first map t st i a skip))
    ∙ sym taken_all
    ∙ ap (mine first map t) e

-- What the two schedulers have in common.
pub record NextTask (ntasks : ℕ) : Type 0 where
  pub next : ℕ → MapShare → Option (Range × MapShare)
  pub advances :
      (tid : ℕ) (ws : MapShare)
      → IsReady ntasks tid ws
      → Returns (next tid ws) (Advance ntasks tid ws)

-- The shared construct, and what each thread has executed so far.
pub record Run : Type 0 where
  pub ws : MapShare
  pub executed : ℕ → List ℤ

abbrev pub log : ℕ → Range → (ℕ → List ℤ) → ℕ → List ℤ
log tid r executed u = if tid == u then executed u ++ iterations r else executed u

module _ {ntasks : ℕ} (sched : NextTask ntasks) where
  -- The thread `tid` asks for iterations and executes them.
  unfoldable pub turn : ℕ → Run → Option Run
  turn tid s = do
    (r, ws') ← sched.next tid s.ws
    some (record { ws = ws'; executed = log tid r s.executed })

  -- The threads take turns in the order of the list.
  unfoldable pub run : List ℕ → Run → Option Run
  run [] s = some s
  run (tid ∷ tids) s = turn tid s >>= λ s'. run tids s'

-- The start: `calloc` clears `thread_start`, and nothing is executed.
abbrev pub fresh : ℤ → List ℕ → ℕ → Run
fresh first map nthreads = record {
  ws = record { loop_start = first; taskmap = map; thread_start = replicate nthreads 0 };
  executed = λ _. [];
}

-- The map has a cell for each task, a task number fits in an `int`, and a loop value in a `long`.
pub record IsSized (first : ℤ) (map : List ℕ) (ntasks : ℕ) : Type 0 where
  pub cells : ntasks ≤ length map
  pub few : ntasks < 2 ^ 31
  pub first_fits : IsLong first
  pub last_fits : IsLong (first +ℤ pos ntasks)

-- Each thread has executed its own iterations below its start, in order.
pub record IsOrderly (first : ℤ) (map : List ℕ) (ntasks nthreads : ℕ) (s : Run) : Type 0 where
  pub kept_first : s.ws.loop_start ≡ first
  pub kept_map : s.ws.taskmap ≡ map
  pub width : length s.ws.thread_start ≡ nthreads
  pub start_le : (t : ℕ) → t < nthreads → s.ws.thread_start ! t ≤ ntasks
  pub executed_mine :
      (t : ℕ) → t < nthreads → s.executed t ≡ mine first map t (s.ws.thread_start ! t)

module _ {ntasks : ℕ} (sched : NextTask ntasks) (first : ℤ) (map : List ℕ) (nthreads : ℕ)
    (fits : IsSized first map ntasks) where
  pub ready :
      (s : Run) (tid : ℕ)
      → tid < nthreads
      → IsOrderly first map ntasks nthreads s
      → IsReady ntasks tid s.ws
  ready s tid h o = record {
    fits = rw o.kept_map fits.cells;
    few = fits.few;
    first_fits = rw o.kept_first fits.first_fits;
    last_fits = rw o.kept_first fits.last_fits;
    known = omega (arith, o.width);
    start_le = o.start_le tid h;
  }

  pub Advance-IsOrderly :
      (s : Run) (tid : ℕ)
      → tid < nthreads
      → IsOrderly first map ntasks nthreads s
      → (r : Range) (ws' : MapShare) → Advance ntasks tid s.ws (r, ws')
      → IsOrderly first map ntasks nthreads (record { ws = ws'; executed = log tid r s.executed })
  Advance-IsOrderly s tid h o r ws' (finished f) = record {
    kept_first = o.kept_first;
    kept_map = o.kept_map;
    width = o.width;
    start_le = o.start_le;
    executed_mine = λ t l. elim (Bool-cases (tid == t)) [
      | inl e ↦ rw e (append-nil (s.executed t) ∙ o.executed_mine t l)
      | inr e ↦ rw e (o.executed_mine t l)
    ];
  }
  Advance-IsOrderly s tid h o r ws' (taken i j a b c d e) = record {
    kept_first = o.kept_first;
    kept_map = o.kept_map;
    width = length-set s.ws.thread_start tid j ∙ o.width;
    start_le = λ t l. ground (arith, starts t, o.start_le t l);
    executed_mine = λ t l. elim (ℕ_discrete tid t) [
      | yes same ↦
          subst (λ u. log tid r s.executed u ≡ mine first map u (set s.ws.thread_start tid j ! u))
            same own
      | no other ↦ rw (starts t, ne→== tid t other) (o.executed_mine t l)
    ];
  }
    where
      starts :
          (t : ℕ)
          → set s.ws.thread_start tid j ! t ≡ (if tid == t then j else s.ws.thread_start ! t)
      starts t = get_or-set s.ws.thread_start tid t j 0 (omega (arith, o.width))

      own : log tid r s.executed tid ≡ mine first map tid (set s.ws.thread_start tid j ! tid)
      own =
          rw (starts tid, eq→== tid tid refl)
            (subst
              (λ z.
                s.executed tid ++ iterations (some (z +ℤ pos i, z +ℤ pos j)) ≡ mine first map tid j)
              (sym o.kept_first)
              (ap (λ l. l ++ iterations (some (first +ℤ pos i, first +ℤ pos j)))
                  (o.executed_mine tid h)
                ∙ taken_mine first map tid (s.ws.thread_start ! tid) i j a b
                    (λ x l u. subst (λ m. m ! x ≢ tid) o.kept_map (d x l u))
                    (λ x l u. subst (λ m. m ! x ≡ tid) o.kept_map (e x l u))))

  -- Every turn keeps the order.
  pub turn-IsOrderly :
      (s : Run) (tid : ℕ)
      → tid < nthreads
      → IsOrderly first map ntasks nthreads s
      → Returns (turn sched tid s) (IsOrderly first map ntasks nthreads)
  unfolding turn
  turn-IsOrderly s tid h o =
      Returns-bind (Advance ntasks tid s.ws) _ (sched.next tid s.ws) _
        (sched.advances tid s.ws (ready s tid h o))
        (λ (r, ws') adv. Advance-IsOrderly s tid h o r ws' adv)
