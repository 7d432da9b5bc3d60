-- ===== src/Ordered/Queue.antt =====
-- The circular queue of libgomp/ordered.c as a list.
use libgomp.Prelude.{
  ℕ, zero, suc, ◌+◌, ◌-◌, ◌≤◌, ◌<◌, ◌≡◌, refl, sym, ap, List, [], ◌∷◌, ◌++◌, arith, leb,
  if◌then◌else◌, ◌!◌, length, set, get_or-set_ne,
}
use mathlib.Core.Path.{ap₂}
use libgomp.Word.{word32, add32_exact, sub32_exact}
use libgomp.Ordered.{OrderedShare, tail_index, next_index}

-- The position `k` places behind `cur`, in a ring of `n` cells.
abbrev pub ring : ℕ → ℕ → ℕ → ℕ
ring n cur k = if leb n (cur + k) then cur + k - n else cur + k

-- The first `k` threads of the queue that begins at `cur`.
abbrev pub entries : ℕ → List ℕ → ℕ → ℕ → List ℕ
entries n ids cur zero = []
entries n ids cur (suc k) = entries n ids cur k ++ (ids ! ring n cur k) ∷ []

abbrev pub queue : ℕ → OrderedShare → List ℕ
queue n ws = entries n ws.team_ids ws.cur ws.num_used

-- The indices stand for places of the ring.
pub record IsRing (n : ℕ) (ws : OrderedShare) : Type 0 where
  pub several : 1 < n
  pub small : n + n < word32
  pub cells : length ws.team_ids ≡ n
  pub cur-lt : ws.cur < n
  pub used_le : ws.num_used ≤ n

module _ (n : ℕ) (ws : OrderedShare) (r : IsRing n ws) where
  pub tail_index_lem : tail_index n ws ≡ ring n ws.cur ws.num_used
  unfolding tail_index
  tail_index_lem =
      rw (add32_exact ws.cur ws.num_used (omega (arith, r.small, r.cur-lt, r.used_le)))
        (ground (arith, sub32_exact (ws.cur + ws.num_used) n, r.small, r.cur-lt, r.used_le))

  pub next_index_lem : next_index n ws ≡ ring n ws.cur 1
  unfolding next_index
  next_index_lem =
      rw (add32_exact ws.cur 1 (omega (arith, r.small, r.cur-lt))) (ground (arith, r.cur-lt))

-- Different places have different cells.
pub ring-lt : (n cur k : ℕ) → cur < n → k ≤ n → ring n cur k < n
ring-lt n cur k h l = ground arith

ring-injective : (n cur j k : ℕ) → cur < n → j < n → k < n → ring n cur j ≡ ring n cur k → j ≡ k
ring-injective n cur j k h a b e = ground arith

ring_shift : (n cur k : ℕ) → cur < n → k < n → ring n (ring n cur 1) k ≡ ring n cur (suc k)
ring_shift n cur k h l = ground arith

zero_ring : (n cur : ℕ) → cur < n → ring n cur 0 ≡ cur
zero_ring n cur h = ground arith

-- A write behind the queue leaves the queue.
pub entries-set :
    (n : ℕ) (ids : List ℕ) (cur k p v : ℕ)
    → length ids ≡ n
    → cur < n
    → k ≤ p
    → p < n
    → entries n (set ids (ring n cur p) v) cur k ≡ entries n ids cur k
entries-set n ids cur zero p v e h a b = refl
entries-set n ids cur (suc k) p v e h a b =
    ap₂ (λ l x. l ++ x ∷ []) (entries-set n ids cur k p v e h (omega arith) b) other
  where
    other : set ids (ring n cur p) v ! ring n cur k ≡ ids ! ring n cur k
    other =
        get_or-set_ne ids (ring n cur p) (ring n cur k) v 0
          (λ q. absurd (omega (arith, ring-injective n cur p k h b (omega arith) q)))

-- The queue begins with the thread at `cur`, and goes on from the next cell.
pub entries_shift :
    (n : ℕ) (ids : List ℕ) (cur k : ℕ)
    → cur < n
    → k < n
    → entries n ids cur (suc k) ≡ (ids ! cur) ∷ entries n ids (ring n cur 1) k
entries_shift n ids cur zero h l = ap (λ i. (ids ! i) ∷ []) (zero_ring n cur h)
entries_shift n ids cur (suc k) h l =
    ap₂ (λ q i. q ++ (ids ! i) ∷ []) (entries_shift n ids cur k h (omega arith))
      (sym (ring_shift n cur k h (omega arith)))
