-- ===== src/Ordered/Pass.antt =====
-- How `gomp_ordered_last` and `gomp_ordered_next` (libgomp/ordered.c) change the line.
use libgomp.Prelude.{
  ℕ, suc, ◌<◌, ◌≡◌, refl, sym, ◌∙◌, ap, List, [], ◌∷◌, ◌++◌, some, Bool, true, false, arith, ltb,
  if◌then◌else◌, ◌!◌, length, set, length-set, get_or-set_self, read_lem, write, write_lem, Returns,
  eq→==, ne→==, lt→ltb, not-lt→ltb, dec_lt,
}
use mathlib.Core.Path.{subst, ap₂}
use libgomp.Word.{sub32, sub32_exact}
use libgomp.Ordered.{
  OrderedShare, no_owner, tail_index, sem_post, gomp_ordered_last, gomp_ordered_next,
}
use libgomp.Ordered.Queue.{
  ring, entries, tail_index_lem, next_index_lem, ring-lt, entries-set, entries_shift,
}
use libgomp.Ordered.Refine.{Refines, used_lem, in_team_lem, post_head, AllBelow-snoc}

-- The ring of a line whose head is `h`.
module _ (n : ℕ) (ws : OrderedShare) (h : ℕ) (q : List ℕ) (held : Bool)
    (r : Refines n ws (h ∷ q) held) where
  used_suc : ws.num_used ≡ suc (length q)
  used_suc = used_lem n ws (h ∷ q) held r

  used_pred : sub32 ws.num_used 1 ≡ length q
  used_pred =
      sub32_exact ws.num_used 1 (omega (arith, used_suc))
        (omega (arith, r.is_ring.small, r.is_ring.used_le))
      ∙ omega (arith, used_suc)

  room_lem : length q < n
  room_lem = omega (arith, used_suc, r.is_ring.used_le)

  shifted : (ws.team_ids ! ws.cur) ∷ entries n ws.team_ids (ring n ws.cur 1) (length q) ≡ h ∷ q
  shifted =
      sym (entries_shift n ws.team_ids ws.cur (length q) r.is_ring.cur-lt room_lem)
      ∙ ap (entries n ws.team_ids ws.cur) (sym used_suc)
      ∙ r.line

  head_cell : ws.team_ids ! ws.cur ≡ h
  head_cell = cc shifted

  rest_cells : entries n ws.team_ids (ring n ws.cur 1) (length q) ≡ q
  rest_cells = cc shifted

  cur'-lt : ring n ws.cur 1 < n
  cur'-lt = ring-lt n ws.cur 1 r.is_ring.cur-lt (omega (arith, r.is_ring.several))

-- The head of a line is in its first cell.
first_cell :
    (n : ℕ) (ids : List ℕ) (cur y : ℕ) (q : List ℕ) (k : ℕ)
    → cur < n
    → k < n
    → entries n ids cur (suc k) ≡ y ∷ q
    → ids ! cur ≡ y
first_cell n ids cur y q k h l e = cc (entries_shift n ids cur k h l)

-- If the state stands for a line that its head holds, `gomp_ordered_last` returns a state that
-- stands for the rest of the line, not held.
pub last-Refines :
    (n : ℕ) (ws : OrderedShare) (h : ℕ) (q : List ℕ)
    → Refines n ws (h ∷ q) true
    → Returns (gomp_ordered_last (some n) ws) (λ ws'. Refines n ws' q false)
unfolding gomp_ordered_last
last-Refines n ws h [] r =
    rw (in_team_lem n ws _ r.is_ring, used_pred n ws h [] true r)
      (record {
        is_ring = record {
          several = r.is_ring.several;
          small = r.is_ring.small;
          cells = r.is_ring.cells;
          cur-lt = r.is_ring.cur-lt;
          used_le = omega arith;
        };
        line = refl;
        members = tt;
        owns = refl;
        counts = r.counts;
        posts = r.posts;
      })
last-Refines n ws h (y ∷ q) r =
    rw
      (
        in_team_lem n ws _ r.is_ring,
        used_pred n ws h (y ∷ q) true r,
        lt→ltb 0 (suc (length q)) (omega arith),
        next_index_lem n ws r.is_ring,
        read_lem ws.team_ids (ring n ws.cur 1) 0
            (omega (arith, r.is_ring.cells, cur'-lt n ws h (y ∷ q) true r)),
        first_cell n ws.team_ids (ring n ws.cur 1) y q (length q) (cur'-lt n ws h (y ∷ q) true r)
            (omega (arith, room_lem n ws h (y ∷ q) true r)) (rest_cells n ws h (y ∷ q) true r),
      )
      (post_head n
        (record ws { owner = no_owner; num_used = suc (length q); cur = ring n ws.cur 1 }) y q
        (record {
          several = r.is_ring.several;
          small = r.is_ring.small;
          cells = r.is_ring.cells;
          cur-lt = cur'-lt n ws h (y ∷ q) true r;
          used_le = omega (arith, room_lem n ws h (y ∷ q) true r);
        })
        (rest_cells n ws h (y ∷ q) true r) r.members.1 refl r.counts r.posts)

-- What `gomp_ordered_next` writes: the head, behind the others, unless the ring is full.
abbrev rejoined : ℕ → OrderedShare → ℕ → List ℕ
rejoined n ws h =
    if ltb ws.num_used n then set ws.team_ids (ring n ws.cur ws.num_used) h else ws.team_ids

module _ (n : ℕ) (ws : OrderedShare) (h y : ℕ) (q : List ℕ)
    (r : Refines n ws (h ∷ y ∷ q) true) where
  abbrev cur' : ℕ
  cur' = ring n ws.cur 1

  ring_again : ring n cur' (suc (length q)) ≡ ring n ws.cur ws.num_used
  ring_again = ground (arith, used_suc n ws h (y ∷ q) true r, r.is_ring.cur-lt, r.is_ring.used_le)

  rejoin_entries :
      (ids : List ℕ)
      → entries n ids cur' (suc (length q)) ≡ y ∷ q
      → ids ! ring n ws.cur ws.num_used ≡ h
      → entries n ids cur' ws.num_used ≡ (y ∷ q) ++ h ∷ []
  rejoin_entries ids e f =
      ap (entries n ids cur') (used_suc n ws h (y ∷ q) true r)
      ∙ ap₂ (λ l x. l ++ x ∷ []) e (ap (λ i. ids ! i) ring_again ∙ f)

  full_ring : ws.num_used ≡ n → ring n ws.cur ws.num_used ≡ ws.cur
  full_ring e = ground (arith, r.is_ring.cur-lt)

  rejoined_line : entries n (rejoined n ws h) cur' ws.num_used ≡ (y ∷ q) ++ h ∷ []
  rejoined_line = elim (dec_lt ws.num_used n) [
    | yes lt ↦ rw (lt→ltb ws.num_used n lt) (
        rejoin_entries (set ws.team_ids (ring n ws.cur ws.num_used) h)
          (subst (λ p. entries n (set ws.team_ids p h) cur' (suc (length q)) ≡ y ∷ q) ring_again
            (entries-set n ws.team_ids cur' (suc (length q)) (suc (length q)) h r.is_ring.cells
                (cur'-lt n ws h (y ∷ q) true r) (omega arith) (room_lem n ws h (y ∷ q) true r)
              ∙ rest_cells n ws h (y ∷ q) true r))
          (get_or-set_self ws.team_ids (ring n ws.cur ws.num_used) h 0 (
            omega (
              arith,
              r.is_ring.cells,
              ring-lt n ws.cur ws.num_used r.is_ring.cur-lt r.is_ring.used_le,
            ))))
    | no full ↦ rw (not-lt→ltb ws.num_used n full) (
        rejoin_entries ws.team_ids (rest_cells n ws h (y ∷ q) true r) (
          ap (λ i. ws.team_ids ! i) (full_ring (omega (arith, r.is_ring.used_le)))
          ∙ head_cell n ws h (y ∷ q) true r))
  ]

  length-rejoined : length (rejoined n ws h) ≡ n
  length-rejoined = elim (dec_lt ws.num_used n) [
    | yes lt ↦
        rw (lt→ltb ws.num_used n lt)
          (length-set ws.team_ids (ring n ws.cur ws.num_used) h ∙ r.is_ring.cells)
    | no full ↦ rw (not-lt→ltb ws.num_used n full) r.is_ring.cells
  ]

  turned : OrderedShare
  turned = record ws { owner = no_owner; team_ids = rejoined n ws h; cur = cur' }

  write-rejoined :
      (if ltb ws.num_used n then write ws.team_ids (tail_index n ws) h else some ws.team_ids)
      ≡ some (rejoined n ws h)
  write-rejoined = elim (dec_lt ws.num_used n) [
    | yes lt ↦
        rw (lt→ltb ws.num_used n lt, tail_index_lem n ws r.is_ring)
          (write_lem ws.team_ids (ring n ws.cur ws.num_used) h (
            omega (
              arith,
              r.is_ring.cells,
              ring-lt n ws.cur ws.num_used r.is_ring.cur-lt r.is_ring.used_le,
            )))
    | no full ↦ rw (not-lt→ltb ws.num_used n full)
  ]

  next_id_lem : rejoined n ws h ! cur' ≡ y
  next_id_lem =
      first_cell n (rejoined n ws h) cur' y (q ++ h ∷ []) (suc (length q))
        (cur'-lt n ws h (y ∷ q) true r) (room_lem n ws h (y ∷ q) true r)
        (ap (entries n (rejoined n ws h) cur') (sym (used_suc n ws h (y ∷ q) true r))
          ∙ rejoined_line)

  next_run : gomp_ordered_next (some n) h ws ≡ sem_post y turned
  unfolding gomp_ordered_next turned
  next_run =
      in_team_lem n ws _ r.is_ring
      ∙ rw (
        ne→== ws.num_used 1 (omega (arith, used_suc n ws h (y ∷ q) true r)),
        write-rejoined,
        next_index_lem n ws r.is_ring,
        read_lem (rejoined n ws h) (ring n ws.cur 1) 0
            (omega (arith, length-rejoined, cur'-lt n ws h (y ∷ q) true r)),
        next_id_lem,
      )

-- If the state stands for a line that its head holds, `gomp_ordered_next`, called by the head,
-- returns a state that stands for the line with the head moved behind the others, not held.
pub next-Refines :
    (n : ℕ) (ws : OrderedShare) (h : ℕ) (q : List ℕ)
    → Refines n ws (h ∷ q) true
    → Returns (gomp_ordered_next (some n) h ws) (λ ws'. Refines n ws' (q ++ h ∷ []) false)
unfolding gomp_ordered_next turned
next-Refines n ws h [] r =
    rw (in_team_lem n ws _ r.is_ring, eq→== ws.num_used 1 (used_suc n ws h [] true r))
      (post_head n (record ws { owner = no_owner }) h []
        (record {
          several = r.is_ring.several;
          small = r.is_ring.small;
          cells = r.is_ring.cells;
          cur-lt = r.is_ring.cur-lt;
          used_le = r.is_ring.used_le;
        })
        r.line r.members refl r.counts r.posts)
next-Refines n ws h (y ∷ q) r = rw (next_run n ws h y q r) (
    post_head n (turned n ws h y q r) y (q ++ h ∷ [])
      (record {
        several = r.is_ring.several;
        small = r.is_ring.small;
        cells = length-rejoined n ws h y q r;
        cur-lt = cur'-lt n ws h (y ∷ q) true r;
        used_le = r.is_ring.used_le;
      })
      (rejoined_line n ws h y q r) (r.members.1.0, AllBelow-snoc n q h r.members.1.1 r.members.0)
      refl r.counts r.posts)
