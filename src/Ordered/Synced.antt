-- ===== src/Ordered/Synced.antt =====
-- Who gets past `gomp_ordered_sync` (libgomp/ordered.c).
use libgomp.Prelude.{
  ℕ, ◌-◌, ◌<◌, ◌≡◌, sym, ◌∙◌, ◌≢◌, List, ◌∷◌, some, Bool, true, false, arith, ◌==◌, set, length-set,
  get_or-set, read_lem, write_lem, Returns, eq→==, ne→==, ℕ_discrete, Bool-cases, inl, inr,
}
use libgomp.Ordered.{OrderedShare, Sync, proceeds, blocks, gomp_ordered_sync}
use libgomp.Ordered.Refine.{Refines}

-- What a call of `gomp_ordered_sync` by the thread `tid` does to a line with the head `h`.
abbrev pub Synced : ℕ → ℕ → ℕ → List ℕ → Sync → Type 0
Synced n tid h q (proceeds ws') = (tid ≡ h) × Refines n ws' (h ∷ q) true
Synced n tid h q blocks = tid ≢ h

-- If the state stands for a line with the head `h`, `gomp_ordered_sync`, called by a thread of the
-- team, goes on only if the thread is `h`, and the line is then held; every other thread blocks.
pub sync-Synced :
    (n : ℕ) (ws : OrderedShare) (tid h : ℕ) (q : List ℕ) (held : Bool)
    → Refines n ws (h ∷ q) held
    → tid < n
    → Returns (gomp_ordered_sync (some n) tid ws) (Synced n tid h q)
unfolding gomp_ordered_sync
sync-Synced n ws tid h q true r t =
    rw (ne→== n 1 (omega (arith, r.is_ring.several))) (elim (Bool-cases (ws.owner == tid)) [
      | inl own ↦ rw own (ground (arith, r.owns), r)
      | inr other ↦
          rw (other, read_lem ws.release tid 0 (omega (arith, r.counts)), r.posts tid t)
            (λ e. absurd (ground (arith, r.owns)))
    ])
sync-Synced n ws tid h q false r t =
    rw
      (
        ne→== n 1 (omega (arith, r.is_ring.several)),
        ne→== ws.owner tid (λ e. absurd (omega (arith, r.owns, r.is_ring.small))),
        read_lem ws.release tid 0 (omega (arith, r.counts)),
      )
      (elim (ℕ_discrete h tid) [
        | yes same ↦
            rw
              (
                r.posts tid t,
                eq→== h tid same,
                write_lem ws.release tid (1 - 1) (omega (arith, r.counts)),
              )
              (sym same, entered same)
        | no other ↦ rw (r.posts tid t, ne→== h tid other) (λ e. other (sym e))
      ])
  where
    entered :
        h ≡ tid
        → Refines n (record ws { release = set ws.release tid (1 - 1); owner = tid }) (h ∷ q) true
    entered same = record {
      is_ring = record {
        several = r.is_ring.several;
        small = r.is_ring.small;
        cells = r.is_ring.cells;
        cur-lt = r.is_ring.cur-lt;
        used_le = r.is_ring.used_le;
      };
      line = r.line;
      members = r.members;
      owns = sym same;
      counts = length-set ws.release tid (1 - 1) ∙ r.counts;
      posts = λ u l. ground (arith, get_or-set ws.release tid u (1 - 1) 0, r.counts, r.posts u l);
    }
