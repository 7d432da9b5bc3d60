-- ===== src/Ordered/Refine.antt =====
-- libgomp/ordered.c and the first-come, first-served line that it stands for.
use libgomp.Prelude.{
  ℕ, zero, suc, ◌+◌, ◌<◌, ◌≡◌, refl, sym, ◌∙◌, ap, List, [], ◌∷◌, ◌++◌, Option, some, Bool, true,
  false, arith, ◌==◌, if◌then◌else◌, ◌!◌, length, length-append, set, length-set, get_or-set,
  get_or-set_self, read_lem, write_lem, Returns, eq→==, ne→==,
}
use mathlib.Core.Path.{ap₂}
use native.Mathlib.Numerals.{add-one}
use libgomp.Word.{add32_exact}
use libgomp.Ordered.{OrderedShare, no_owner, sem_post, in_team, gomp_ordered_first}
use libgomp.Ordered.Queue.{ring, entries, queue, IsRing, tail_index_lem, ring-lt, entries-set}

-- The semaphore counts: the head that does not hold the region yet has one post.
abbrev pub offered : List ℕ → Bool → ℕ → ℕ
offered [] held t = 0
offered (h ∷ q) held t = if held then 0 else if h == t then 1 else 0

-- The owner that is on record.
abbrev pub holder : List ℕ → Bool → ℕ
holder [] held = no_owner
holder (h ∷ q) held = if held then h else no_owner

abbrev pub AllBelow : ℕ → List ℕ → Type 0
AllBelow n [] = Unit
AllBelow n (t ∷ ts) = (t < n) × AllBelow n ts

-- `ws` stands for the line `q`, whose head holds the region if `held`.
pub record Refines (n : ℕ) (ws : OrderedShare) (q : List ℕ) (held : Bool) : Type 0 where
  pub is_ring : IsRing n ws
  pub line : queue n ws ≡ q
  pub members : AllBelow n q
  pub owns : ws.owner ≡ holder q held
  pub counts : length ws.release ≡ n
  pub posts : (t : ℕ) → t < n → ws.release ! t ≡ offered q held t

length-entries : (n : ℕ) (ids : List ℕ) (cur k : ℕ) → length (entries n ids cur k) ≡ k
length-entries n ids cur zero = refl
length-entries n ids cur (suc k) = omega (
  arith,
  length-append (entries n ids cur k) ((ids ! ring n cur k) ∷ []),
  length-entries n ids cur k,
)

pub AllBelow-snoc : (n : ℕ) (q : List ℕ) (t : ℕ) → AllBelow n q → t < n → AllBelow n (q ++ t ∷ [])
AllBelow-snoc n [] t a h = (h, tt)
AllBelow-snoc n (x ∷ q) t a h = (a.0, AllBelow-snoc n q t a.1 h)

sem_post_lem :
    (id : ℕ) (ws : OrderedShare)
    → id < length ws.release
    → sem_post id ws ≡ some (record ws { release = set ws.release id (ws.release ! id + 1) })
unfolding sem_post
sem_post_lem id ws h =
    rw (read_lem ws.release id 0 h, write_lem ws.release id (ws.release ! id + 1) h)

module _ (n : ℕ) (ws : OrderedShare) where
  pub used_lem : (q : List ℕ) (held : Bool) → Refines n ws q held → ws.num_used ≡ length q
  used_lem q held r = sym (length-entries n ws.team_ids ws.cur ws.num_used) ∙ ap length r.line

  pub in_team_lem :
      (body : ℕ → Option OrderedShare) → IsRing n ws → in_team (some n) ws body ≡ body n
  unfolding in_team
  in_team_lem body r = ground (arith, r.several)

  -- Joining: the thread is written behind the queue.
  module _ (tid : ℕ) (q : List ℕ) (held : Bool) (r : Refines n ws q held) (h : tid < n)
      (room : ws.num_used < n) where
    joined : OrderedShare
    joined = record ws {
      team_ids = set ws.team_ids (ring n ws.cur ws.num_used) tid;
      num_used = suc ws.num_used;
    }

    tail-lt : ring n ws.cur ws.num_used < n
    tail-lt = ring-lt n ws.cur ws.num_used r.is_ring.cur-lt r.is_ring.used_le

    joined_line : queue n joined ≡ q ++ tid ∷ []
    unfolding joined
    joined_line =
        ap₂ (λ l x. l ++ x ∷ [])
          (entries-set n ws.team_ids ws.cur ws.num_used ws.num_used tid r.is_ring.cells
              r.is_ring.cur-lt (omega arith) room
            ∙ r.line)
          (get_or-set_self ws.team_ids (ring n ws.cur ws.num_used) tid 0
            (omega (arith, r.is_ring.cells, tail-lt)))

    joined-IsRing : IsRing n joined
    unfolding joined
    joined-IsRing = record {
      several = r.is_ring.several;
      small = r.is_ring.small;
      cells = length-set ws.team_ids (ring n ws.cur ws.num_used) tid ∙ r.is_ring.cells;
      cur-lt = r.is_ring.cur-lt;
      used_le = room;
    }

    first_run :
        gomp_ordered_first (some n) tid ws
        ≡ (if ws.num_used == 0 then sem_post tid joined else some joined)
    unfolding gomp_ordered_first joined
    first_run =
        in_team_lem _ r.is_ring
        ∙ rw (
          tail_index_lem n ws r.is_ring,
          write_lem ws.team_ids (ring n ws.cur ws.num_used) tid
              (omega (arith, r.is_ring.cells, tail-lt)),
          add32_exact ws.num_used 1 (omega (arith, r.is_ring.small)),
          add-one ws.num_used,
        )

-- Posting to the head of a line that nobody holds or was offered.
pub post_head :
    (n : ℕ) (w : OrderedShare) (h : ℕ) (q : List ℕ)
    → IsRing n w
    → queue n w ≡ h ∷ q
    → AllBelow n (h ∷ q)
    → w.owner ≡ no_owner
    → length w.release ≡ n
    → ((t : ℕ) → t < n → w.release ! t ≡ 0)
    → Returns (sem_post h w) (λ w'. Refines n w' (h ∷ q) false)
post_head n w h q r l m o c z = rw (sem_post_lem h w (omega (arith, c, m.0))) (record {
  is_ring = record {
    several = r.several;
    small = r.small;
    cells = r.cells;
    cur-lt = r.cur-lt;
    used_le = r.used_le;
  };
  line = l;
  members = m;
  owns = o;
  counts = length-set w.release h (w.release ! h + 1) ∙ c;
  posts =
      λ t k. ground (arith, get_or-set w.release h t (w.release ! h + 1) 0, c, m.0, z t k, z h m.0);
})

-- If the state stands for the line `q`, held by its head or not, a thread `tid` of the team joins,
-- and the array has room, `gomp_ordered_first` returns a state that stands for `q` with `tid`
-- behind it, held as before; an empty line must not be held.
pub first-Refines :
    (n : ℕ) (ws : OrderedShare) (tid : ℕ) (q : List ℕ) (held : Bool)
    → Refines n ws q held
    → tid < n
    → ws.num_used < n
    → (q ≡ [] → held ≡ false)
    → Returns (gomp_ordered_first (some n) tid ws) (λ ws'. Refines n ws' (q ++ tid ∷ []) held)
unfolding joined
first-Refines n ws tid [] true r h room e = absurd (cc (e refl))
first-Refines n ws tid [] false r h room e =
    rw (first_run n ws tid [] false r h room, eq→== ws.num_used 0 (used_lem n ws [] false r))
      (post_head n (joined n ws tid [] false r h room) tid []
        (joined-IsRing n ws tid [] false r h room) (joined_line n ws tid [] false r h room) (h, tt)
        r.owns r.counts r.posts)
first-Refines n ws tid (x ∷ q) held r h room e =
    rw
      (
        first_run n ws tid (x ∷ q) held r h room,
        ne→== ws.num_used 0 (omega (arith, used_lem n ws (x ∷ q) held r)),
      )
      (record {
        is_ring = joined-IsRing n ws tid (x ∷ q) held r h room;
        line = joined_line n ws tid (x ∷ q) held r h room;
        members = AllBelow-snoc n (x ∷ q) tid r.members h;
        owns = r.owns;
        counts = r.counts;
        posts = r.posts;
      })
