-- ===== src/Work.antt =====
-- The team's cache of work shares (libgomp/work.c): `alloc_work_share` and `free_work_share`, with
-- atomic builtins.
pub mod Lists
pub mod Alloc
use libgomp.Prelude.{
  ℕ, zero, suc, ◌+◌, ◌*◌, ◌%◌, List, ◌∷◌, Option, none, some, ◌==◌, if◌then◌else◌, ◌-◌,
}
use libgomp.Word.{word32, sub32}

-- The fields of `struct gomp_team` for the cache, and the field `next_free` of every work share, by
-- its number; `malloc` returns the numbers from `count` on. `blocks` are those that begin a block,
-- the chain of `next_alloc` behind `work_shares[0]`.
pub record Cache : Type 0 where
  pub next_free : ℕ → Option ℕ
  pub list_alloc : Option ℕ
  pub list_free : Option ℕ
  pub work_share_chunk : ℕ
  pub blocks : List ℕ
  pub count : ℕ

-- `ws[x].next_free = v`
abbrev pub put : (ℕ → Option ℕ) → ℕ → Option ℕ → ℕ → Option ℕ
put f x v y = if x == y then v else f y

-- `for (i = 1; i < chunk - 1; i++) ws[i].next_free = &ws[i + 1]; ws[i].next_free = NULL;`, for `r`
-- more rounds from the cell `i` on.
unfoldable pub link : ℕ → ℕ → (ℕ → Option ℕ) → ℕ → Option ℕ
link zero i f = put f i none
link (suc r) i f = link r (i + 1) (put f i (some (i + 1)))

-- A new block, with twice the cells of the last one.
unfoldable pub new_block : Cache → ℕ × Cache
new_block t =
    let chunk = t.work_share_chunk * 2 % word32 in
    (
      t.count,
      record {
        next_free = link (sub32 chunk 1 - 1) (t.count + 1) t.next_free;
        list_alloc = some (t.count + 1);
        list_free = t.list_free;
        work_share_chunk = chunk;
        blocks = t.count ∷ t.blocks;
        count = t.count + chunk;
      },
    )

-- All but the first of the free list move to the list that is taken from.
unfoldable pub take_free : Cache → ℕ → Option ℕ → ℕ × Cache
take_free t ws none = new_block t
take_free t ws (some next) = (
  next,
  record t { next_free = put t.next_free ws none; list_alloc = put t.next_free ws none next },
)

-- `ws = team->work_share_list_free`
unfoldable pub from_free : Cache → Option ℕ → ℕ × Cache
from_free t none = new_block t
from_free t (some ws) = take_free t ws (t.next_free ws)

-- `if (team->work_share_list_alloc != NULL)`
unfoldable pub from_alloc : Cache → Option ℕ → ℕ × Cache
from_alloc t none = from_free t t.list_free
from_alloc t (some ws) = (ws, record t { list_alloc = t.next_free ws })

unfoldable pub alloc_work_share : Cache → ℕ × Cache
alloc_work_share t = from_alloc t t.list_alloc

-- `free_work_share` for a team: the compare-and-swap loop that pushes the work share, as one step.
unfoldable pub free_work_share : ℕ → Cache → Cache
free_work_share ws t = record t { next_free = put t.next_free ws t.list_free; list_free = some ws }
