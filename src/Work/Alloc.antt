-- ===== src/Work/Alloc.antt =====
-- `alloc_work_share` (libgomp/work.c) on the lists of the cache.
use libgomp.Prelude.{
  ℕ, zero, suc, ◌+◌, ◌*◌, ◌-◌, ◌%◌, ◌≤◌, ◌<◌, ◌≡◌, refl, sym, ◌∙◌, List, [], ◌∷◌, ◌++◌, Option,
  none, some, arith, eq→==,
}
use mathlib.Core.Path.{subst}
use mathlib.Core.List.{append-nil}
use libgomp.Word.{word32, sub32, sub32_exact}
use libgomp.Work.{Cache, put, link, new_block, take_free, from_free, from_alloc, alloc_work_share}
use libgomp.Work.Lists.{
  Chain, Outside, Distinct, Below, Holds, numbers, Chain-put, put_ne, Outside-both, Distinct-insert,
}

Below→Outside : (n x : ℕ) (ys : List ℕ) → n ≤ x → Below n ys → Outside x ys
Below→Outside n x [] h b = tt
Below→Outside n x (y ∷ ys) h b = ((λ e. omega (arith, b.0)), Below→Outside n x ys h b.1)

-- Linking touches nothing below its first cell.
link_below : (r i : ℕ) (f : ℕ → Option ℕ) (x : ℕ) → x < i → link r i f x ≡ f x
unfolding link
link_below zero i f x h = put_ne f i none x (λ e. omega arith)
link_below (suc r) i f x h =
    link_below r (i + 1) (put f i (some (i + 1))) x (omega arith)
    ∙ put_ne f i (some (i + 1)) x (λ e. omega arith)

Chain-link :
    (r i n : ℕ) (f : ℕ → Option ℕ) (p : Option ℕ) (ys : List ℕ)
    → n ≤ i
    → Below n ys
    → Chain f p ys
    → Chain (link r i f) p ys
unfolding link
Chain-link zero i n f p ys h b c = Chain-put f i none p ys (Below→Outside n i ys h b) c
Chain-link (suc r) i n f p ys h b c =
    Chain-link r (i + 1) n (put f i (some (i + 1))) p ys (omega arith) b
      (Chain-put f i (some (i + 1)) p ys (Below→Outside n i ys h b) c)

-- The cells are chained in order.
link-Chain : (r i : ℕ) (f : ℕ → Option ℕ) → Chain (link r i f) (some i) (numbers i (suc r))
unfolding link
link-Chain zero i f = let last : put f i none i ≡ none = rw (eq→== i i refl) in (refl, last)
link-Chain (suc r) i f =
    let at_i : link r (i + 1) (put f i (some (i + 1))) i ≡ some (i + 1) =
      link_below r (i + 1) (put f i (some (i + 1))) i (omega arith) ∙ rw (eq→== i i refl) in
    (
      refl,
      subst (λ q. Chain (link r (i + 1) (put f i (some (i + 1)))) q (numbers (i + 1) (suc r)))
          (sym at_i) (link-Chain r (i + 1) (put f i (some (i + 1)))),
    )

numbers-Outside : (x i k : ℕ) → x < i → Outside x (numbers i k)
numbers-Outside x i zero h = tt
numbers-Outside x i (suc k) h = ((λ e. omega arith), numbers-Outside x (i + 1) k (omega arith))

numbers-Distinct :
    (n i k : ℕ) (ys : List ℕ) → n ≤ i → Below n ys → Distinct ys → Distinct (numbers i k ++ ys)
numbers-Distinct n i zero ys h b d = d
numbers-Distinct n i (suc k) ys h b d = (
  Outside-both i (numbers (i + 1) k) ys (numbers-Outside i (i + 1) k (omega arith))
      (Below→Outside n i ys h b),
  numbers-Distinct n (i + 1) k ys (omega arith) b d,
)

-- Which work share is taken, and what the cache holds afterwards.
abbrev pub Taken : Cache → List ℕ → List ℕ → ℕ × Cache → Type 0
Taken t (x ∷ xs) ys o = (o.0 ≡ x) × Holds o.1 xs ys
Taken t [] (y ∷ z ∷ ys) o = (o.0 ≡ z) × Holds o.1 ys (y ∷ [])
Taken t [] ys o =
    (o.0 ≡ t.count) × Holds o.1 (numbers (t.count + 1) (t.work_share_chunk * 2 - 1)) ys

module _ (t : Cache) (some_cell : 0 < t.work_share_chunk)
    (small : t.work_share_chunk * 2 < word32) where
  new_block-Holds :
      (ys : List ℕ)
      → Chain t.next_free t.list_free ys
      → Below t.count ys
      → Distinct ys
      → ((new_block t).0 ≡ t.count)
        × Holds (new_block t).1 (numbers (t.count + 1) (t.work_share_chunk * 2 - 1)) ys
  unfolding new_block
  new_block-Holds ys c b d =
      let size : t.work_share_chunk * 2 % word32 ≡ t.work_share_chunk * 2 = omega arith in
      let rounds : sub32 (t.work_share_chunk * 2) 1 - 1 ≡ t.work_share_chunk * 2 - 2 =
        omega (arith, sub32_exact (t.work_share_chunk * 2) 1 (omega arith) small) in
      let cells : suc (t.work_share_chunk * 2 - 2) ≡ t.work_share_chunk * 2 - 1 = omega arith in
      rw (size, rounds)
        (
          refl,
          record {
            takes =
                subst
                  (λ k.
                    Chain (link (t.work_share_chunk * 2 - 2) (t.count + 1) t.next_free)
                      (some (t.count + 1)) (numbers (t.count + 1) k))
                  cells (link-Chain (t.work_share_chunk * 2 - 2) (t.count + 1) t.next_free);
            freed =
                Chain-link (t.work_share_chunk * 2 - 2) (t.count + 1) t.count t.next_free
                  t.list_free ys (omega arith) b c;
            apart =
                numbers-Distinct t.count (t.count + 1) (t.work_share_chunk * 2 - 1) ys (omega arith)
                  b d;
          },
        )

  -- Let the cache hold the work shares `xs` to take from and `ys` that were freed, all of them
  -- different and below `count`, and let the block size be positive and its double below 2 ^ 32.
  -- Then `alloc_work_share` takes the first of `xs` if there is one; otherwise the second of `ys`
  -- if there is one, of which only the first then stays freed and the others can be taken; and
  -- otherwise the first of a new block, whose other cells can then be taken in order. What the
  -- cache then holds is all different.
  pub alloc-Taken :
      (xs ys : List ℕ) → Holds t xs ys → Below t.count ys → Taken t xs ys (alloc_work_share t)
  unfolding alloc_work_share from_alloc from_free take_free
  alloc-Taken (x ∷ xs) ys h b =
      subst (λ q. Taken t (x ∷ xs) ys (from_alloc t q)) (sym h.takes.0)
        (refl, record { takes = h.takes.1; freed = h.freed; apart = h.apart.1 })
  alloc-Taken [] [] h b =
      subst (λ q. Taken t [] [] (from_alloc t q)) (sym h.takes)
        (subst (λ q. Taken t [] [] (from_free t q)) (sym h.freed)
          (new_block-Holds [] h.freed tt tt))
  alloc-Taken [] (y ∷ []) h b =
      subst (λ q. Taken t [] (y ∷ []) (from_alloc t q)) (sym h.takes)
        (subst (λ q. Taken t [] (y ∷ []) (from_free t q)) (sym h.freed.0)
          (subst (λ q. Taken t [] (y ∷ []) (take_free t y q)) (sym h.freed.1)
            (new_block-Holds (y ∷ []) h.freed b (tt, tt))))
  alloc-Taken [] (y ∷ z ∷ ys) h b =
      subst (λ q. Taken t [] (y ∷ z ∷ ys) (from_alloc t q)) (sym h.takes)
        (subst (λ q. Taken t [] (y ∷ z ∷ ys) (from_free t q)) (sym h.freed.0)
          (subst (λ q. Taken t [] (y ∷ z ∷ ys) (take_free t y q)) (sym h.freed.1.0)
            (refl, rest_taken)))
    where
      rest_taken : Holds (take_free t y (some z)).1 ys (y ∷ [])
      rest_taken = record {
        takes =
            subst (λ q. Chain (put t.next_free y none) q ys)
              (sym (put_ne t.next_free y none z h.apart.0.0))
              (Chain-put t.next_free y none (t.next_free z) ys h.apart.0.1 h.freed.1.1);
        freed = (h.freed.0, rw (eq→== y y refl));
        apart =
            Distinct-insert y ys [] h.apart.0.1 tt
              (subst (λ l. Distinct l) (sym (append-nil ys)) h.apart.1.1);
      }
