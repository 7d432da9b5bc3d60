-- ===== src/Work/Lists.antt =====
-- The two lists of the cache of work shares (libgomp/work.c) as lists.
use libgomp.Prelude.{
  ℕ, zero, suc, ◌+◌, ◌<◌, ◌≡◌, ◌≢◌, refl, sym, List, [], ◌∷◌, ◌++◌, Option, none, some, eq→==,
  ne→==,
}
use mathlib.Core.Path.{subst}
use libgomp.Work.{Cache, put, free_work_share}

-- `p` points to the chain of `xs`.
abbrev pub Chain : (ℕ → Option ℕ) → Option ℕ → List ℕ → Type 0
Chain f p [] = p ≡ none
Chain f p (x ∷ xs) = (p ≡ some x) × Chain f (f x) xs

abbrev pub Outside : ℕ → List ℕ → Type 0
Outside x [] = Unit
Outside x (y ∷ ys) = (x ≢ y) × Outside x ys

-- No number repeats.
abbrev pub Distinct : List ℕ → Type 0
Distinct [] = Unit
Distinct (x ∷ xs) = Outside x xs × Distinct xs

abbrev pub Below : ℕ → List ℕ → Type 0
Below n [] = Unit
Below n (x ∷ xs) = (x < n) × Below n xs

-- The cache holds `xs` to take from and `ys` that were freed, all of them different.
pub record Holds (t : Cache) (xs ys : List ℕ) : Type 0 where
  pub takes : Chain t.next_free t.list_alloc xs
  pub freed : Chain t.next_free t.list_free ys
  pub apart : Distinct (xs ++ ys)

-- `k` numbers from `i` on.
abbrev pub numbers : ℕ → ℕ → List ℕ
numbers i zero = []
numbers i (suc k) = i ∷ numbers (i + 1) k

-- A write elsewhere leaves a chain.
pub Chain-put :
    (f : ℕ → Option ℕ) (x : ℕ) (v p : Option ℕ) (xs : List ℕ)
    → Outside x xs
    → Chain f p xs
    → Chain (put f x v) p xs
Chain-put f x v p [] o c = c
Chain-put f x v p (y ∷ ys) o c =
    let same : put f x v y ≡ f y = rw (ne→== x y o.0) in
    (c.0, subst (λ q. Chain (put f x v) q ys) (sym same) (Chain-put f x v (f y) ys o.1 c.1))

pub put_ne : (f : ℕ → Option ℕ) (x : ℕ) (v : Option ℕ) (y : ℕ) → x ≢ y → put f x v y ≡ f y
put_ne f x v y n = rw (ne→== x y n)

Outside-left : (x : ℕ) (xs ys : List ℕ) → Outside x (xs ++ ys) → Outside x xs
Outside-left x [] ys o = tt
Outside-left x (z ∷ zs) ys o = (o.0, Outside-left x zs ys o.1)

pub Outside-right : (x : ℕ) (xs ys : List ℕ) → Outside x (xs ++ ys) → Outside x ys
Outside-right x [] ys o = o
Outside-right x (z ∷ zs) ys o = Outside-right x zs ys o.1

pub Outside-both : (x : ℕ) (xs ys : List ℕ) → Outside x xs → Outside x ys → Outside x (xs ++ ys)
Outside-both x [] ys a b = b
Outside-both x (z ∷ zs) ys a b = (a.0, Outside-both x zs ys a.1 b)

-- A new head of the second list.
pub Distinct-insert :
    (x : ℕ) (xs ys : List ℕ)
    → Outside x xs
    → Outside x ys
    → Distinct (xs ++ ys)
    → Distinct (xs ++ x ∷ ys)
Distinct-insert x [] ys a b d = (b, d)
Distinct-insert x (z ∷ zs) ys a b d = (
  Outside-both z zs (x ∷ ys) (Outside-left z zs ys d.0)
      ((λ e. a.0 (sym e)), Outside-right z zs ys d.0),
  Distinct-insert x zs ys a.1 b d.1,
)

-- Let the cache hold the work shares `xs` to take from and `ys` that were freed, all of them
-- different, and let `x` be none of them. Then `free_work_share` puts `x` before `ys`, leaves `xs`,
-- and what the cache then holds is all different.
pub free-Holds :
    (t : Cache) (x : ℕ) (xs ys : List ℕ)
    → Holds t xs ys
    → Outside x (xs ++ ys)
    → Holds (free_work_share x t) xs (x ∷ ys)
unfolding free_work_share
free-Holds t x xs ys h o =
    let ox = Outside-left x xs ys o in
    let oy = Outside-right x xs ys o in
    let here : put t.next_free x t.list_free x ≡ t.list_free = rw (eq→== x x refl) in
    record {
      takes = Chain-put t.next_free x t.list_free t.list_alloc xs ox h.takes;
      freed = (
        refl,
        subst (λ q. Chain (put t.next_free x t.list_free) q ys) (sym here)
            (Chain-put t.next_free x t.list_free t.list_free ys oy h.freed),
      );
      apart = Distinct-insert x xs ys ox oy h.apart;
    }
