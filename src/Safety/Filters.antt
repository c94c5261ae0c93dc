-- ===== src/Safety/Filters.antt =====
-- Predicates of what a search keeps, finds and prepends.
use mathlib.Core.Path.{subst}
use umleitung.Base.{
  ◌≡◌, refl, Bool, true, false, ◌||◌, Option, none, some, List, [], ◌∷◌, if◌then◌else◌, All, arith,
}
use umleitung.Base.Text.{Text, contains, eq_iff, ◌==◌}
use umleitung.Mirror.{prepend, kept_of, found_of}
use umleitung.Mirror.Pipeline.{PendingCopy}
use umleitung.Safety.Producer.{OnSome}

All-if :
    {A : Type 0} (P : A → Type 0) (b : Bool) (xs ys : List A)
    → (b ≡ true → All P xs)
    → (b ≡ false → All P ys)
    → All P (if b then xs else ys)
All-if P true xs ys hx hy = hx refl
All-if P false xs ys hx hy = hy refl

pub contains-All :
    (P : Text → Type 0) (ks : List Text) (k : Text) → All P ks → contains ks k ≡ true → P k
contains-All P [] k h e = ground arith
contains-All P (x ∷ xs) k h e = go (x == k) ((eq_iff x k).0) (contains-All P xs k h.1) e
  where
    go :
        (b : Bool)
        → (b ≡ true → x ≡ k)
        → (contains xs k ≡ true → P k)
        → (b || contains xs k) ≡ true
        → P k
    go true same rest e = subst P (same refl) h.0
    go false same rest e = rest e

pub kept_of-All :
    (P : PendingCopy → Type 0) (ks : List Text) (pend : List PendingCopy)
    → All P pend
    → All P (kept_of ks pend)
unfolding kept_of
kept_of-All P ks [] h = tt
kept_of-All P ks (p ∷ pend) h =
    let rest = kept_of-All P ks pend h.1 in
    All-if P (contains ks p.key) _ _ (λ e. rest) (λ e. (h.0, rest))

pub found_of-All :
    (P : Text → Type 0) (ks : List Text) (pend : List PendingCopy)
    → All P ks
    → All (λ p. P p.key) (found_of ks pend)
unfolding found_of
found_of-All P ks [] h = tt
found_of-All P ks (p ∷ pend) h =
    let rest = found_of-All P ks pend h in
    All-if (λ (q : PendingCopy). P q.key) (contains ks p.key) _ _
      (λ e. (contains-All P ks p.key h e, rest)) (λ e. rest)

pub prepend-All :
    (P : PendingCopy → Type 0) (c : Option PendingCopy) (pend : List PendingCopy)
    → OnSome P c
    → All P pend
    → All P (prepend c pend)
prepend-All P none pend c h = h
prepend-All P (some p) pend c h = (c, h)
