-- ===== src/Base/Trim.antt =====
-- A trimmed text stays as it is when it is trimmed again.
use Prim.Native.Nat.{ℕ}
use mathlib.Core.Path.{◌≡◌, refl, sym, ap, ◌∙◌, subst}
use mathlib.Core.Bool.{Bool, false}
use mathlib.Core.List.{[], ◌∷◌, ◌++◌, reverse, reverse-append, reverse-reverse}
use umleitung.Base.Tests.{Bool-cases}
use mathlib.Core.Logic.{inl, inr}
use umleitung.Base.Text.{Text, drop_while, trim, trim_space, is_space}

-- no character at the front meets the test
abbrev IsBare : (ℕ → Bool) → Text → Type 0
IsBare p [] = Unit
IsBare p (c ∷ s) = p c ≡ false

drop_while-IsBare : (p : ℕ → Bool) (s : Text) → IsBare p (drop_while p s)
unfolding drop_while
drop_while-IsBare p [] = tt
drop_while-IsBare p (c ∷ s) = elim (Bool-cases (p c)) [
  | inl e ↦ rw e (drop_while-IsBare p s)
  | inr e ↦ rw e e
]

IsBare-drop_while : (p : ℕ → Bool) (s : Text) → IsBare p s → drop_while p s ≡ s
unfolding drop_while
IsBare-drop_while p [] h = refl
IsBare-drop_while p (c ∷ s) h = rw h refl

-- what is dropped
abbrev Dropped : (ℕ → Bool) → Text → Type 0
Dropped p s = (pre : Text) × (s ≡ pre ++ drop_while p s)

drop_while-Dropped : (p : ℕ → Bool) (s : Text) → Dropped p s
unfolding drop_while
drop_while-Dropped p [] = ([], refl)
drop_while-Dropped p (c ∷ s) = elim (Bool-cases (p c)) [
  | inl e ↦ let (pre, h) = drop_while-Dropped p s in rw e (c ∷ pre, ap (λ t. c ∷ t) h)
  | inr e ↦ rw e ([], refl)
]

-- the front of a text that has something behind it
IsBare-prefix : (p : ℕ → Bool) (s t : Text) → IsBare p (s ++ t) → IsBare p s
IsBare-prefix p [] t h = tt
IsBare-prefix p (c ∷ s) t h = h

pub trim-trim : (p : ℕ → Bool) (s : Text) → trim p (trim p s) ≡ trim p s
unfolding trim
trim-trim p s =
    let t = drop_while p s in
    let u = drop_while p (reverse t) in
    let (pre, h) = drop_while-Dropped p (reverse t) in
    let whole : t ≡ reverse u ++ reverse pre =
      sym (reverse-reverse t) ∙ (ap reverse h ∙ reverse-append pre u) in
    let bare : IsBare p (reverse u) =
      IsBare-prefix p (reverse u) (reverse pre) (subst (IsBare p) whole (drop_while-IsBare p s)) in
    ap (λ x. reverse (drop_while p (reverse x))) (IsBare-drop_while p (reverse u) bare)
    ∙ (ap (λ x. reverse (drop_while p x)) (reverse-reverse u)
        ∙ ap reverse (IsBare-drop_while p u (drop_while-IsBare p (reverse t))))

pub trim_space-trim_space : (s : Text) → trim_space (trim_space s) ≡ trim_space s
unfolding trim_space
trim_space-trim_space s = trim-trim is_space s

pub trim_space-nil : trim_space [] ≡ []
unfolding trim_space trim drop_while
trim_space-nil = refl
