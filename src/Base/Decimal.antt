-- ===== src/Base/Decimal.antt =====
-- Decimal notation: it is read back, it holds digits alone, and it ends at the next separator.
use Prim.Native.Nat.{ℕ, zero, suc, ◌+◌, ◌-◌, ◌*◌, ◌/◌, ◌%◌, ◌≤◌, ◌<◌}
use mathlib.Core.Path.{◌≡◌, refl, sym, ap, ap₂, ◌∙◌}
use mathlib.Core.Bool.{true}
use mathlib.Core.Logic.{inl, inr}
use mathlib.Core.Option.{some, some-injective}
use mathlib.Core.List.{[], ◌∷◌, ◌++◌}
use native.Mathlib.Omega.{arith}
use umleitung.Base.Tests.{ltb, leb, Bool-cases, ltb→lt, ltb→le}
use umleitung.Base.Lists.{All, All-map}
use umleitung.Base.Text.{Text, len, width, digits, decimal, ℤ, pos, negsuc, show_int, parse_digits}

pub cons-injective : {c d : ℕ} {s t : Text} → c ∷ s ≡ d ∷ t → (c ≡ d) × (s ≡ t)
cons-injective e = (cc, cc)

suc-injective : (n m : ℕ) → suc n ≡ suc m → n ≡ m
suc-injective n m e = omega arith

abbrev pub IsDigit : ℕ → Type 0
IsDigit c = (b'0' ≤ c) × (c ≤ b'9')

parse_digits-cons :
    (m d k : ℕ) (s : Text)
    → d < 10
    → m * 10 + d ≡ k
    → parse_digits m ((b'0' + d) ∷ s) ≡ parse_digits k s
unfolding parse_digits
parse_digits-cons m d k s h e =
    let f : m * 10 + (48 + d - 48) ≡ k = omega arith in
    let l : leb 48 (48 + d) ≡ true = ground arith in
    let r : leb (48 + d) 57 ≡ true = ground arith in rw (l, r, f)

parse_digits-digits :
    (fuel n : ℕ) (acc : Text) → n < fuel → parse_digits 0 (digits fuel n acc) ≡ parse_digits n acc
unfolding digits
parse_digits-digits zero n acc h = elim h [ ]
parse_digits-digits (suc fuel) n acc h = elim (Bool-cases (ltb n 10)) [
  | inl small ↦
      let l : n < 10 = ltb→lt _ _ small in rw small (parse_digits-cons 0 n n acc l (omega arith))
  | inr big ↦
      let l : 10 ≤ n = ltb→le _ _ big in
      rw big (
        parse_digits-digits fuel (n / 10) ((b'0' + n % 10) ∷ acc) (omega arith)
        ∙ parse_digits-cons (n / 10) (n % 10) n acc (omega arith) (omega arith))
]

pub parse_digits-decimal : (n : ℕ) → parse_digits 0 (decimal n) ≡ some n
unfolding decimal parse_digits
parse_digits-decimal n = parse_digits-digits (suc n) n [] (omega arith)

pub decimal-injective : (n m : ℕ) → decimal n ≡ decimal m → n ≡ m
decimal-injective n m e =
    some-injective n m
      (sym (parse_digits-decimal n) ∙ (ap (parse_digits 0) e ∙ parse_digits-decimal m))

digits-IsDigit : (fuel n : ℕ) (acc : Text) → All IsDigit acc → All IsDigit (digits fuel n acc)
unfolding digits
digits-IsDigit zero n acc h = h
digits-IsDigit (suc fuel) n acc h = elim (Bool-cases (ltb n 10)) [
  | inl small ↦ let l : n < 10 = ltb→lt _ _ small in rw small ((omega arith, omega arith), h)
  | inr big ↦ rw big (digits-IsDigit fuel (n / 10) _ ((omega arith, omega arith), h))
]

pub decimal-IsDigit : (n : ℕ) → All IsDigit (decimal n)
unfolding decimal
decimal-IsDigit n = digits-IsDigit (suc n) n [] tt

-- characters of a signed number
abbrev pub IsNumeric : ℕ → Type 0
IsNumeric c = (b'-' ≤ c) × (c ≤ b'9')

pub show_int-IsNumeric : (z : ℤ) → All IsNumeric (show_int z)
unfolding show_int
show_int-IsNumeric (pos n) = All-map (decimal n) (λ c h. (omega arith, h.1)) (decimal-IsDigit n)
show_int-IsNumeric (negsuc n) = (
  (omega arith, omega arith),
  All-map (decimal (suc n)) (λ c h. (omega arith, h.1)) (decimal-IsDigit (suc n)),
)

no_minus : (s t : Text) → All IsDigit s → s ≡ b'-' ∷ t → ⊥
no_minus s t h e = let h' : All IsDigit (b'-' ∷ t) = rw e at h in omega arith

pub show_int-injective : (a b : ℤ) → show_int a ≡ show_int b → a ≡ b
unfolding show_int
show_int-injective (pos n) (pos m) e = ap pos (decimal-injective n m e)
show_int-injective (pos n) (negsuc m) e = absurd (no_minus _ _ (decimal-IsDigit n) e)
show_int-injective (negsuc n) (pos m) e = absurd (no_minus _ _ (decimal-IsDigit m) (sym e))
show_int-injective (negsuc n) (negsuc m) e =
    ap negsuc (suc-injective n m (decimal-injective (suc n) (suc m) (cons-injective e).1))

-- Two texts with no separator that are followed by one are found again.
pub split_at_separator :
    (P : ℕ → Type 0) (sep : ℕ)
    → (P sep → ⊥)
    → (s t x y : Text) → All P s
    → All P t
    → s ++ (sep ∷ x) ≡ t ++ (sep ∷ y)
    → (s ≡ t) × (x ≡ y)
split_at_separator P sep apart [] [] x y hs ht e = (refl, (cons-injective e).1)
split_at_separator P sep apart [] (d ∷ t) x y hs ht e =
    absurd (apart (rw (cons-injective e).0 ht.0))
split_at_separator P sep apart (c ∷ s) [] x y hs ht e =
    absurd (apart (rw (← (cons-injective e).0) hs.0))
split_at_separator P sep apart (c ∷ s) (d ∷ t) x y hs ht e =
    let (p, q) = split_at_separator P sep apart s t x y hs.1 ht.1 (cons-injective e).1 in
    (ap₂ ◌∷◌ (cons-injective e).0 p, q)

-- Two texts of the same length are found again.
pub split_at_length : (s t x y : Text) → len s ≡ len t → s ++ x ≡ t ++ y → (s ≡ t) × (x ≡ y)
unfolding len
split_at_length [] [] x y l e = (refl, e)
split_at_length [] (d ∷ t) x y l e = absurd (ground arith)
split_at_length (c ∷ s) [] x y l e = absurd (ground arith)
split_at_length (c ∷ s) (d ∷ t) x y l e =
    let same : c ≡ d = (cons-injective e).0 in
    let l' : width c + len s ≡ width c + len t = l ∙ ap (λ k. width k + len t) (sym same) in
    let (p, q) = split_at_length s t x y (omega arith) (cons-injective e).1 in (ap₂ ◌∷◌ same p, q)
