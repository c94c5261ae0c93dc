-- ===== src/Base/Hoare.antt =====
-- Conditions before and after an action: `After Q X` is `Q` of a value that it returns and `X` of
-- the state that it fails in.
use mathlib.Core.Path.{◌≡◌, refl}
use umleitung.Base.Tests.{if◌then◌else◌}
use mathlib.Core.Bool.{Bool, true, false}
use umleitung.Base.Exec.{Result, ok, err, Exec, pure, continue, ◌>>=◌}
use umleitung.Base.Keeps.{Keeps}

abbrev pub After : {S A : Type 0} → (A → S → Type 0) → (S → Type 0) → Result A × S → Type 0
After Q X (ok a, s) = Q a s
After Q X (err e, s) = X s

pub record Triple {S A : Type 0} (P : S → Type 0) (m : Exec S A) (Q : A → S → Type 0)
    (X : S → Type 0) : Type 0 where
  pub run : (s : S) → P s → After Q X (m s)

module _ {S A : Type 0} (P : S → Type 0) (Q : A → S → Type 0) (X : S → Type 0) where
  pub After-both :
      (x : Result A × S) → P x.1 → ((a : A) → P x.1 → Q a x.1) → (P x.1 → X x.1) → After Q X x
  After-both (ok a, s) p q k = q a p
  After-both (err e, s) p q k = k p

After-weaken :
    {S A : Type 0} (Q : A → S → Type 0) (X : S → Type 0) (x : Result A × S)
    → ((a : A) (s : S) → Q a s → X s)
    → After Q X x
    → X x.1
After-weaken Q X (ok a, s) k h = k a s h
After-weaken Q X (err e, s) k h = h

After-continue :
    {S A B : Type 0} (X : S → Type 0) (R : A → S → Type 0) (Q : B → S → Type 0) (x : Result A × S)
    (f : A → Exec S B)
    → ((a : A) → Triple (R a) (f a) Q X)
    → After R X x
    → After Q X (continue x.0 f x.1)
After-continue X R Q (ok a, s) f k h = (k a).run s h
After-continue X R Q (err e, s) f k h = h

module _ {S A : Type 0} {P X : S → Type 0} {Q : A → S → Type 0} where
  pub Triple-pure : (a : A) → ((s : S) → P s → Q a s) → Triple P (pure a) Q X
  Triple-pure a k = record { run = k }

  -- an invariant, with what it gives of the value and of the failure
  pub Triple-Keeps :
      (m : Exec S A)
      → Keeps P m
      → ((s : S) → P s → X s)
      → ((a : A) (s : S) → P s → Q a s)
      → Triple P m Q X
  Triple-Keeps m k x q = record {
    run = λ s h. After-both P Q X (m s) (k.at s h) (λ a. q a (m s).1) (x (m s).1);
  }

  pub Triple-if :
      (b : Bool) (m n : Exec S A)
      → (b ≡ true → Triple P m Q X)
      → (b ≡ false → Triple P n Q X)
      → Triple P (if b then m else n) Q X
  Triple-if true m n km kn = km refl
  Triple-if false m n km kn = kn refl

  pub Triple-state :
      (m : Exec S A) → Triple P m Q X → ((a : A) (s : S) → Q a s → X s) → (s : S) → P s → X (m s).1
  Triple-state m t k s h = After-weaken Q X (m s) k (t.run s h)

module _ {S A B : Type 0} {P X : S → Type 0} {R : A → S → Type 0} {Q : B → S → Type 0} where
  pub Triple-bind :
      (m : Exec S A) (f : A → Exec S B)
      → Triple P m R X
      → ((a : A) → Triple (R a) (f a) Q X)
      → Triple P (m >>= f) Q X
  Triple-bind m f t k = record { run = λ s h. After-continue X R Q (m s) f k (t.run s h) }

module _ {S A : Type 0} {P X : S → Type 0} {Q : A → S → Type 0} {m : Exec S A} where
  pub Triple-fails : {Y : S → Type 0} → ((s : S) → X s → Y s) → Triple P m Q X → Triple P m Q Y
  Triple-fails {Y} k t = record { run = λ s h. go (m s) (t.run s h) }
    where
      go : (x : Result A × S) → After Q X x → After Q Y x
      go (ok a, s) h = h
      go (err e, s) h = k s h

  pub Triple-gives :
      {R : A → S → Type 0} → ((a : A) (s : S) → Q a s → R a s) → Triple P m Q X → Triple P m R X
  Triple-gives {R} k t = record { run = λ s h. go (m s) (t.run s h) }
    where
      go : (x : Result A × S) → After Q X x → After R X x
      go (ok a, s) h = k a s h
      go (err e, s) h = h

  -- a fact that stands beside the condition
  pub Triple-given : {F : Type 0} → (F → Triple P m Q X) → Triple (λ s. F × P s) m Q X
  Triple-given k = record { run = λ s h. (k h.0).run s h.1 }

  pub Triple-first : {P' : S → Type 0} → ((s : S) → P' s → P s) → Triple P m Q X → Triple P' m Q X
  Triple-first k t = record { run = λ s h. t.run s (k s h) }
