-- ===== src/Env/Locals.antt =====
-- Conditions before and after a loop that has local variables beside the world.
use umleitung.Base.{◌≡◌, refl}
use umleitung.Base.Exec.{Result, ok, err, Exec}
use umleitung.Base.Hoare.{After, Triple}
use umleitung.Env.{Env, World, inside, assign, with_local, local_result}

module _ {E : Env} {L : Type 0} where
  pub Triple-inside :
      {B : Type 0} {P : L → World E → Type 0} {Q : B → L → World E → Type 0}
      {X : L → World E → Type 0} (m : Exec (World E) B)
      → ((l : L) → Triple (P l) m (λ b. Q b l) (X l))
      → Triple (λ s. P s.1 s.0) (inside m) (λ b s. Q b s.1 s.0) (λ s. X s.1 s.0)
  Triple-inside {B} {P} {Q} {X} m t = record { run = λ s h. go s.1 (m s.0) ((t s.1).run s.0 h) }
    where
      go :
          (l : L) (x : Result B × World E)
          → After (λ b. Q b l) (X l) x
          → After (λ b (s : World E × L). Q b s.1 s.0) (λ s. X s.1 s.0) (x.0, (x.1, l))
      go l (ok b, w) h = h
      go l (err e, w) h = h

  pub Triple-assign :
      (P Q X : L → World E → Type 0) (f : L → L)
      → ((l : L) (w : World E) → P l w → Q (f l) w)
      → Triple (λ s. P s.1 s.0) (assign f) (λ u s. Q s.1 s.0) (λ s. X s.1 s.0)
  Triple-assign P Q X f k = record { run = λ s h. k s.1 s.0 h }

  pub Triple-with_local :
      {P : World E → Type 0} {Q : L → World E → Type 0} {X : World E → Type 0} (a : L)
      (m : Exec (World E × L) (Unit {0}))
      → Triple (λ s. (s.1 ≡ a) × P s.0) m (λ u s. Q s.1 s.0) (λ s. X s.0)
      → Triple P (with_local a m) Q X
  Triple-with_local {P} {Q} {X} a m t = record {
    run = λ w h. go (m (w, a)) (t.run (w, a) (refl, h));
  }
    where
      go :
          (x : Result (Unit {0}) × (World E × L))
          → After (λ u (s : World E × L). Q s.1 s.0) (λ s. X s.0) x
          → After Q X (local_result x.1.1 x.0, x.1.0)
      go (ok u, s) h = h
      go (err e, s) h = h
