-- ===== src/Windows/Rule.antt =====
-- internal/reconcile/reconcile.go: a rule for the loop of `scanWindows`.
use umleitung.Base.{ℕ, zero, suc, ◌+◌, ◌≤◌, ◌<◌, List, ltb, ltb→lt, ltb→le, Bool-cases, inl, inr}
use umleitung.Base.Exec.{Exec}
use umleitung.Base.Hoare.{Triple, Triple-pure, Triple-bind}
use umleitung.Key.{MsgMeta}
use umleitung.Env.{Options}
use umleitung.Windows.{u32, batch_of, scan_window, scan_loop, scan_windows}
use umleitung.Windows.Tiling.{next_in_range}

-- `B a` holds before the window that begins at `a`, `Q` behind the last and `X` after a failure.
module _ {S : Type 0} (check : Exec S (Unit {0})) (o : Options) (uid_next : ℕ)
    (fetch : ℕ → ℕ → Exec S (List MsgMeta)) (fn : ℕ → List MsgMeta → Exec S (Unit {0}))
    (B : ℕ → S → Type 0) (Q X : S → Type 0) (room : uid_next + batch_of o ≤ u32)
    (fails : (a : ℕ) (s : S) → B a s → X s) (ends : (a : ℕ) (s : S) → uid_next ≤ a → B a s → Q s)
    (window : (a : ℕ)
      → a < uid_next
      → Triple
          (B a)
          (scan_window check (batch_of o) uid_next fetch fn a)
          (λ u. B (a + batch_of o))
          X) where
  Triple-scan_loop :
      (fuel a : ℕ) → Triple (B a) (scan_loop check (batch_of o) uid_next fetch fn fuel a) (λ u. Q) X
  unfolding scan_loop
  Triple-scan_loop zero a = record { run = λ s h. fails a s h }
  Triple-scan_loop (suc fuel) a = elim (Bool-cases (ltb a uid_next)) [
    | inl more ↦
        rw (more, next_in_range (batch_of o) a uid_next (ltb→lt _ _ more) room)
          (Triple-bind (scan_window check (batch_of o) uid_next fetch fn a) _
            (window a (ltb→lt _ _ more)) (λ u. Triple-scan_loop fuel (a + batch_of o)))
    | inr last ↦ rw last (Triple-pure tt (λ s. ends a s (ltb→le _ _ last)))
  ]

  pub Triple-scan_windows :
      (first : ℕ) → Triple (B first) (scan_windows check o first uid_next fetch fn) (λ u. Q) X
  unfolding scan_windows
  Triple-scan_windows first = Triple-scan_loop (suc uid_next) first
