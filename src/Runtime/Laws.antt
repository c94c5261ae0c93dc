-- ===== src/Runtime/Laws.antt =====
-- The delays of a series of sessions that fail.
use umleitung.Base.{
  ℕ, zero, suc, ◌*◌, ◌≤◌, ◌≡◌, refl, ap, ◌∙◌, Bool-cases, inl, inr, List, [], ◌∷◌, ltb, leb,
  if◌then◌else◌, arith,
}
use umleitung.Runtime.{backoff, initial_backoff, max_backoff}

-- the wait behind a series of sessions, from the last one back
pub waited : List ℕ → ℕ
waited [] = 0
waited (uptime ∷ before) = backoff (waited before) uptime

-- 1 s, doubled so many times
abbrev pub doubled : ℕ → ℕ
doubled zero = initial_backoff
doubled (suc n) = doubled n * 2

-- the number of sessions behind the first one, or behind the last healthy one
abbrev pub streak : ℕ → List ℕ → ℕ
streak uptime [] = 0
streak uptime (u ∷ before) = if leb max_backoff uptime then 0 else suc (streak u before)

abbrev pub capped : ℕ → ℕ
capped d = if ltb d max_backoff then d else max_backoff

doubled-positive : (n : ℕ) → initial_backoff ≤ doubled n
doubled-positive zero = omega arith
doubled-positive (suc n) = let h = doubled-positive n in omega arith

backoff-capped :
    (d uptime : ℕ)
    → initial_backoff ≤ d
    → backoff (capped d) uptime
      ≡ (if leb max_backoff uptime then initial_backoff else capped (d * 2))
unfolding backoff
backoff-capped d uptime h = ground arith

capped-doubled-streak :
    (uptime u : ℕ) (before : List ℕ)
    → (if leb max_backoff uptime then initial_backoff else capped (doubled (streak u before) * 2))
      ≡ capped (doubled (streak uptime (u ∷ before)))
capped-doubled-streak uptime u before = elim (Bool-cases (leb max_backoff uptime)) [
  | inl e ↦ rw e refl
  | inr e ↦ rw e refl
]

-- The wait behind a session is 1 s, doubled for each session behind the first or behind the last that
-- stayed up for 5 min, and 5 min at most.
pub waited_lem :
    (uptime : ℕ) (before : List ℕ)
    → waited (uptime ∷ before) ≡ capped (doubled (streak uptime before))
unfolding waited backoff
waited_lem uptime [] = ground arith
waited_lem uptime (u ∷ before) =
    ap (λ d. backoff d uptime) (waited_lem u before)
    ∙ (backoff-capped (doubled (streak u before)) uptime (doubled-positive (streak u before))
        ∙ capped-doubled-streak uptime u before)
