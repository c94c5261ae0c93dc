-- ===== src/Process/Health.antt =====
-- When the health endpoint calls the process healthy.
use umleitung.Base.{
  ℕ, ◌+◌, ◌*◌, ◌%◌, ◌^◌, ◌≤◌, ◌<◌, ◌≡◌, refl, true, List, [], ◌∷◌, ◌++◌, All, ltb, arith,
  Bool-cases, inl, inr, ◌⊎◌,
}
use umleitung.Base.Text.{ℤ, pos, negsuc}
use umleitung.Config.{Mirror}
use umleitung.Process.{
  thrice, MirrorHealth, health_of, is_stale, Response, healthy, unavailable, healthz,
}

-- a mirror with the second of its last beat
pub record Beat : Type 0 where
  pub of : Mirror
  pub second : ℕ

abbrev nanos : ℤ → ℕ
nanos (pos n) = n
nanos (negsuc n) = 0

-- when three of its poll intervals have passed since the beat, in nanoseconds
abbrev pub deadline : Beat → ℕ
deadline b = b.second * 1000000000 + 3 * nanos b.of.poll_interval

-- three intervals fit into 63 bits
abbrev pub IsMeasurable : Beat → Type 0
IsMeasurable b =
    (b.of.poll_interval ≡ pos (nanos b.of.poll_interval)) × (3 * nanos b.of.poll_interval < 2 ^ 63)

-- what the process keeps of the mirrors: as at their start, with the second of the last beat
abbrev pub beaten : List Beat → List MirrorHealth
beaten [] = []
beaten (b ∷ bs) = health_of b.second (b.of ∷ []) ++ beaten bs

-- the first mirror behind its deadline is named, and if there is none, the process is healthy
abbrev pub Verdict : ℕ → List Beat → Response → Type 0
Verdict now [] r = r ≡ healthy
Verdict now (b ∷ bs) r =
    ((deadline b < now) × (r ≡ unavailable b.of.name)) ⊎ ((now ≤ deadline b) × Verdict now bs r)

is_stale-deadline :
    (now : ℕ) (b : Beat)
    → IsMeasurable b
    → is_stale now
        (record { name = b.of.name; staleness = thrice b.of.poll_interval; beat = b.second })
      ≡ ltb (deadline b) now
unfolding is_stale thrice
is_stale-deadline now b h =
    let n = nanos b.of.poll_interval in
    let small : 3 * n < 2 ^ 63 = h.1 in
    let whole : (3 * n) % 2 ^ 64 ≡ 3 * n = omega arith in
    let below : ltb (3 * n) (2 ^ 63) ≡ true = ground arith in rw (h.0, whole, below) (ground arith)

-- If three poll intervals of each mirror fit into 63 bits of nanoseconds, the answer names the first
-- mirror whose last beat is more than three of its poll intervals ago, and says that all is well if
-- there is none.
pub healthz-Verdict :
    (now : ℕ) (bs : List Beat) → All IsMeasurable bs → Verdict now bs (healthz now (beaten bs))
unfolding healthz health_of
healthz-Verdict now [] h = refl
healthz-Verdict now (b ∷ bs) h =
    let late = is_stale-deadline now b h.0 in
    elim (Bool-cases (ltb (deadline b) now)) [
      | inl e ↦ rw (late, e) (inl (ground (arith, e), refl))
      | inr e ↦ rw (late, e) (inr (ground (arith, e), healthz-Verdict now bs h.1))
    ]
