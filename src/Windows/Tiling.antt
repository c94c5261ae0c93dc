-- ===== src/Windows/Tiling.antt =====
-- The windows of `scanWindows` tile the range of UIDs; with a batch of 0 the loop never ends.
use mathlib.Core.List.{append-nil}
use umleitung.Base.{
  ℕ, zero, suc, ◌+◌, ◌-◌, ◌%◌, ◌≤◌, ◌<◌, ◌≡◌, refl, ap, ◌∙◌, List, [], ◌∷◌, ◌++◌, ltb, arith,
  ltb→lt, lt→ltb, ltb→le, Bool-cases, inl, inr, if◌then◌else◌,
}
use umleitung.Base.Exec.{ok, err, diverged, Exec, each, ◌>>=◌}
use umleitung.Key.{MsgMeta}
use umleitung.Env.{Options}
use umleitung.Windows.{u32, window_stop, next_start, scan_window, scan_loop, scan_windows, batch_of}

-- n UIDs from a on
abbrev pub range : ℕ → ℕ → List ℕ
range a zero = []
range a (suc n) = a ∷ range (a + 1) n

-- the windows' first UIDs, with no wrap-around
pub starts : ℕ → ℕ → ℕ → ℕ → List ℕ
starts batch uid_next zero start = []
starts batch uid_next (suc fuel) start =
    let rest = starts batch uid_next fuel (start + batch) in
    if ltb start uid_next then start ∷ rest else []

-- the UIDs that the windows ask for, in order
pub asked : ℕ → ℕ → List ℕ → List ℕ
asked batch uid_next [] = []
asked batch uid_next (start ∷ more) =
    range start (window_stop batch start uid_next + 1 - start) ++ asked batch uid_next more

range-append : (a n m : ℕ) → range a n ++ range (a + n) m ≡ range a (n + m)
range-append a zero m =
    let e : a + 0 ≡ a = omega arith in let f : 0 + m ≡ m = omega arith in rw (e, f)
range-append a (suc n) m =
    let e : a + suc n ≡ a + 1 + n = omega arith in
    let f : suc n + m ≡ suc (n + m) = omega arith in
    rw (e, f) (ap (λ l. a ∷ l) (range-append (a + 1) n m))

pub stop_in_range :
    (batch start uid_next : ℕ)
    → start < uid_next
    → 0 < batch
    → uid_next + batch ≤ u32
    → window_stop batch start uid_next + 1
      ≡ (if ltb (start + batch) uid_next then start + batch else uid_next)
unfolding window_stop
stop_in_range batch start uid_next l p h = ground arith

pub next_in_range :
    (batch start uid_next : ℕ)
    → start < uid_next
    → uid_next + batch ≤ u32
    → next_start batch start ≡ start + batch
unfolding next_start
next_in_range batch start uid_next l h = omega arith

-- the first window of a range, and the rest of the range
first_window :
    (batch start uid_next : ℕ)
    → start < uid_next
    → 0 < batch
    → uid_next + batch ≤ u32
    → range start (window_stop batch start uid_next + 1 - start)
        ++ range (start + batch) (uid_next - (start + batch))
      ≡ range start (uid_next - start)
first_window batch start uid_next l p h =
    rw (stop_in_range batch start uid_next l p h)
      (elim (Bool-cases (ltb (start + batch) uid_next)) [
        | inl more ↦
            let q : start + batch < uid_next = ltb→lt _ _ more in
            let e : start + batch - start ≡ batch = omega arith in
            let f : batch + (uid_next - (start + batch)) ≡ uid_next - start = omega arith in
            rw (more, e) (range-append start batch _ ∙ rw f)
        | inr last ↦
            let q : uid_next ≤ start + batch = ltb→le _ _ last in
            let e : uid_next - (start + batch) ≡ 0 = omega arith in rw (last, e) (append-nil _)
      ])

asked-starts :
    (batch uid_next : ℕ)
    → 0 < batch
    → uid_next + batch ≤ u32
    → (fuel start : ℕ) → uid_next - start < fuel
    → asked batch uid_next (starts batch uid_next fuel start) ≡ range start (uid_next - start)
unfolding asked starts
asked-starts batch uid_next p h zero start enough = elim enough [ ]
asked-starts batch uid_next p h (suc fuel) start enough = elim (Bool-cases (ltb start uid_next)) [
  | inl more ↦
      let l : start < uid_next = ltb→lt _ _ more in
      rw (more, asked-starts batch uid_next p h fuel (start + batch) (omega arith))
        (first_window batch start uid_next l p h)
  | inr last ↦
      let l : uid_next ≤ start = ltb→le _ _ last in
      let e : uid_next - start ≡ 0 = omega arith in rw (last, e)
]

module _ {S : Type 0} (check : Exec S (Unit {0})) (batch uid_next : ℕ)
    (fetch : ℕ → ℕ → Exec S (List MsgMeta)) (fn : ℕ → List MsgMeta → Exec S (Unit {0})) where
  scan_loop-eq-each :
      0 < batch
      → uid_next + batch ≤ u32
      → (fuel start : ℕ) → uid_next - start < fuel
      → scan_loop check batch uid_next fetch fn fuel start
        ≡ each (starts batch uid_next fuel start) (scan_window check batch uid_next fetch fn)
  unfolding scan_loop starts
  scan_loop-eq-each p h zero start enough = elim enough [ ]
  scan_loop-eq-each p h (suc fuel) start enough = elim (Bool-cases (ltb start uid_next)) [
    | inl more ↦
        let l : start < uid_next = ltb→lt _ _ more in
        rw (
          more,
          next_in_range batch start uid_next l h,
          scan_loop-eq-each p h fuel (start + batch) (omega arith),
        )
    | inr last ↦ rw last
  ]

  -- With a batch of 0 and the first UID below `uid_next`, if the window succeeds from every state then
  -- no number of rounds is enough for the loop to end.
  pub scan_loop-diverged :
      (start : ℕ)
      → batch ≡ 0
      → start < uid_next
      → uid_next ≤ u32
      → ((s : S) → (scan_window check batch uid_next fetch fn start s).0 ≡ ok tt)
      → (fuel : ℕ) (s : S) → (scan_loop check batch uid_next fetch fn fuel start s).0 ≡ err diverged
  unfolding scan_loop next_start
  scan_loop-diverged start b l h fine zero s = refl
  scan_loop-diverged start b l h fine (suc fuel) s =
      let e : (start + batch) % u32 ≡ start = omega arith in
      rw (lt→ltb start uid_next l, e, ◌>>=◌, fine s)
        (scan_loop-diverged start b l h fine fuel
          (scan_window check batch uid_next fetch fn start s).1)

-- If the batch is positive and `uid_next` leaves room for one batch below 2^32, a scan looks at the
-- windows one after the other, its rounds are enough, and the windows ask for every UID from `first`
-- up to the one before `uid_next` once, in order.
pub scan_windows_tiling :
    {S : Type 0} (check : Exec S (Unit {0})) (o : Options) (first uid_next : ℕ)
    (fetch : ℕ → ℕ → Exec S (List MsgMeta)) (fn : ℕ → List MsgMeta → Exec S (Unit {0}))
    → 0 < batch_of o
    → uid_next + batch_of o ≤ u32
    → (scan_windows check o first uid_next fetch fn
        ≡ each
            (starts (batch_of o) uid_next (suc uid_next) first)
            (scan_window check (batch_of o) uid_next fetch fn))
      × (asked (batch_of o) uid_next (starts (batch_of o) uid_next (suc uid_next) first)
          ≡ range first (uid_next - first))
unfolding scan_windows
scan_windows_tiling check o first uid_next fetch fn p h = (
  scan_loop-eq-each check (batch_of o) uid_next fetch fn p h (suc uid_next) first (omega arith),
  asked-starts (batch_of o) uid_next p h (suc uid_next) first (omega arith),
)
