-- ===== src/Windows.antt =====
-- internal/reconcile/reconcile.go: `New` and `scanWindows`, with the wrap-around of uint32.
pub mod Tiling
pub mod Rule
use umleitung.Base.{ℕ, zero, suc, ◌+◌, ◌-◌, ◌%◌, ◌^◌, Bool, List, ltb, leb, if◌then◌else◌}
use umleitung.Base.Text.{ℤ, pos, negsuc}
use umleitung.Base.Exec.{diverged, Exec, pure, raise, ◌>>=◌, ◌>>◌}
use umleitung.Key.{MsgMeta}
use umleitung.Env.{Options}

abbrev pub u32 : ℕ
u32 = 2 ^ 32

-- `New`: `if opts.UIDBatch < 1 { opts.UIDBatch = 2000 }`
abbrev clamp_batch : ℤ → ℤ
clamp_batch (pos zero) = pos 2000
clamp_batch (pos (suc n)) = pos (suc n)
clamp_batch (negsuc n) = pos 2000

unfoldable pub new : Options → Options
new o = record o { uid_batch = clamp_batch o.uid_batch }

-- `uint32(n)` of an int
abbrev to_u32 : ℤ → ℕ
to_u32 (pos n) = n % u32
to_u32 (negsuc n) = u32 - 1 - n % u32

unfoldable pub batch_of : Options → ℕ
batch_of o = to_u32 o.uid_batch

-- the last UID of the window that begins at `start`
unfoldable pub window_stop : ℕ → ℕ → ℕ → ℕ
window_stop batch start uid_next =
    let stop = (start + batch + (u32 - 1)) % u32 in
    if ltb stop (uid_next - 1) then stop else uid_next - 1

unfoldable pub next_start : ℕ → ℕ → ℕ
next_start batch start = (start + batch) % u32

-- The loop over states `S`: the world, with the variables that the callback `fn` changes. `check` is
-- the look at the context.
module _ {S : Type 0} (check : Exec S (Unit {0})) (batch uid_next : ℕ)
    (fetch : ℕ → ℕ → Exec S (List MsgMeta)) (fn : ℕ → List MsgMeta → Exec S (Unit {0})) where
  -- the body of the loop
  unfoldable pub scan_window : ℕ → Exec S (Unit {0})
  scan_window start = do
    check
    let stop = window_stop batch start uid_next
    metas ← fetch start stop
    fn stop metas

  -- The loop, in at most so many rounds; `diverged` means that they were not enough.
  unfoldable pub scan_loop : ℕ → ℕ → Exec S (Unit {0})
  scan_loop zero start = raise diverged
  scan_loop (suc fuel) start =
      let next = scan_loop fuel (next_start batch start) in
      if ltb start uid_next then scan_window start >> next else pure tt

-- A scan that ends by its test begins each round at another UID below `uid_next`.
unfoldable pub scan_windows :
    {S : Type 0}
    → Exec S (Unit {0})
    → Options
    → ℕ
    → ℕ
    → (ℕ → ℕ → Exec S (List MsgMeta))
    → (ℕ → List MsgMeta → Exec S (Unit {0}))
    → Exec S (Unit {0})
scan_windows check o first uid_next fetch fn =
    scan_loop check (batch_of o) uid_next fetch fn (suc uid_next) first
