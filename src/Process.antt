-- ===== src/Process.antt =====
-- cmd/umleiter/main.go: the process, its health endpoint and the probe of it; internal/lock/lock.go.
-- The server, the signals and the log are left out.
pub mod Health
use umleitung.Base.{
  ℕ, suc, ◌+◌, ◌-◌, ◌*◌, ◌%◌, ◌^◌, Bool, true, false, not, ◌||◌, Option, none, some, List, [], ◌∷◌,
  ◌++◌, map, ltb, ◌==◌ as nat_eq, if◌then◌else◌,
}
use umleitung.Base.Text.{Text, codes, ℤ, pos, negsuc, ◌==◌}
use umleitung.Config.{Mirror, Config}

-- an int64 from its 64 bits, and `3 * d`
abbrev to_i64 : ℕ → ℤ
to_i64 u = if ltb u (2 ^ 63) then pos u else negsuc (2 ^ 64 - 1 - u)

unfoldable pub thrice : ℤ → ℤ
thrice (pos n) = to_i64 ((3 * n) % 2 ^ 64)
thrice (negsuc n) = to_i64 ((2 ^ 64 - (3 * suc n) % 2 ^ 64) % 2 ^ 64)

-- `mirrorHealth`: the staleness in nanoseconds, the beat in seconds
pub record MirrorHealth : Type 0 where
  pub name : Text
  pub staleness : ℤ
  pub beat : ℕ

-- the health of the mirrors at the start, in the second `start`
unfoldable pub health_of : ℕ → List Mirror → List MirrorHealth
health_of start [] = []
health_of start (m ∷ ms) =
    record { name = m.name; staleness = thrice m.poll_interval; beat = start } ∷ health_of start ms

-- `time.Since(beat) > staleness`, at `now` in nanoseconds; the clock is not behind the beat
abbrev pub exceeds : ℕ → ℤ → Bool
exceeds d (pos n) = ltb n d
exceeds d (negsuc n) = true

unfoldable pub is_stale : ℕ → MirrorHealth → Bool
is_stale now h = exceeds (now - h.beat * 1000000000) h.staleness

-- the handler of /healthz: OK, or unavailable because of a mirror
pub data Response : Type 0 where
  healthy : Response
  unavailable : Text → Response

unfoldable pub healthz : ℕ → List MirrorHealth → Response
healthz now [] = healthy
healthz now (h ∷ hs) =
    let rest = healthz now hs in if is_stale now h then unavailable h.name else rest

-- `Acquire`: `try_lock` is what flock's TryLock says of the path
pub data Acquired : Type 0 where
  held refused lock_failed : Acquired

unfoldable pub acquire : (Text → Option Bool) → Text → Acquired
acquire try_lock path = elim (try_lock path) [
  | none ↦ lock_failed
  | some b ↦ if b then held else refused
]

-- whether some mirror's `Run` returned an error
unfoldable pub any_failed : (Mirror → Bool) → List Mirror → Bool
any_failed failed [] = false
any_failed failed (m ∷ ms) = failed m || any_failed failed ms

abbrev pub after_lock : (Mirror → Bool) → List Mirror → Acquired → ℕ
after_lock failed ms held = if any_failed failed ms then 1 else 0
after_lock failed ms refused = 1
after_lock failed ms lock_failed = 1

-- `run`: the exit code, with the configuration if it is valid
unfoldable pub run_process : Option Config → (Text → Option Bool) → (Mirror → Bool) → ℕ
run_process none try_lock failed = 2
run_process (some cfg) try_lock failed =
    after_lock failed cfg.mirrors (acquire try_lock cfg.lock_path)

unfoldable pub local_addr : Text → Text
local_addr [] = []
local_addr (c ∷ addr) = if nat_eq c b':' then codes "127.0.0.1" ++ (c ∷ addr) else c ∷ addr

abbrev pub exit_of : Option ℕ → ℕ
exit_of none = 1
exit_of (some status) = if nat_eq status 200 then 0 else 1

-- `get` is the status of an HTTP GET, if there is an answer
abbrev pub probe : (Text → Option ℕ) → Text → ℕ
probe get addr = exit_of (get (codes "http://" ++ (local_addr addr ++ codes "/healthz")))

-- `healthcheck`: the exit code
unfoldable pub healthcheck : Option Config → (Text → Option ℕ) → ℕ
healthcheck none get = probe get (codes ":8080")
healthcheck (some cfg) get = if cfg.health_addr == codes "" then 0 else probe get cfg.health_addr
