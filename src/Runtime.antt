-- ===== src/Runtime.antt =====
-- internal/mirror/mirror.go: the delay before a reconnection, and whether to seed.
pub mod Laws
use umleitung.Base.{ℕ, zero, suc, ◌*◌, ◌||◌, ltb, leb, ◌==◌ as nat_eq, if◌then◌else◌}
use umleitung.Base.Exec.{Exec, pure, ◌>>=◌, ◌>>◌}
use umleitung.State.Store.{copied_count}
use umleitung.Env.{Env, Options, World, on_store}
use umleitung.Reconcile.{seed_from_dest}

-- durations in nanoseconds; none is negative
abbrev pub initial_backoff : ℕ
initial_backoff = 1000000000

abbrev pub max_backoff : ℕ
max_backoff = 300000000000

unfoldable pub backoff : ℕ → ℕ → ℕ
backoff prev uptime =
    if nat_eq prev 0 || leb max_backoff uptime
    then initial_backoff
    else if ltb (prev * 2) max_backoff
    then prev * 2
    else max_backoff

-- `config.SeedMode`, which the configuration's checks keep to these values
pub data SeedMode : Type 0 where
  seed_empty seed_always seed_never : SeedMode

module _ (E : Env) (o : Options) where
  abbrev pub seed_now : Exec (World E) (Unit {0})
  seed_now = do n ← seed_from_dest E o; pure tt

  unfoldable pub maybe_seed : SeedMode → Exec (World E) (Unit {0})
  maybe_seed seed_always = seed_now
  maybe_seed seed_never = pure tt
  maybe_seed seed_empty = do
    n ← on_store (copied_count E.faults)
    if nat_eq n 0 then seed_now else pure tt
