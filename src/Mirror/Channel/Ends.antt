-- ===== src/Mirror/Channel/Ends.antt =====
-- internal/reconcile/reconcile.go: the goroutines of `copyPipeline` never wait for one another for
-- ever, and every interleaving ends.
use umleitung.Base.{ℕ, suc, ◌+◌, ◌*◌, Bool, true, false, Option, none, some, List, length}
use umleitung.Base.Exec.{Error}
use umleitung.Env.{Env, Options}
use umleitung.Mirror.Pipeline.{PendingCopy}
use umleitung.Mirror.Channel.{Channel, Step, Run, here, next}

abbrev if_running : Option (Option Error) → ℕ
if_running none = 1
if_running (some prod) = 0

abbrev if_not : Bool → ℕ
if_not false = 1
if_not true = 0

module _ (E : Env) (o : Options) (pend : List PendingCopy) where
  -- the steps that are left at most
  abbrev pub work : Channel E → ℕ
  work s = 2 * length s.left + length s.queue + if_running s.stopped + if_not s.done

  abbrev pub steps : {s t : Channel E} → Run E o pend s t → ℕ
  steps here = 0
  steps (next r st) = suc (steps r)

  abbrev CanStep : Channel E → Type 0
  CanStep s = (t : Channel E) × Step E o pend s t
