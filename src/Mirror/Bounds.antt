-- ===== src/Mirror/Bounds.antt =====
-- How much of what was appended can be missing from the record, should the program stop.
use umleitung.Base.{◌<◌, ◌≡◌, none, length}
use umleitung.Base.Text.{Text}
use umleitung.Env.{Env, Options}
use umleitung.Mirror.Pipeline.{Pipe, ring_limit, flush_limit}

module _ (E : Env) (o : Options) where
  -- fewer appends in flight than the ring holds and fewer records than a flush takes, or an error
  pub record Bounded (p : Pipe E) : Type 0 where
    pub ring : length p.ring < ring_limit E o
    pub records : (p.cons_err ≡ none) → length p.records < flush_limit E o

  abbrev IsShort : Pipe E → Type 0
  IsShort p = length p.ring < ring_limit E o
