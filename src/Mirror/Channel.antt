-- ===== src/Mirror/Channel.antt =====
-- internal/reconcile/reconcile.go: the two goroutines of `copyPipeline`, in any interleaving. The
-- stream's callback fills a bounded channel, and the consumer empties it.
pub mod Order
pub mod Ends
use umleitung.Base.{ℕ, ◌<◌, ◌≡◌, Bool, true, false, Option, none, some, List, [], ◌∷◌, ◌++◌, length}
use umleitung.Base.Exec.{Error, cancelled, append_side_failed}
use umleitung.Key.{FullMessage}
use umleitung.Env.{Env, Options, World}
use umleitung.Mirror.Pipeline.{
  PendingCopy, CopyItem, Pipe, by_uid, consume, drain, flush_records, start_pipe,
}

abbrev pub pipeline_depth : ℕ
pipeline_depth = 8

-- `left` is what the stream still shows and `end` how it ends; `stopped` is what `FetchFullStream`
-- returned, and then the channel is closed; `done` tells that the consumer's goroutine has ended.
pub record Channel (E : Env) : Type 0 where
  pub left : List FullMessage
  pub end : Option Error
  pub stopped : Option (Option Error)
  pub queue : List CopyItem
  pub pipe : Pipe E
  pub done : Bool

abbrev pub item : FullMessage → PendingCopy → CopyItem
item m pc = record { full = m; pc = pc }

module _ (E : Env) (o : Options) (pend : List PendingCopy) where
  abbrev pub open_channel : List FullMessage → Option Error → World E → Channel E
  open_channel ms end w = record {
    left = ms;
    end = end;
    stopped = none;
    queue = [];
    pipe = start_pipe E o w;
    done = false;
  }

  -- One step of either goroutine.
  pub data Step (s : Channel E) : Channel E → Type 0 where
    -- the callback ignores a message that was not asked for
    skip :
        (m : FullMessage) (ms : List FullMessage)
        → s.stopped ≡ none
        → s.left ≡ m ∷ ms
        → by_uid pend m.uid ≡ none
        → Step s (record s { left = ms })
    -- `case ch <- copyItem{…}`, possible while the buffer has room
    send :
        (m : FullMessage) (ms : List FullMessage) (pc : PendingCopy)
        → s.stopped ≡ none
        → s.left ≡ m ∷ ms
        → by_uid pend m.uid ≡ some pc
        → length s.queue < pipeline_depth
        → Step s (record s { left = ms; queue = s.queue ++ item m pc ∷ [] })
    -- `case <-failed`, possible once the consumer has failed
    give_up :
        (m : FullMessage) (ms : List FullMessage) (pc : PendingCopy) (e : Error)
        → s.stopped ≡ none
        → s.left ≡ m ∷ ms
        → by_uid pend m.uid ≡ some pc
        → s.pipe.cons_err ≡ some e
        → Step s (record s { stopped = some (some append_side_failed) })
    -- `case <-ctx.Done()`, at any moment
    cancel :
        (m : FullMessage) (ms : List FullMessage) (pc : PendingCopy)
        → s.stopped ≡ none
        → s.left ≡ m ∷ ms
        → by_uid pend m.uid ≡ some pc
        → Step s (record s { stopped = some (some cancelled) })
    -- the stream ends
    end_stream : s.stopped ≡ none → s.left ≡ [] → Step s (record s { stopped = some s.end })
    -- one round of `for it := range ch`
    receive :
        (it : CopyItem) (items : List CopyItem)
        → s.queue ≡ it ∷ items
        → Step s (record s { queue = items; pipe = consume E o it s.pipe })
    -- the channel is closed and empty: what is in flight is confirmed, and the records are flushed
    leave :
        (prod : Option Error)
        → s.done ≡ false
        → s.stopped ≡ some prod
        → s.queue ≡ []
        → Step s (record s {
          pipe = flush_records E o (drain E o (length s.pipe.ring) s.pipe);
          done = true;
        })

  pub data Run (s : Channel E) : Channel E → Type 0 where
    here : Run s s
    next : {t u : Channel E} → Run s t → Step t u → Run s u
