-- ===== src/Mirror/Channel/Order.antt =====
-- internal/reconcile/reconcile.go: in every interleaving the consumer does what it does on the list
-- of what was sent.
use mathlib.Core.List.{append_assoc, append-nil}
use umleitung.Base.{
  ◌≡◌, ◌≢◌, ◌⊎◌, inl, inr, Bool-cases, refl, sym, ap, ◌∙◌, true, false, Option, none, some, List,
  [], ◌∷◌, ◌++◌, length,
}
use umleitung.Base.Exec.{Error}
use umleitung.Key.{FullMessage}
use umleitung.Env.{Env, Options, World}
use umleitung.Mirror.Pipeline.{
  PendingCopy, CopyItem, Pipe, by_uid, consume, consume_all, drain, flush_records, start_pipe,
  run_consumer,
}
use umleitung.Mirror.Channel.{
  Channel, item, open_channel, Step, skip, send, give_up, cancel, end_stream, receive, leave, Run,
  here, next,
}

-- what a stream has of the messages that were asked for
unfoldable pub wanted : List PendingCopy → List FullMessage → List CopyItem
wanted pend [] = []
wanted pend (m ∷ ms) = elim (by_uid pend m.uid) [
  | none ↦ wanted pend ms
  | some pc ↦ item m pc ∷ wanted pend ms
]

module _ (pend : List PendingCopy) (m : FullMessage) (ms : List FullMessage) where
  wanted-skip : by_uid pend m.uid ≡ none → wanted pend (m ∷ ms) ≡ wanted pend ms
  unfolding wanted
  wanted-skip e = rw (e, wanted)

  wanted-send :
      (pc : PendingCopy)
      → by_uid pend m.uid ≡ some pc
      → wanted pend (m ∷ ms) ≡ item m pc ∷ wanted pend ms
  unfolding wanted
  wanted-send pc e = rw (e, wanted)

module _ (E : Env) (o : Options) (pend : List PendingCopy) (ms : List FullMessage)
    (end : Option Error) (w : World E) where
  consume_all-append :
      (items : List CopyItem) (it : CopyItem) (p : Pipe E)
      → consume_all E o (items ++ it ∷ []) p ≡ consume E o it (consume_all E o items p)
  unfolding consume_all
  consume_all-append [] it p = refl
  consume_all-append (x ∷ items) it p = consume_all-append items it (consume E o x p)

  record InOrder (s : Channel E) : Type 0 where
    taken : List CopyItem
    order : wanted pend ms ≡ (taken ++ s.queue) ++ wanted pend s.left
    running : s.done ≡ false → s.pipe ≡ consume_all E o taken (start_pipe E o w)
    ended : s.done ≡ true → s.pipe ≡ run_consumer E o taken (start_pipe E o w)
    closed : s.done ≡ true → (s.stopped ≢ none) × (s.queue ≡ [])
    whole : s.stopped ≡ some none → s.left ≡ []

  InOrder-open : InOrder (open_channel E o pend ms end w)
  unfolding consume_all
  InOrder-open = record {
    taken = [];
    order = refl;
    running = λ e. refl;
    ended = λ e. absurd (cc e);
    closed = λ e. absurd (cc e);
    whole = λ e. absurd (cc e);
  }

  -- the callback ends, and the channel is closed
  InOrder-stop :
      (s : Channel E) (prod : Option Error)
      → (prod ≡ none → s.left ≡ [])
      → InOrder s
      → InOrder (record s { stopped = some prod })
  InOrder-stop s prod whole h = record {
    taken = h.taken;
    order = h.order;
    running = h.running;
    ended = h.ended;
    closed = λ e. ((λ n. absurd (cc n)), (h.closed e).1);
    whole = λ e. whole (cc e);
  }

  InOrder-step : {s t : Channel E} → Step E o pend s t → InOrder s → InOrder t
  unfolding wanted
  InOrder-step {s} (skip m more p q n) h = record {
    taken = h.taken;
    order =
        h.order
        ∙ ap (λ l. (h.taken ++ s.queue) ++ l) (ap (wanted pend) q ∙ wanted-skip pend m more n);
    running = h.running;
    ended = h.ended;
    closed = h.closed;
    whole = λ e. absurd (cc (e, p));
  }
  InOrder-step {s} (send m more pc p q n room) h = record {
    taken = h.taken;
    order =
        h.order
        ∙ ap (λ l. (h.taken ++ s.queue) ++ l) (ap (wanted pend) q ∙ wanted-send pend m more pc n)
        ∙ simp append_assoc;
    running = h.running;
    ended = h.ended;
    closed = λ e. absurd ((h.closed e).0 p);
    whole = λ e. absurd (cc (e, p));
  }
  InOrder-step {s} (give_up m more pc e p q n f) h = InOrder-stop s _ (λ x. absurd (cc x)) h
  InOrder-step {s} (cancel m more pc p q n) h = InOrder-stop s _ (λ x. absurd (cc x)) h
  InOrder-step {s} (end_stream p q) h = InOrder-stop s s.end (λ x. q) h
  InOrder-step {s} (receive it items q) h = record {
    taken = h.taken ++ it ∷ [];
    order = h.order ∙ ap (λ l. (h.taken ++ l) ++ wanted pend s.left) q ∙ simp append_assoc;
    running = λ e.
        ap (consume E o it) (h.running e) ∙ sym (consume_all-append h.taken it (start_pipe E o w));
    ended = λ e. absurd (let x = (h.closed e).1 in cc (x, q));
    closed = λ e. absurd (let x = (h.closed e).1 in cc (x, q));
    whole = h.whole;
  }
  InOrder-step {s} (leave prod d p q) h = record {
    taken = h.taken;
    order = h.order;
    running = λ e. absurd (cc e);
    ended = λ e. left_pipe s.pipe h.taken (h.running d);
    closed = λ e. ((λ n. absurd (cc (n, p))), q);
    whole = h.whole;
  }
    where
      left_pipe :
          (p : Pipe E) (items : List CopyItem)
          → p ≡ consume_all E o items (start_pipe E o w)
          → flush_records E o (drain E o (length p.ring) p)
            ≡ run_consumer E o items (start_pipe E o w)
      left_pipe p items e =
          unfold run_consumer in
          ap (λ (x : Pipe E). flush_records E o (drain E o (length x.ring) x)) e

  Run-InOrder : {s t : Channel E} → InOrder s → Run E o pend s t → InOrder t
  Run-InOrder h here = h
  Run-InOrder h (next r st) = InOrder-step st (Run-InOrder h r)

-- At every moment the pipe is that of the consumer on what it has taken, a first part of what the
-- stream has, before or behind the end of its goroutine.
pub record IsPartway (E : Env) (o : Options) (pend : List PendingCopy) (ms : List FullMessage)
    (w : World E) (s : Channel E) : Type 0 where
  pub taken : List CopyItem
  pub untaken : List CopyItem
  pub prefix : wanted pend ms ≡ taken ++ untaken
  pub pipe :
      (s.pipe ≡ consume_all E o taken (start_pipe E o w))
      ⊎ (s.pipe ≡ run_consumer E o taken (start_pipe E o w))

pub Run-IsPartway :
    (E : Env) (o : Options) (pend : List PendingCopy) (ms : List FullMessage) (end : Option Error)
    (w : World E) {s : Channel E}
    → Run E o pend (open_channel E o pend ms end w) s
    → IsPartway E o pend ms w s
Run-IsPartway E o pend ms end w {s} r =
    let h = Run-InOrder E o pend ms end w (InOrder-open E o pend ms end w) r in
    record {
      taken = h.taken;
      untaken = s.queue ++ wanted pend s.left;
      prefix = h.order ∙ simp append_assoc;
      pipe = elim (Bool-cases s.done) [ inl e ↦ inr (h.ended e) | inr e ↦ inl (h.running e) ];
    }

-- What was sent is a first part of what the stream has of the messages that were asked for, the whole
-- of it if the stream ended without an error, and the pipe is that of the consumer on it.
pub record IsSequential (E : Env) (o : Options) (pend : List PendingCopy) (ms : List FullMessage)
    (w : World E) (s : Channel E) : Type 0 where
  pub sent : List CopyItem
  pub unsent : List CopyItem
  pub prefix : wanted pend ms ≡ sent ++ unsent
  pub pipe : s.pipe ≡ run_consumer E o sent (start_pipe E o w)
  pub whole : s.stopped ≡ some none → unsent ≡ []

-- In every interleaving of the two goroutines that ends, the consumer has done, to the store, the
-- destination and its buffers, what it does alone on the list of what was sent. That is a first part
-- of what the stream has of the messages that were asked for, in order, and the whole of it if
-- `FetchFullStream` returned no error.
pub Run-IsSequential :
    (E : Env) (o : Options) (pend : List PendingCopy) (ms : List FullMessage) (end : Option Error)
    (w : World E) {s : Channel E}
    → Run E o pend (open_channel E o pend ms end w) s
    → s.done ≡ true
    → IsSequential E o pend ms w s
unfolding wanted
Run-IsSequential E o pend ms end w {s} r d =
    let h = Run-InOrder E o pend ms end w (InOrder-open E o pend ms end w) r in
    record {
      sent = h.taken;
      unsent = wanted pend s.left;
      prefix =
          h.order ∙ ap (λ l. (h.taken ++ l) ++ wanted pend s.left) (h.closed d).1 ∙ simp append-nil;
      pipe = h.ended d;
      whole = λ e. ap (wanted pend) (h.whole e);
    }
