-- ===== src/Mirror/Pipeline.antt =====
-- internal/reconcile/reconcile.go: `copyPipeline`. The channel has one producer and one consumer and
-- keeps the order, only the consumer touches the store and the destination, and what arrives after
-- its first error is dropped: so the consumer works on the list of what the producer sends.
use umleitung.Base.{
  ℕ, zero, suc, Bool, true, false, not, ◌||◌, Option, none, some, List, [], ◌∷◌, ◌++◌, map, length,
  leb, ◌==◌ as nat_eq, ◌+◌, if◌then◌else◌,
}
use umleitung.Base.Text.{Text, contains}
use umleitung.Base.Exec.{
  Error, Result, ok, err, cancelled, server_no, server_bad, Exec, pure, ◌>>=◌,
}
use umleitung.Key.{FullMessage}
use umleitung.State.Tables.{KeyRecord}
use umleitung.State.Store.{record_keys}
use umleitung.Env.{Env, ImapNames, Options, Summary, World, on_store, on_dst, check_ctx}
use umleitung.Labels.{label_keywords}
use umleitung.Routing.{labels_for}

-- `pendingCopy`
pub record PendingCopy : Type 0 where
  pub uid : ℕ
  pub key : Text
  pub dest_folder : Text

-- `copyItem`
pub record CopyItem : Type 0 where
  pub full : FullMessage
  pub pc : PendingCopy

-- `inflightAppend`
pub record InflightAppend (E : Env) : Type 0 where
  pub pa : E.Ticket
  pub pc : PendingCopy
  pub full : FullMessage
  pub base_flags : List Text
  pub had_keywords : Bool

abbrev pub append_ring : ℕ
append_ring = 4

abbrev pub record_flush_size : ℕ
record_flush_size = 50

unfoldable pub is_server_reject : Error → Bool
is_server_reject server_no = true
is_server_reject server_bad = true
is_server_reject _ = false

unfoldable pub safe_flags : ImapNames → List Text → Bool → List Text
safe_flags names src carry_seen =
    if carry_seen then (if contains src names.flag_seen then names.flag_seen ∷ [] else []) else []

-- `byUID[uid]`: the last candidate of that UID
unfoldable pub by_uid : List PendingCopy → ℕ → Option PendingCopy
by_uid [] u = none
by_uid (p ∷ pend) u = elim (by_uid pend u) [
  | some q ↦ some q
  | none ↦ if nat_eq p.uid u then some p else none
]

-- The state of the consumer, with the world that it changes.
pub record Pipe (E : Env) : Type 0 where
  pub world : World E
  pub ring : List (InflightAppend E)
  pub records : List KeyRecord
  pub cons_err : Option Error

module _ (E : Env) (o : Options) where
  abbrev pub ring_limit : ℕ
  ring_limit = if o.dest_guard then append_ring else 1

  abbrev pub flush_limit : ℕ
  flush_limit = if o.dest_guard then record_flush_size else 1

  unfoldable pub fail : Error → Pipe E → Pipe E
  fail e p = record p { cons_err = elim p.cons_err [ none ↦ some e | some first ↦ some first ] }

  abbrev pub after_flush : Pipe E → Result (Unit {0}) × World E → Pipe E
  after_flush p (ok u, w) = record p { world = w; records = [] }
  after_flush p (err e, w) = fail e (record p { world = w })

  unfoldable pub flush_records : Pipe E → Pipe E
  flush_records p = elim p.records [
    | [] ↦ p
    | r ∷ rs ↦ after_flush p (on_store (record_keys E.faults (r ∷ rs)) p.world)
  ]

  abbrev pub count_copy : Bool → Summary → Summary
  count_copy landed sum = record sum {
    copied = sum.copied + 1;
    keywords_set = if landed then sum.keywords_set + 1 else sum.keywords_set;
  }

  -- the end of `settleOldest`, behind the confirmation
  unfoldable pub confirm : InflightAppend E → Bool → Pipe E → Pipe E
  confirm it landed p =
      let r : KeyRecord = record {
        key = it.pc.key;
        uid = it.pc.uid;
        copied_at = E.now p.world.polls;
      } in
      let p' : Pipe E = record p {
        world = record p.world { sum = count_copy landed p.world.sum };
        records = p.records ++ r ∷ [];
      } in
      if leb flush_limit (length p'.records) then flush_records p' else p'

  abbrev pub after_retry : InflightAppend E → Pipe E → Result (Unit {0}) × World E → Pipe E
  after_retry it p (ok u, w) = confirm it false (record p { world = w })
  after_retry it p (err e, w) = fail e (record p { world = w })

  abbrev pub after_wait : InflightAppend E → Pipe E → Result (Unit {0}) × World E → Pipe E
  after_wait it p (ok u, w) = confirm it it.had_keywords (record p { world = w })
  after_wait it p (err e, w) =
      if not it.had_keywords || not (is_server_reject e)
      then fail e (record p { world = w })
      else after_retry it p (on_dst (E.dst_append_to it.pc.dest_folder it.full it.base_flags) w)

  -- `settleOldest`, on the oldest append and the rest of the ring
  unfoldable pub settle : InflightAppend E → List (InflightAppend E) → Pipe E → Pipe E
  settle it rest p =
      let p' : Pipe E = record p { ring = rest } in
      after_wait it p' (on_dst (E.dst_wait it.pa) p'.world)

  unfoldable pub settle_oldest : Pipe E → Pipe E
  settle_oldest p = elim p.ring [ [] ↦ p | it ∷ rest ↦ settle it rest p ]

  abbrev pub keywords_for : Text → Exec (World E) (List Text)
  keywords_for key =
      if o.sync_labels
      then (do labels ← labels_for E o key; pure (label_keywords o labels))
      else pure []

  abbrev pub has_any : List Text → Bool
  has_any [] = false
  has_any (k ∷ ks) = true

  abbrev pub after_begin :
      CopyItem → List Text → List Text → Pipe E → Result E.Ticket × World E → Pipe E
  after_begin it base keywords p (err e, w) = fail e (record p { world = w })
  after_begin it base keywords p (ok t, w) =
      let a : InflightAppend E = record {
        pa = t;
        pc = it.pc;
        full = it.full;
        base_flags = base;
        had_keywords = has_any keywords;
      } in
      let p' : Pipe E = record p { world = w; ring = p.ring ++ a ∷ [] } in
      if leb ring_limit (length p'.ring) then settle_oldest p' else p'

  abbrev pub begin : CopyItem → Pipe E → Result (List Text) × World E → Pipe E
  begin it p (err e, w) = fail e (record p { world = w })
  begin it p (ok keywords, w) =
      let base = safe_flags E.names it.full.flags o.carry_seen in
      after_begin it base keywords p
        (on_dst (E.dst_begin_append it.pc.dest_folder it.full (base ++ keywords)) w)

  -- one round of `for it := range ch`
  unfoldable pub consume : CopyItem → Pipe E → Pipe E
  consume it p = elim p.cons_err [ some e ↦ p | none ↦ begin it p (keywords_for it.pc.key p.world) ]

  unfoldable pub consume_all : List CopyItem → Pipe E → Pipe E
  consume_all [] p = p
  consume_all (it ∷ items) p = consume_all items (consume it p)

  -- `for consErr == nil && len(ring) > 0`; each round takes one append from the ring
  unfoldable pub drain : ℕ → Pipe E → Pipe E
  drain zero p = p
  drain (suc n) p =
      let rest = drain n (settle_oldest p) in elim p.cons_err [ some e ↦ p | none ↦ rest ]

  -- the consumer's goroutine
  unfoldable pub run_consumer : List CopyItem → Pipe E → Pipe E
  run_consumer items p = let p' = consume_all items p in flush_records (drain (length p'.ring) p')

  abbrev pub cons_item : CopyItem → List CopyItem × Option Error → List CopyItem × Option Error
  cons_item it (items, e) = (it ∷ items, e)

  abbrev pub Sent : Type 0
  Sent = (List CopyItem × Option Error) × World E

  -- `select { case ch <- item: case <-gctx.Done(): }` on a message that was asked for
  abbrev pub send : Option PendingCopy → Bool → FullMessage → (World E → Sent) → World E → Sent
  send none stopped m rest w = rest w
  send (some pc) true m rest w = (([], some cancelled), record w { polls = w.polls + 1 })
  send (some pc) false m rest w =
      let x = rest (record w { polls = w.polls + 1 }) in
      (cons_item (record { full = m; pc = pc }) x.0, x.1)

  -- What the callback of `FetchFullStream` sends, and the error that it or the stream ends with.
  unfoldable pub produce : List PendingCopy → Option Error → List FullMessage → World E → Sent
  produce pend end [] w = (([], end), w)
  produce pend end (m ∷ ms) w = send (by_uid pend m.uid) (E.done w.polls) m (produce pend end ms) w

  abbrev pub start_pipe : World E → Pipe E
  start_pipe w = record { world = w; ring = []; records = []; cons_err = none }

  -- the consumer's error, then the producer's, then the context's
  abbrev pub first_error : Option Error → Option Error → Exec (World E) (Unit {0})
  first_error (some e) prod_err w = (err e, w)
  first_error none (some e) w = (err e, w)
  first_error none none w = check_ctx w

  abbrev pub finish : Option Error → Pipe E → Result (Unit {0}) × World E
  finish prod_err p = first_error p.cons_err prod_err p.world

  unfoldable pub copy_pipeline : List PendingCopy → Exec (World E) (Unit {0})
  copy_pipeline pend w =
      let ((ms, end), s) = E.src_fetch_full_stream (map (λ (p : PendingCopy). p.uid) pend) w.src in
      let ((items, prod_err), w') = produce pend end ms (record w { src = s }) in
      finish prod_err (run_consumer items (start_pipe w'))
