-- ===== src/Mirror/Rest.antt =====
-- Copying changes no table but that of the copied keys.
use umleitung.Base.{
  ℕ, zero, suc, ◌≡◌, refl, ap, ◌∙◌, Bool, true, false, not, ◌||◌, Option, none, some, List, [], ◌∷◌,
  map, if◌then◌else◌, Bool-cases, inl, inr,
}
use umleitung.Base.Text.{Text}
use umleitung.Base.Exec.{Error, Result, ok, err}
use umleitung.Base.Keeps.{Keeps, Keeps-bind, Keeps-if, Keeps-pure}
use umleitung.Key.{FullMessage}
use umleitung.State.Tables.{Db, KeyRecord, insert_copied, has_row}
use umleitung.State.Store.{Conn, record_keys, exec_batch, member_folders}
use umleitung.State.Atomic.{apply_all, WholeOrNothing, exec_batch-WholeOrNothing}
use umleitung.Env.{Env, Options, World, on_store, on_dst}
use umleitung.Routing.{labels_for}
use umleitung.Mirror.Pipeline.{
  PendingCopy, CopyItem, InflightAppend, Pipe, fail, after_flush, flush_records, confirm,
  after_retry, after_wait, settle, settle_oldest, keywords_for, after_begin, begin, consume,
  consume_all, drain, run_consumer, by_uid, send, Sent, produce, first_error, copy_pipeline,
  start_pipe, is_server_reject,
}

-- the tables beside `copied`
abbrev pub rest_of : Db → Db
rest_of db = record db { copied = [] }

rest_of-insert_copied : (r : KeyRecord) (db : Db) → rest_of (insert_copied r db) ≡ rest_of db
unfolding insert_copied
rest_of-insert_copied r db = elim (Bool-cases (has_row r.key db.copied)) [
  | inl e ↦ rw e refl
  | inr e ↦ rw e refl
]

rest_of-apply_all :
    (rs : List KeyRecord) (db : Db) → rest_of (apply_all (map insert_copied rs) db) ≡ rest_of db
rest_of-apply_all [] db = refl
rest_of-apply_all (r ∷ rs) db =
    rest_of-apply_all rs (insert_copied r db) ∙ rest_of-insert_copied r db

module _ (E : Env) (o : Options) (rest : Db) where
  abbrev pub HasRest : World E → Type 0
  HasRest w = rest_of w.conn.db ≡ rest

  HasRest-batch :
      (rs : List KeyRecord) (w : World E)
      → HasRest w
      → (x : Result (Unit {0}) × Conn)
      → WholeOrNothing (apply_all (map insert_copied rs)) w.conn.db x
      → rest_of x.1.db ≡ rest
  HasRest-batch rs w h (ok u, c) y = ap rest_of y ∙ (rest_of-apply_all rs w.conn.db ∙ h)
  HasRest-batch rs w h (err e, c) y = ap rest_of y.1 ∙ h

  pub HasRest-record_keys :
      (rs : List KeyRecord) → Keeps HasRest (on_store (record_keys E.faults rs))
  unfolding record_keys
  HasRest-record_keys rs = record {
    at = λ w h.
        HasRest-batch rs w h (exec_batch E.faults (map insert_copied rs) w.conn)
          (exec_batch-WholeOrNothing E.faults (map insert_copied rs) w.conn);
  }

  labels_for-HasRest : (k : Text) → Keeps HasRest (labels_for E o k)
  unfolding labels_for member_folders
  labels_for-HasRest k =
      Keeps-bind (on_store (member_folders E.faults k)) _
        (record {
          at = λ w h. elim (Bool-cases (E.faults w.conn.calls)) [ inl e ↦ rw e h | inr e ↦ rw e h ];
        })
        (λ fs. Keeps-pure _)

  keywords_for-HasRest : (k : Text) → Keeps HasRest (keywords_for E o k)
  keywords_for-HasRest k =
      Keeps-if o.sync_labels _ _
        (Keeps-bind (labels_for E o k) _ (labels_for-HasRest k) (λ ls. Keeps-pure _)) (Keeps-pure _)

  abbrev Ok : Pipe E → Type 0
  Ok p = HasRest p.world

  Ok-fail : (e : Error) (p : Pipe E) → Ok p → Ok (fail E o e p)
  unfolding fail
  Ok-fail e p h = h

  Ok-if : (b : Bool) (p q : Pipe E) → Ok p → Ok q → Ok (if b then p else q)
  Ok-if true p q hp hq = hp
  Ok-if false p q hp hq = hq

  Ok-after_flush :
      (p : Pipe E) (x : Result (Unit {0}) × World E) → HasRest x.1 → Ok (after_flush E o p x)
  Ok-after_flush p (ok u, w) h = h
  Ok-after_flush p (err e, w) h = Ok-fail e (record p { world = w }) h

  Ok-flush_records : (p : Pipe E) → Ok p → Ok (flush_records E o p)
  unfolding flush_records
  Ok-flush_records p h = go p.records
    where
      go :
          (rs : List KeyRecord)
          → Ok (elim rs [
            | [] ↦ p
            | r ∷ rest ↦ after_flush E o p (on_store (record_keys E.faults (r ∷ rest)) p.world)
          ])
      go [] = h
      go (r ∷ rs) =
          Ok-after_flush p (on_store (record_keys E.faults (r ∷ rs)) p.world)
            ((HasRest-record_keys (r ∷ rs)).at p.world h)

  Ok-flush_if : (b : Bool) (p : Pipe E) → Ok p → Ok (if b then flush_records E o p else p)
  Ok-flush_if b p h = Ok-if b _ p (Ok-flush_records p h) h

  Ok-confirm :
      (it : InflightAppend E) (landed : Bool) (p : Pipe E) → Ok p → Ok (confirm E o it landed p)
  unfolding confirm
  Ok-confirm it landed p h = Ok-flush_if _ _ h

  Ok-after_retry :
      (it : InflightAppend E) (p : Pipe E) (x : Result (Unit {0}) × World E)
      → HasRest x.1
      → Ok (after_retry E o it p x)
  Ok-after_retry it p (ok u, w) h = Ok-confirm it false (record p { world = w }) h
  Ok-after_retry it p (err e, w) h = Ok-fail e (record p { world = w }) h

  Ok-after_wait :
      (it : InflightAppend E) (p : Pipe E) (x : Result (Unit {0}) × World E)
      → HasRest x.1
      → Ok (after_wait E o it p x)
  Ok-after_wait it p (ok u, w) h = Ok-confirm it it.had_keywords (record p { world = w }) h
  Ok-after_wait it p (err e, w) h =
      Ok-if (not it.had_keywords || not (is_server_reject e)) _ _
        (Ok-fail e (record p { world = w }) h)
        (Ok-after_retry it p (on_dst (E.dst_append_to it.pc.dest_folder it.full it.base_flags) w) h)

  Ok-settle_oldest : (p : Pipe E) → Ok p → Ok (settle_oldest E o p)
  unfolding settle_oldest settle
  Ok-settle_oldest p h = go p.ring
    where
      go :
          (ring : List (InflightAppend E))
          → Ok (elim ring [ [] ↦ p | it ∷ rest ↦ settle E o it rest p ])
      go [] = h
      go (it ∷ rest) =
          Ok-after_wait it (record p { ring = rest }) (on_dst (E.dst_wait it.pa) p.world) h

  Ok-after_begin :
      (it : CopyItem) (base kws : List Text) (p : Pipe E) (x : Result E.Ticket × World E)
      → HasRest x.1
      → Ok (after_begin E o it base kws p x)
  Ok-after_begin it base kws p (ok t, w) h = Ok-if _ _ _ (Ok-settle_oldest _ h) h
  Ok-after_begin it base kws p (err e, w) h = Ok-fail e (record p { world = w }) h

  Ok-begin :
      (it : CopyItem) (p : Pipe E) (x : Result (List Text) × World E)
      → HasRest x.1
      → Ok (begin E o it p x)
  Ok-begin it p (ok kws, w) h = Ok-after_begin it _ kws p _ h
  Ok-begin it p (err e, w) h = Ok-fail e (record p { world = w }) h

  Ok-consume : (it : CopyItem) (p : Pipe E) → Ok p → Ok (consume E o it p)
  unfolding consume
  Ok-consume it p h = go p.cons_err
    where
      go :
          (e : Option Error)
          → Ok (elim e [ some e ↦ p | none ↦ begin E o it p (keywords_for E o it.pc.key p.world) ])
      go (some e) = h
      go none =
          Ok-begin it p (keywords_for E o it.pc.key p.world)
            ((keywords_for-HasRest it.pc.key).at p.world h)

  Ok-consume_all : (items : List CopyItem) (p : Pipe E) → Ok p → Ok (consume_all E o items p)
  unfolding consume_all
  Ok-consume_all [] p h = h
  Ok-consume_all (it ∷ items) p h = Ok-consume_all items _ (Ok-consume it p h)

  Ok-drain : (n : ℕ) (p : Pipe E) → Ok p → Ok (drain E o n p)
  unfolding drain
  Ok-drain zero p h = h
  Ok-drain (suc n) p h = go p.cons_err _ (Ok-drain n _ (Ok-settle_oldest p h))
    where
      go : (e : Option Error) (q : Pipe E) → Ok q → Ok (elim e [ some e ↦ p | none ↦ q ])
      go (some e) q k = h
      go none q k = k

  HasRest-send :
      (x : Option PendingCopy) (b : Bool) (m : FullMessage) (next : World E → Sent E o)
      (w : World E)
      → ((v : World E) → HasRest v → HasRest (next v).1)
      → HasRest w
      → HasRest (send E o x b m next w).1
  HasRest-send none b m next w k h = k w h
  HasRest-send (some pc) true m next w k h = h
  HasRest-send (some pc) false m next w k h = k _ h

  HasRest-produce :
      (pend : List PendingCopy) (end : Option Error) (ms : List FullMessage) (w : World E)
      → HasRest w
      → HasRest (produce E o pend end ms w).1
  unfolding produce
  HasRest-produce pend end [] w h = h
  HasRest-produce pend end (m ∷ ms) w h =
      HasRest-send (by_uid pend m.uid) (E.done w.polls) m (produce E o pend end ms) w
        (HasRest-produce pend end ms) h

  HasRest-first_error : (c e : Option Error) → Keeps HasRest (first_error E o c e)
  HasRest-first_error (some x) e = record { at = λ w h. h }
  HasRest-first_error none (some x) = record { at = λ w h. h }
  HasRest-first_error none none = record { at = λ w h. h }

  pub copy_pipeline-HasRest : (pend : List PendingCopy) → Keeps HasRest (copy_pipeline E o pend)
  unfolding copy_pipeline run_consumer
  copy_pipeline-HasRest pend = record {
    at = λ w h.
        let x = E.src_fetch_full_stream (map (λ (p : PendingCopy). p.uid) pend) w.src in
        let y = produce E o pend x.0.1 x.0.0 (record w { src = x.1 }) in
        let p = run_consumer E o y.0.0 (start_pipe E o y.1) in
        (HasRest-first_error p.cons_err y.0.1).at p.world (
          Ok-flush_records _ (
            Ok-drain _ _ (
              Ok-consume_all y.0.0 (start_pipe E o y.1)
                (HasRest-produce pend x.0.1 x.0.0 (record w { src = x.1 }) h))));
  }
