-- ===== src/Safety/Writes.antt =====
-- The backfill and the queue of operations keep the invariant: they delete nothing.
use umleitung.Base.{ℕ, zero, suc, ◌+◌, Bool, not, ◌&&◌, Option, none, some, List, [], ◌∷◌}
use umleitung.Base.Text.{Text, ◌==◌, codes}
use umleitung.Base.Exec.{Error, Result, ok, err, Exec, pure, ◌>>◌}
use umleitung.Base.Keeps.{Keeps, Keeps-bind, Keeps-then, Keeps-if, Keeps-pure, Keeps-raise}
use umleitung.Key.{FullMessage}
use umleitung.State.Tables.{KeyRecord, PendingOp}
use umleitung.State.Store.{Conn, delete_pending_batch}
use umleitung.Env.{Env, Options, Summary, World, on_store, on_dst, check_ctx, count}
use umleitung.Propagate.{
  move_from, store_in, apply_move, apply_keyword, apply_pending, after_op, apply_ops, close_page,
  apply_page, propagate_loop, propagate,
}
use umleitung.Backfill.{maybe_backfill}
use umleitung.Routing.{dest_folder_for, dest_bucket_folders, count_move}
use umleitung.Labels.{label_keyword}
use umleitung.Propagate.{pending_move, pending_keyword}
use umleitung.Backfill.{backfill_all, backfill_fingerprint, fingerprint_key}
use umleitung.State.Store.{meta_get}
use umleitung.Safety.{DestLaws}
use umleitung.Safety.Table.{
  SameCopied, Keeps-pending_ops, Keeps-delete_pending_batch, Keeps-meta_get, Keeps-meta_set,
}
use umleitung.Backfill.Frame.{backfill_all-Keeps}
use umleitung.Safety.Frame.{Sound-member_has, Sound, Sound-dest_folder_for, Sound-labels_for}
use umleitung.Safety.Phases.{
  Any, store as store_call, dst as dst_call, poll as poll_call, cnt as count_call,
}

module _ (E : Env) (o : Options) (H : Text → E.Dst → Type 0) (content : FullMessage → Text)
    (key_of : E.Ticket → Text) (D : DestLaws E H content key_of) where
  abbrev I : World E → Type 0
  I = Sound H (Any E)

  abbrev store :
      {A : Type 0} (m : Exec Conn A)
      → ((rows : List KeyRecord) → Keeps (SameCopied rows) m)
      → Keeps I (on_store m)
  store = store_call E o H content key_of D

  abbrev dst :
      {A : Type 0} (m : Exec E.Dst A)
      → ((k : Text) (s : E.Dst) → H k s → H k (m s).1)
      → Keeps I (on_dst m)
  dst = dst_call E o H content key_of D

  abbrev poll : Keeps I (check_ctx {E = E})
  poll = poll_call E o H content key_of D

  abbrev cnt : (f : Summary → Summary) → Keeps I (count {E = E} f)
  cnt = count_call E o H content key_of D

  move_from-Sound : (desired id : Text) (fs : List Text) → Keeps I (move_from E o desired id fs)
  unfolding move_from
  move_from-Sound desired id [] = Keeps-pure tt
  move_from-Sound desired id (f ∷ fs) =
      Keeps-if (f == desired) _ _ (move_from-Sound desired id fs) (
        Keeps-bind (on_dst (E.dst_move_message_id f desired id)) _
          (dst _ (λ k s h. D.move_keeps f desired id k s h))
          (λ moved.
            Keeps-if moved _ _ (cnt (count_move o desired 1)) (move_from-Sound desired id fs)))

  store_in-Sound :
      (id : Text) (add : Bool) (kw : Text) (fs : List Text) → Keeps I (store_in E o id add kw fs)
  unfolding store_in
  store_in-Sound id add kw [] = Keeps-pure tt
  store_in-Sound id add kw (f ∷ fs) =
      Keeps-bind (on_dst (E.dst_store_keyword_by_message_id f id add kw)) _
        (dst _ (λ k s h. D.keyword_keeps f id add kw k s h))
        (λ found.
          Keeps-if found _ _
            (cnt (λ sum. record sum { keywords_updated = sum.keywords_updated + 1 }))
            (store_in-Sound id add kw fs))

  apply_move-Sound : (op : PendingOp) → Keeps I (apply_move E o op)
  unfolding apply_move
  apply_move-Sound op = Keeps-if (not o.archive_routing && not o.sent_routing) _ _ (Keeps-pure tt) (
      Keeps-bind (dest_folder_for E o op.message_id) _ (Sound-dest_folder_for E o H (Any E) _)
        (λ d. move_from-Sound d op.message_id (dest_bucket_folders o)))

  apply_keyword-Sound : (op : PendingOp) → Keeps I (apply_keyword E o op)
  unfolding apply_keyword
  apply_keyword-Sound op = Keeps-if (not o.label_propagate) _ _ (Keeps-pure tt) (
      Keeps-if (label_keyword o op.folder == codes "") _ _ (Keeps-pure tt) (
        store_in-Sound op.message_id (op.op == codes "add") (label_keyword o op.folder)
          (dest_bucket_folders o)))

  apply_pending-Sound : (op : PendingOp) → Keeps I (apply_pending E o op)
  unfolding apply_pending
  apply_pending-Sound op =
      Keeps-if (op.kind == pending_move) _ _ (apply_move-Sound op)
        (Keeps-if (op.kind == pending_keyword) _ _ (apply_keyword-Sound op) (Keeps-pure tt))

  after_op-Sound :
      (op : PendingOp) (rest : World E → (List ℕ × Option Error) × World E)
      → ((w : World E) → I w → I (rest w).1)
      → (x : Result (Unit {0}) × World E) → I x.1
      → I (after_op E o op rest x).1
  after_op-Sound op rest k (ok u, w) h = k w h
  after_op-Sound op rest k (err e, w) h = h

  apply_ops-Sound : (ops : List PendingOp) (w : World E) → I w → I (apply_ops E o ops w).1
  unfolding apply_ops
  apply_ops-Sound [] w h = h
  apply_ops-Sound (op ∷ ops) w h =
      after_op-Sound op (apply_ops E o ops) (apply_ops-Sound ops) _
        ((Keeps-then _ _ poll (apply_pending-Sound op)).at w h)

  deleted-Sound :
      (ids : List ℕ) (w : World E) → I w → I ((on_store (delete_pending_batch E.faults ids) w).1)
  deleted-Sound ids w h = (store _ (λ rows. Keeps-delete_pending_batch E.faults rows ids)).at w h

  close_page-Sound : (x : (List ℕ × Option Error) × World E) → I x.1 → I (close_page E o x).1
  close_page-Sound ((done, none), w) h = deleted-Sound done w h
  close_page-Sound ((done, some e), w) h = deleted-Sound done w h

  apply_page-Sound : (ops : List PendingOp) → Keeps I (apply_page E o ops)
  unfolding apply_page
  apply_page-Sound ops = record { at = λ w h. close_page-Sound _ (apply_ops-Sound ops w h) }

  next_page-Sound :
      (rest : Exec (World E) (Unit {0}))
      → Keeps I rest
      → (ops : List PendingOp)
      → Keeps I (elim ops [ [] ↦ pure tt | op ∷ more ↦ apply_page E o (op ∷ more) >> rest ])
  next_page-Sound rest k [] = Keeps-pure tt
  next_page-Sound rest k (op ∷ more) = Keeps-then _ _ (apply_page-Sound (op ∷ more)) k

  propagate_loop-Sound : (fuel : ℕ) → Keeps I (propagate_loop E o fuel)
  unfolding propagate_loop
  propagate_loop-Sound zero = Keeps-raise _
  propagate_loop-Sound (suc fuel) =
      Keeps-bind _ _ (store _ (λ rows. Keeps-pending_ops E.faults rows _))
        (next_page-Sound _ (propagate_loop-Sound fuel))

  pub propagate-Sound : Keeps I (propagate E o)
  unfolding propagate
  propagate-Sound = record { at = λ w h. (propagate_loop-Sound _).at w h }

  backfill_all-Sound : Keeps I (backfill_all E o)
  backfill_all-Sound =
      backfill_all-Keeps E o I (Sound-member_has E o H (Any E)) (Sound-labels_for E o H (Any E))
        poll cnt (λ f. dst (E.dst_select_named_folder f) (D.select_keeps f))
        (λ a b. dst (E.dst_fetch_meta_range a b) (D.fetch_keeps a b))
        (λ us kws. dst (E.dst_store_keywords_uids us kws) (D.keywords_keeps us kws))
        (λ f us g. dst (E.dst_move_uids f us g) (D.move_uids_keeps f us g))

  pub maybe_backfill-Sound : Keeps I (maybe_backfill E o)
  unfolding maybe_backfill
  maybe_backfill-Sound =
      Keeps-bind (on_store (meta_get E.faults fingerprint_key)) _
        (store _ (λ rows. Keeps-meta_get E.faults rows fingerprint_key))
        λ stored. Keeps-if (stored == backfill_fingerprint o) _ _ (Keeps-pure tt) (
          Keeps-then _ _ backfill_all-Sound (
            store _
              (λ rows. Keeps-meta_set E.faults rows fingerprint_key (backfill_fingerprint o))))
