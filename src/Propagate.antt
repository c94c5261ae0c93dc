-- ===== src/Propagate.antt =====
-- internal/reconcile/membership.go: the queue of destination operations (`propagate`, `applyPending`).
pub mod Queue
pub mod Drains
pub mod Pages
use umleitung.Base.{
  ℕ, zero, suc, ◌+◌, Bool, not, ◌&&◌, Option, none, some, List, [], ◌∷◌, length, if◌then◌else◌,
}
use umleitung.Base.Text.{Text, codes, ◌==◌}
use umleitung.Base.Exec.{Error, Result, ok, err, diverged, Exec, pure, raise, ◌>>=◌, ◌>>◌}
use umleitung.State.Tables.{PendingOp}
use umleitung.State.Store.{pending_ops, delete_pending_batch}
use umleitung.Env.{Env, Options, World, on_store, on_dst, count, check_ctx}
use umleitung.Labels.{label_keyword}
use umleitung.Routing.{count_move, dest_folder_for, dest_bucket_folders}

abbrev pub pending_move : Text
pending_move = codes "move"

abbrev pub pending_keyword : Text
pending_keyword = codes "keyword"

-- the limit of one page
abbrev pub page : ℕ
page = 200

module _ (E : Env) (o : Options) where
  -- the loop over the buckets: move the copy from the first one that holds it
  unfoldable pub move_from : Text → Text → List Text → Exec (World E) (Unit {0})
  move_from desired id [] = pure tt
  move_from desired id (folder ∷ folders) =
      let rest = move_from desired id folders in
      if folder == desired then rest else do
        moved ← on_dst (E.dst_move_message_id folder desired id)
        if moved then count (count_move o desired 1) else rest

  -- the loop over the buckets: set or clear the keyword in the first one that holds the copy
  unfoldable pub store_in : Text → Bool → Text → List Text → Exec (World E) (Unit {0})
  store_in id add kw [] = pure tt
  store_in id add kw (folder ∷ folders) = do
    found ← on_dst (E.dst_store_keyword_by_message_id folder id add kw)
    if found
        then count (λ sum. record sum { keywords_updated = sum.keywords_updated + 1 })
        else store_in id add kw folders

  unfoldable pub apply_move : PendingOp → Exec (World E) (Unit {0})
  apply_move op = if not o.archive_routing && not o.sent_routing then pure tt else do
    desired ← dest_folder_for E o op.message_id
    move_from desired op.message_id (dest_bucket_folders o)

  unfoldable pub apply_keyword : PendingOp → Exec (World E) (Unit {0})
  apply_keyword op = if not o.label_propagate then pure tt else do
    let kw = label_keyword o op.folder
    if kw == codes ""
        then pure tt
        else store_in op.message_id (op.op == codes "add") kw (dest_bucket_folders o)

  unfoldable pub apply_pending : PendingOp → Exec (World E) (Unit {0})
  apply_pending op =
      if op.kind == pending_move
      then apply_move op
      else if op.kind == pending_keyword
      then apply_keyword op
      else pure tt

  abbrev pub cons_done : ℕ → List ℕ × Option Error → List ℕ × Option Error
  cons_done id (ids, e) = (id ∷ ids, e)

  abbrev pub after_op :
      PendingOp
      → (World E → (List ℕ × Option Error) × World E)
      → Result (Unit {0}) × World E
      → (List ℕ × Option Error) × World E
  after_op op rest (err e, w) = (([], some e), w)
  after_op op rest (ok u, w) = (cons_done op.id (rest w).0, (rest w).1)

  -- The loop over a page: the ids that are done, and the error that ended it.
  unfoldable pub apply_ops : List PendingOp → World E → (List ℕ × Option Error) × World E
  apply_ops [] w = (([], none), w)
  apply_ops (op ∷ ops) w = after_op op (apply_ops ops) ((check_ctx >> apply_pending op) w)

  -- behind the loop: on an error the done prefix is deleted, and that deletion's error ignored
  abbrev pub close_page : (List ℕ × Option Error) × World E → Result (Unit {0}) × World E
  close_page ((done, some e), w) = (err e, (on_store (delete_pending_batch E.faults done) w).1)
  close_page ((done, none), w) = on_store (delete_pending_batch E.faults done) w

  unfoldable pub apply_page : List PendingOp → Exec (World E) (Unit {0})
  apply_page ops w = close_page (apply_ops ops w)

  -- `for {}`, in at most so many rounds
  unfoldable pub propagate_loop : ℕ → Exec (World E) (Unit {0})
  propagate_loop zero = raise diverged
  propagate_loop (suc fuel) = do
    ops ← on_store (pending_ops E.faults page)
    let rest = propagate_loop fuel
    elim ops [ [] ↦ pure tt | op ∷ more ↦ apply_page (op ∷ more) >> rest ]

  -- Every round but the last takes an operation from the queue.
  unfoldable pub propagate : Exec (World E) (Unit {0})
  propagate w = propagate_loop (suc (length w.conn.db.pending)) w
