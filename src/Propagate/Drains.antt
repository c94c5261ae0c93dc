-- ===== src/Propagate/Drains.antt =====
-- `propagate` empties the queue, and its rounds are enough.
use umleitung.Base.{
  ℕ, zero, suc, ◌<◌, ◌≡◌, refl, ap, ◌∙◌, Bool, not, ◌&&◌, Option, none, some, List, [], ◌∷◌, take,
  length, map, Bool-cases, inl, inr, arith,
}
use umleitung.Base.Text.{Text, codes, ◌==◌}
use umleitung.Base.Exec.{Error, Result, ok, err, Exec, pure, continue, ◌>>◌}
use umleitung.Base.Keeps.{Keeps, Keeps-bind, Keeps-then, Keeps-if, Keeps-pure}
use umleitung.Base.Hoare.{After}
use umleitung.State.Tables.{Db, PendingOp, order_by_id, delete_pending}
use umleitung.State.Store.{Conn, member_has, pending_ops, delete_pending_batch, exec_batch}
use umleitung.State.Atomic.{apply_all, WholeOrNothing, exec_batch-WholeOrNothing}
use umleitung.Env.{Env, Options, World, on_store, on_dst, count, check_ctx}
use umleitung.Labels.{label_keyword}
use umleitung.Routing.Reads.{dest_folder_for-Keeps}
use umleitung.Routing.{count_move, dest_folder_for, dest_bucket_folders}
use umleitung.Propagate.{
  page, pending_move, pending_keyword, move_from, store_in, apply_move, apply_keyword,
  apply_pending, cons_done, after_op, apply_ops, close_page, apply_page, propagate_loop, propagate,
}
use umleitung.Propagate.Queue.{delete_page-shorter, page-empty}

module _ (E : Env) (o : Options) (db : Db) where
  abbrev Q : World E → Type 0
  Q w = w.conn.db ≡ db

  keeps_member : (f k : Text) → Keeps Q (on_store (member_has E.faults f k))
  unfolding member_has
  keeps_member f k = record {
    at = λ w h. elim (Bool-cases (E.faults w.conn.calls)) [ inl e ↦ rw e h | inr e ↦ rw e h ];
  }

  keeps_dst : {A : Type 0} (m : Exec E.Dst A) → Keeps Q (on_dst m)
  keeps_dst m = record { at = λ w h. h }

  dest_folder_for-Q : (k : Text) → Keeps Q (dest_folder_for E o k)
  dest_folder_for-Q k = dest_folder_for-Keeps E o Q keeps_member k

  move_from-Q : (d id : Text) (fs : List Text) → Keeps Q (move_from E o d id fs)
  unfolding move_from
  move_from-Q d id [] = Keeps-pure tt
  move_from-Q d id (f ∷ fs) = Keeps-if (f == d) _ _ (move_from-Q d id fs) (
      Keeps-bind (on_dst (E.dst_move_message_id f d id)) _ (keeps_dst _) (λ moved.
        Keeps-if moved (count (count_move o d 1)) _ (record { at = λ w h. h })
          (move_from-Q d id fs)))

  store_in-Q :
      (id : Text) (add : Bool) (kw : Text) (fs : List Text) → Keeps Q (store_in E o id add kw fs)
  unfolding store_in
  store_in-Q id add kw [] = Keeps-pure tt
  store_in-Q id add kw (f ∷ fs) =
      Keeps-bind (on_dst (E.dst_store_keyword_by_message_id f id add kw)) _ (keeps_dst _)
        (λ found. Keeps-if found _ _ (record { at = λ w h. h }) (store_in-Q id add kw fs))

  pub apply_pending-Q : (op : PendingOp) → Keeps Q (check_ctx >> apply_pending E o op)
  unfolding apply_pending apply_move apply_keyword
  apply_pending-Q op =
      Keeps-then check_ctx _ (record { at = λ w h. h })
        (Keeps-if (op.kind == pending_move) _ _
          (Keeps-if (not o.archive_routing && not o.sent_routing) _ _ (Keeps-pure tt) (
            Keeps-bind (dest_folder_for E o op.message_id) _ (dest_folder_for-Q op.message_id)
              (λ d. move_from-Q d op.message_id (dest_bucket_folders o))))
          (Keeps-if (op.kind == pending_keyword) _ _
            (Keeps-if (not o.label_propagate) _ _ (Keeps-pure tt) (
              Keeps-if (label_keyword o op.folder == codes "") _ _ (Keeps-pure tt) (
                store_in-Q op.message_id (op.op == codes "add") (label_keyword o op.folder)
                  (dest_bucket_folders o))))
            (Keeps-pure tt)))

  pub apply_ops-Q : (ops : List PendingOp) (w : World E) → Q w → Q (apply_ops E o ops w).1
  unfolding apply_ops
  apply_ops-Q [] w h = h
  apply_ops-Q (op ∷ ops) w h =
      go ((check_ctx >> apply_pending E o op) w) ((apply_pending-Q op).at w h) (apply_ops-Q ops)
    where
      go :
          (x : Result (Unit {0}) × World E)
          → Q x.1
          → ((v : World E) → Q v → Q (apply_ops E o ops v).1)
          → Q (after_op E o op (apply_ops E o ops) x).1
      go (err e, v) q k = q
      go (ok u, v) q k = k v q

  -- the queue is shorter than that of `db`
  abbrev IsShorter : World E → Type 0
  IsShorter v = length v.conn.db.pending < length db.pending

  abbrev Shorter : Result (Unit {0}) × World E → Type 0
  Shorter = After (λ u v. IsShorter v) (λ v. Unit)

  Shorter-batch :
      (f : Db → Db) (w : World E)
      → Q w
      → length (f db).pending < length db.pending
      → (x : Result (Unit {0}) × Conn) → WholeOrNothing f w.conn.db x
      → Shorter (x.0, record w { conn = x.1 })
  Shorter-batch f w q l (ok u, c) h =
      let e : length c.db.pending ≡ length (f db).pending =
        ap (λ (d : Db). length d.pending) (h ∙ ap f q) in
      omega arith
  Shorter-batch f w q l (err e, c) h = tt

  Shorter-close_page :
      (op : PendingOp) (more : List PendingOp)
      → take page (order_by_id db.pending) ≡ op ∷ more
      → (x : (List ℕ × Option Error) × World E) → Q x.1
      → Shorter (close_page E o (cons_done E o op.id x.0, x.1))
  unfolding delete_pending_batch
  Shorter-close_page op more e ((ids, some x), v) q = tt
  Shorter-close_page op more e ((ids, none), v) q =
      Shorter-batch (apply_all (map delete_pending (op.id ∷ ids))) v q
        (delete_page-shorter page op more ids db e)
        (exec_batch E.faults (map delete_pending (op.id ∷ ids)) v.conn)
        (exec_batch-WholeOrNothing E.faults (map delete_pending (op.id ∷ ids)) v.conn)

  Shorter-apply_page :
      (op : PendingOp) (more : List PendingOp) (w : World E)
      → take page (order_by_id db.pending) ≡ op ∷ more
      → Q w
      → Shorter (apply_page E o (op ∷ more) w)
  unfolding apply_page apply_ops
  Shorter-apply_page op more w e h =
      go ((check_ctx >> apply_pending E o op) w) ((apply_pending-Q op).at w h)
    where
      go :
          (x : Result (Unit {0}) × World E)
          → Q x.1
          → Shorter (close_page E o (after_op E o op (apply_ops E o more) x))
      go (err x, v) q = tt
      go (ok u, v) q = Shorter-close_page op more e (apply_ops E o more v) (apply_ops-Q more v q)

module _ (E : Env) (o : Options) where
  -- what a look at the queue returns
  abbrev Page : World E → Result (List PendingOp) × World E → Type 0
  Page w =
      After (λ ops v. (take page (order_by_id w.conn.db.pending) ≡ ops) × (v.conn.db ≡ w.conn.db))
        (λ v. Unit)

  Page-pending_ops : (w : World E) → Page w (on_store (pending_ops E.faults page) w)
  unfolding pending_ops
  Page-pending_ops w = elim (Bool-cases (E.faults w.conn.calls)) [
    | inl e ↦ rw e tt
    | inr e ↦ rw e (refl, refl)
  ]

  abbrev round : ℕ → List PendingOp → Exec (World E) (Unit {0})
  round fuel ops = elim ops [
    | [] ↦ pure tt
    | op ∷ more ↦ apply_page E o (op ∷ more) >> propagate_loop E o fuel
  ]

  abbrev Drained : Result (Unit {0}) × World E → Type 0
  Drained = After (λ u v. v.conn.db.pending ≡ []) (λ v. Unit)

  Drained-then :
      (fuel : ℕ)
      → ((v : World E) → Drained (propagate_loop E o fuel v))
      → (y : Result (Unit {0}) × World E)
      → Drained (continue y.0 (λ u. propagate_loop E o fuel) y.1)
  Drained-then fuel k (ok u, v) = k v
  Drained-then fuel k (err e, v) = tt

  Drained-round :
      (fuel : ℕ)
      → ((v : World E) → Drained (propagate_loop E o fuel v))
      → (w : World E) (x : Result (List PendingOp) × World E) → Page w x
      → Drained (continue x.0 (round fuel) x.1)
  Drained-round fuel k w (ok [], v) h =
      ap (λ (d : Db). d.pending) h.1 ∙ page-empty 199 w.conn.db.pending h.0
  Drained-round fuel k w (ok (op ∷ more), v) h = Drained-then fuel k (apply_page E o (op ∷ more) v)
  Drained-round fuel k w (err e, v) h = tt

  Drained-propagate_loop : (fuel : ℕ) (w : World E) → Drained (propagate_loop E o fuel w)
  unfolding propagate_loop
  Drained-propagate_loop zero w = tt
  Drained-propagate_loop (suc fuel) w =
      Drained-round fuel (Drained-propagate_loop fuel) w (on_store (pending_ops E.faults page) w)
        (Page-pending_ops w)

  -- two loops with enough rounds
  abbrev Agree : ℕ → ℕ → World E → Type 0
  Agree n m v = propagate_loop E o n v ≡ propagate_loop E o m v

  Agree-then :
      (n m : ℕ) (db : Db) (y : Result (Unit {0}) × World E)
      → Shorter E o db y
      → ((v : World E) → IsShorter E o db v → Agree n m v)
      → continue y.0 (λ u. propagate_loop E o n) y.1 ≡ continue y.0 (λ u. propagate_loop E o m) y.1
  Agree-then n m db (ok u, v) s k = k v s
  Agree-then n m db (err e, v) s k = refl

  Agree-round :
      (n m : ℕ) (w : World E) (x : Result (List PendingOp) × World E)
      → Page w x
      → ((v : World E) → IsShorter E o w.conn.db v → Agree n m v)
      → continue x.0 (round n) x.1 ≡ continue x.0 (round m) x.1
  Agree-round n m w (ok [], v) h k = refl
  Agree-round n m w (ok (op ∷ more), v) h k =
      Agree-then n m w.conn.db (apply_page E o (op ∷ more) v)
        (Shorter-apply_page E o w.conn.db op more v h.0 h.1) k
  Agree-round n m w (err e, v) h k = refl

  Agree-propagate_loop :
      (n m : ℕ) (w : World E)
      → length w.conn.db.pending < n
      → length w.conn.db.pending < m
      → Agree n m w
  unfolding propagate_loop
  Agree-propagate_loop zero m w a b = let n : ⊥ = omega arith in elim n [ ]
  Agree-propagate_loop (suc n) zero w a b = let n : ⊥ = omega arith in elim n [ ]
  Agree-propagate_loop (suc n) (suc m) w a b =
      Agree-round n m w (on_store (pending_ops E.faults page) w) (Page-pending_ops w)
        (λ v s. Agree-propagate_loop n m v (omega arith) (omega arith))

-- If `propagate` succeeds the queue is empty, and its rounds are enough: with any larger number the
-- loop does the same.
pub propagate_lem :
    (E : Env) (o : Options) (w : World E)
    → After (λ u v. v.conn.db.pending ≡ []) (λ v. Unit) (propagate E o w)
      × ((n : ℕ) → length w.conn.db.pending < n → propagate_loop E o n w ≡ propagate E o w)
unfolding propagate
propagate_lem E o w = (
  Drained-propagate_loop E o (suc (length w.conn.db.pending)) w,
  λ n l. Agree-propagate_loop E o n (suc (length w.conn.db.pending)) w l (omega arith),
)
