-- ===== src/Propagate/Pages.antt =====
-- What a page of operations leaves in the queue, also where it fails.
use mathlib.Core.Path.{subst}
use umleitung.Base.{
  ℕ, suc, ◌≡◌, refl, sym, ap, ◌∙◌, ◌⊎◌, inl, inr, Option, none, some, List, [], ◌∷◌, take, map,
}
use umleitung.Base.Exec.{Error, Result, ok, err, ◌>>◌}
use umleitung.Base.Hoare.{After}
use umleitung.State.Tables.{Db, PendingOp, delete_pending}
use umleitung.State.Store.{Conn, delete_pending_batch}
use umleitung.State.Atomic.{apply_all, WholeOrNothing, exec_batch-WholeOrNothing}
use umleitung.Env.{Env, Options, World, check_ctx}
use umleitung.Propagate.{apply_pending, after_op, cons_done, apply_ops, close_page, apply_page}
use umleitung.Propagate.Drains.{apply_ops-Q}

abbrev ids_of : List PendingOp → List ℕ
ids_of [] = []
ids_of (op ∷ ops) = op.id ∷ ids_of ops

-- the database without the rows of some operations
abbrev pub without : List PendingOp → Db → Db
without ops = apply_all (map delete_pending (ids_of ops))

module _ (E : Env) (o : Options) where
  abbrev step : PendingOp → World E → Result (Unit {0}) × World E
  step op = check_ctx >> apply_pending E o op

  -- The first so many operations of a list were applied, one after the other, from a state on.
  pub data Applied : ℕ → List PendingOp → World E → Type 0 where
    none_applied : (ops : List PendingOp) (w : World E) → Applied 0 ops w
    one_applied :
        (n : ℕ) (op : PendingOp) (ops : List PendingOp) (w : World E)
        → (step op w).0 ≡ ok tt
        → Applied n ops (step op w).1
        → Applied (suc n) (op ∷ ops) w

  -- what a loop over operations returns
  abbrev IsPrefix : List PendingOp → World E → List ℕ × Option Error → Type 0
  IsPrefix ops w (ids, none) = ids ≡ ids_of ops
  IsPrefix ops w (ids, some e) = (n : ℕ) × Applied n ops w × (ids ≡ ids_of (take n ops))

  apply_ops-IsPrefix : (ops : List PendingOp) (w : World E) → IsPrefix ops w (apply_ops E o ops w).0
  unfolding apply_ops
  apply_ops-IsPrefix [] w = refl
  apply_ops-IsPrefix (op ∷ ops) w = go (step op w) refl (apply_ops-IsPrefix ops)
    where
      joined :
          (v : World E) (y : List ℕ × Option Error)
          → step op w ≡ (ok tt, v)
          → IsPrefix ops v y
          → IsPrefix (op ∷ ops) w (cons_done E o op.id y)
      joined v (ids, none) e p = ap (λ is. op.id ∷ is) p
      joined v (ids, some x) e p = (
        suc p.0,
        one_applied p.0 op ops w (ap (λ r. r.0) e)
            (subst (λ u. Applied p.0 ops u) (sym (ap (λ r. r.1) e)) p.1),
        ap (λ is. op.id ∷ is) p.2,
      )

      go :
          (x : Result (Unit {0}) × World E)
          → step op w ≡ x
          → ((v : World E) → IsPrefix ops v (apply_ops E o ops v).0)
          → IsPrefix (op ∷ ops) w (after_op E o op (apply_ops E o ops) x).0
      go (err x, v) e k = (0, none_applied (op ∷ ops) w, refl)
      go (ok u, v) e k = joined v (apply_ops E o ops v).0 e (k v)

  -- the queue is as it was, or without the first n operations, which were applied
  abbrev pub IsTruthful : List PendingOp → World E → World E → Type 0
  IsTruthful ops w v =
      (n : ℕ) × Applied n ops w
      × ((v.conn.db ≡ w.conn.db) ⊎ (v.conn.db ≡ without (take n ops) w.conn.db))

  abbrev Closed : List PendingOp → World E → Result (Unit {0}) × World E → Type 0
  Closed ops w = After (λ u v. v.conn.db ≡ without ops w.conn.db) (IsTruthful ops w)

  Closed-failed :
      (ops : List PendingOp) (w : World E) (db : Db) (n : ℕ) (x : Result (Unit {0}) × Conn)
      → db ≡ w.conn.db
      → Applied n ops w
      → WholeOrNothing (without (take n ops)) db x
      → (x.1.db ≡ w.conn.db) ⊎ (x.1.db ≡ without (take n ops) w.conn.db)
  Closed-failed ops w db n (ok u, c) q a h = inr (h ∙ ap (without (take n ops)) q)
  Closed-failed ops w db n (err e, c) q a h = inl (h.1 ∙ q)

  Closed-done :
      (ops : List PendingOp) (w v : World E) (x : Result (Unit {0}) × Conn)
      → v.conn.db ≡ w.conn.db
      → WholeOrNothing (without ops) v.conn.db x
      → Closed ops w (x.0, record v { conn = x.1 })
  Closed-done ops w v (ok u, c) q h = h ∙ ap (without ops) q
  Closed-done ops w v (err e, c) q h = (0, none_applied ops w, inl (h.1 ∙ q))

  deleted :
      (ids : List ℕ) (c : Conn)
      → WholeOrNothing
          (apply_all (map delete_pending ids))
          c.db
          (delete_pending_batch E.faults ids c)
  unfolding delete_pending_batch
  deleted ids c = exec_batch-WholeOrNothing E.faults (map delete_pending ids) c

  Closed-close_page :
      (ops : List PendingOp) (w : World E) (x : (List ℕ × Option Error) × World E)
      → IsPrefix ops w x.0
      → x.1.conn.db ≡ w.conn.db
      → Closed ops w (close_page E o x)
  Closed-close_page ops w ((ids, none), v) p q =
      Closed-done ops w v (delete_pending_batch E.faults ids v.conn) q (
        subst
          (λ is.
            WholeOrNothing (apply_all (map delete_pending is)) v.conn.db
              (delete_pending_batch E.faults ids v.conn))
          p (deleted ids v.conn))
  Closed-close_page ops w ((ids, some e), v) p q = (
    p.0,
    p.1,
    Closed-failed ops w v.conn.db p.0 (delete_pending_batch E.faults ids v.conn) q p.1 (
        subst
          (λ is.
            WholeOrNothing (apply_all (map delete_pending is)) v.conn.db
              (delete_pending_batch E.faults ids v.conn))
          p.2 (deleted ids v.conn)),
  )

-- A page that is applied with success takes its operations, and nothing else, from the database. One
-- that fails, wherever it does, leaves the database as it was or without a first part of its
-- operations, each of which was applied.
pub apply_page-IsTruthful :
    (E : Env) (o : Options) (ops : List PendingOp) (w : World E)
    → After (λ u v. v.conn.db ≡ without ops w.conn.db) (IsTruthful E o ops w) (apply_page E o ops w)
unfolding apply_page
apply_page-IsTruthful E o ops w =
    Closed-close_page E o ops w (apply_ops E o ops w) (apply_ops-IsPrefix E o ops w)
      (apply_ops-Q E o w.conn.db ops w refl)
