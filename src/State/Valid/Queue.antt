-- ===== src/State/Valid/Queue.antt =====
-- internal/state/store.go: the statements keep the order of the table `pending`.
use umleitung.Base.{
  ℕ, ◌+◌, ◌≤◌, ◌≡◌, refl, ap, ◌∙◌, true, List, [], ◌∷◌, ◌++◌, leb, ◌==◌ as nat_eq, Bool-cases, inl,
  inr, arith,
}
use umleitung.Base.Text.{Text, codes, ◌==◌}
use umleitung.State.Tables.{
  Db, PendingOp, MemberChangeItem, upsert_member, delete_member, insert_pending, remove_pending,
  delete_pending, insert_by_id, order_by_id,
}
use umleitung.State.Atomic.{change_row}
use umleitung.State.Valid.{Growing, IsValid}

Growing-lower :
    (a low high : ℕ) (ops : List PendingOp) → a ≤ low → Growing low ops high → Growing a ops high
Growing-lower a low high [] l h = omega arith
Growing-lower a low high (o ∷ ops) l h = (omega arith, h.1)

Growing-append :
    (low high : ℕ) (ops : List PendingOp) (o : PendingOp)
    → o.id ≡ high
    → Growing low ops high
    → Growing low (ops ++ o ∷ []) (high + 1)
Growing-append low high [] o e h = (omega arith, omega arith)
Growing-append low high (p ∷ ops) o e h = (h.0, Growing-append (p.id + 1) high ops o e h.1)

Growing-remove_pending :
    (low high i : ℕ) (ops : List PendingOp)
    → Growing low ops high
    → Growing low (remove_pending i ops) high
unfolding remove_pending
Growing-remove_pending low high i [] h = h
Growing-remove_pending low high i (o ∷ ops) h =
    let rest = Growing-remove_pending (o.id + 1) high i ops h.1 in
    elim (Bool-cases (nat_eq o.id i)) [
      | inl e ↦
          let l = h.0 in
          rw e (Growing-lower low (o.id + 1) high (remove_pending i ops) (omega arith) rest)
      | inr n ↦ rw n (h.0, rest)
    ]

insert_by_id-first :
    (o : PendingOp) (high : ℕ) (ops : List PendingOp)
    → Growing (o.id + 1) ops high
    → insert_by_id o ops ≡ o ∷ ops
unfolding insert_by_id
insert_by_id-first o high [] h = refl
insert_by_id-first o high (p ∷ ops) h =
    let l = h.0 in let e : leb o.id p.id ≡ true = ground (arith, l) in rw e refl

-- Ordered by its ids, the queue is as it was filled.
pub order_by_id-Growing :
    (low high : ℕ) (ops : List PendingOp) → Growing low ops high → order_by_id ops ≡ ops
unfolding order_by_id
order_by_id-Growing low high [] h = refl
order_by_id-Growing low high (o ∷ ops) h =
    ap (insert_by_id o) (order_by_id-Growing (o.id + 1) high ops h.1)
    ∙ insert_by_id-first o high ops h.1

pub delete_pending-IsValid : (i : ℕ) (db : Db) → IsValid db → IsValid (delete_pending i db)
unfolding delete_pending
delete_pending-IsValid i db v = record {
  copied = v.copied;
  meta = v.meta;
  members = v.members;
  folders = v.folders;
  pending = Growing-remove_pending 0 db.next_id i db.pending v.pending;
}

pub Growing-change_row :
    (f : Text) (it : MemberChangeItem) (db : Db)
    → Growing 0 db.pending db.next_id
    → Growing 0 (change_row f it db).pending (change_row f it db).next_id
unfolding change_row upsert_member delete_member insert_pending
Growing-change_row f it db h =
    let more =
      λ (o : PendingOp) (e : o.id ≡ db.next_id). Growing-append 0 db.next_id db.pending o e h in
    elim (Bool-cases it.add) [
      | inl a ↦ elim (Bool-cases (it.pending_kind == codes "")) [
        | inl q ↦ rw (a, q) h
        | inr q ↦ rw (a, q) (more _ refl)
      ]
      | inr a ↦ elim (Bool-cases (it.pending_kind == codes "")) [
        | inl q ↦ rw (a, q) h
        | inr q ↦ rw (a, q) (more _ refl)
      ]
    ]
