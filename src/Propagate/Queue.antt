-- ===== src/Propagate/Queue.antt =====
-- The queue of pending operations: what a page takes from it.
use umleitung.Base.{
  ℕ, zero, suc, ◌≤◌, ◌<◌, ◌≡◌, refl, sym, ap, ◌∙◌, Bool, true, false, ◌||◌, List, [], ◌∷◌, take,
  length, map, ◌==◌ as nat_eq, ==_iff, arith,
}
use umleitung.State.Tables.{
  Db, PendingOp, insert_by_id, order_by_id, remove_pending, delete_pending,
}
use umleitung.State.Atomic.{apply_all}

abbrev has_id : ℕ → List PendingOp → Bool
has_id i [] = false
has_id i (q ∷ qs) = nat_eq q.id i || has_id i qs

has_id-insert_by_id :
    (i : ℕ) (q : PendingOp) (qs : List PendingOp)
    → has_id i (insert_by_id q qs) ≡ (nat_eq q.id i || has_id i qs)
unfolding insert_by_id
has_id-insert_by_id i q [] = refl
has_id-insert_by_id i q (p ∷ qs) = ground (arith, has_id-insert_by_id i q qs)

has_id-order_by_id : (i : ℕ) (qs : List PendingOp) → has_id i (order_by_id qs) ≡ has_id i qs
unfolding order_by_id
has_id-order_by_id i [] = refl
has_id-order_by_id i (q ∷ qs) =
    has_id-insert_by_id i q (order_by_id qs)
    ∙ ap (λ b. nat_eq q.id i || b) (has_id-order_by_id i qs)

length-insert_by_id :
    (q : PendingOp) (qs : List PendingOp) → length (insert_by_id q qs) ≡ suc (length qs)
unfolding insert_by_id
length-insert_by_id q [] = refl
length-insert_by_id q (p ∷ qs) = ground (arith, length-insert_by_id q qs)

pub length-order_by_id : (qs : List PendingOp) → length (order_by_id qs) ≡ length qs
unfolding order_by_id
length-order_by_id [] = refl
length-order_by_id (q ∷ qs) =
    length-insert_by_id q (order_by_id qs) ∙ ap suc (length-order_by_id qs)

length-remove_pending : (i : ℕ) (qs : List PendingOp) → length (remove_pending i qs) ≤ length qs
unfolding remove_pending
length-remove_pending i [] = omega arith
length-remove_pending i (q ∷ qs) = ground (arith, length-remove_pending i qs)

remove_pending-shorter :
    (i : ℕ) (qs : List PendingOp) → has_id i qs ≡ true → length (remove_pending i qs) < length qs
unfolding remove_pending
remove_pending-shorter i [] h = ground arith
remove_pending-shorter i (q ∷ qs) h =
    ground (arith, remove_pending-shorter i qs, length-remove_pending i qs)

length-delete_all :
    (ids : List ℕ) (db : Db)
    → length (apply_all (map delete_pending ids) db).pending ≤ length db.pending
unfolding delete_pending
length-delete_all [] db = omega arith
length-delete_all (i ∷ ids) db =
    let a = length-remove_pending i db.pending in
    let b = length-delete_all ids (delete_pending i db) in omega arith

abbrev first_is : ℕ → List PendingOp → Bool
first_is i [] = false
first_is i (q ∷ qs) = nat_eq q.id i

take-first_is : (n i : ℕ) (qs : List PendingOp) → first_is i (take n qs) ≡ true → has_id i qs ≡ true
take-first_is zero i qs h = ground arith
take-first_is (suc n) i [] h = ground arith
take-first_is (suc n) i (q ∷ qs) h = ground arith

-- A page that is not empty begins with an operation of the queue.
page-head :
    (n : ℕ) (qs more : List PendingOp) (q : PendingOp)
    → take n (order_by_id qs) ≡ q ∷ more
    → has_id q.id qs ≡ true
page-head n qs more q e =
    let own : nat_eq q.id q.id ≡ true = (==_iff q.id q.id).1 refl in
    sym (has_id-order_by_id q.id qs)
    ∙ take-first_is n q.id (order_by_id qs) (ap (first_is q.id) e ∙ own)

-- Deleting the operations of a page makes the queue shorter.
pub delete_page-shorter :
    (n : ℕ) (q : PendingOp) (more : List PendingOp) (ids : List ℕ) (db : Db)
    → take n (order_by_id db.pending) ≡ q ∷ more
    → length (apply_all (map delete_pending (q.id ∷ ids)) db).pending < length db.pending
unfolding delete_pending
delete_page-shorter n q more ids db e =
    let a = remove_pending-shorter q.id db.pending (page-head n db.pending more q e) in
    let b = length-delete_all ids (delete_pending q.id db) in omega arith

-- An empty page means an empty queue.
pub page-empty : (n : ℕ) (qs : List PendingOp) → take (suc n) (order_by_id qs) ≡ [] → qs ≡ []
page-empty n [] e = refl
page-empty n (q ∷ qs) e = go (order_by_id (q ∷ qs)) (length-order_by_id (q ∷ qs)) e
  where
    go : (os : List PendingOp) → length os ≡ suc (length qs) → take (suc n) os ≡ [] → q ∷ qs ≡ []
    go [] l f = let n : ⊥ = omega arith in elim n [ ]
    go (o ∷ os) l f =
        let z : suc (length (take n os)) ≡ 0 = ap length f in let n : ⊥ = omega arith in elim n [ ]
