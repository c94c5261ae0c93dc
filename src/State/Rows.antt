-- ===== src/State/Rows.antt =====
-- The tables as maps: what a look finds after a change.
use umleitung.Base.{
  ℕ, zero, suc, ◌+◌, ◌/◌, ◌^◌, ◌≡◌, Bool, true, false, ◌&&◌, some, List, [], ◌∷◌, ◌<◌, ltb, lt→ltb,
  Bool-cases, inl, inr, if◌then◌else◌, arith,
}
use umleitung.Base.Text.{
  Text, codes, ◌==◌, eq_iff, eq_refl, decimal, digits, parse_uint, parse_digits,
}
use umleitung.Base.Decimal.{parse_digits-decimal}
use umleitung.Base.Exec.{ok}
use umleitung.State.Tables.{
  Db, MemberRow, MemberChangeItem, is_member, put_member, remove_member, upsert_member,
  delete_member, insert_pending, lookup_meta, put_meta,
}
use umleitung.State.Store.{
  Conn, last_uid, set_last_uid, meta_get_uint, meta_get, meta_set, meta_set_uint, read_uint,
}
use umleitung.State.Atomic.{change_row}

lookup_meta-put_meta :
    (k v : Text) (rows : List (Text × Text)) → lookup_meta k (put_meta k v rows) ≡ v
unfolding lookup_meta put_meta
lookup_meta-put_meta k v [] = rw (eq_refl k)
lookup_meta-put_meta k v ((j, w) ∷ rows) = elim (Bool-cases (j == k)) [
  | inl same ↦ rw (same, eq_refl k)
  | inr other ↦ rw (other, other, lookup_meta-put_meta k v rows)
]

is_member-put_member :
    (f k g j : Text) (u : ℕ) (rows : List MemberRow)
    → is_member g j (put_member f k u rows)
      ≡ (if f == g && k == j then true else is_member g j rows)
unfolding is_member put_member
is_member-put_member f k g j u [] = ground arith
is_member-put_member f k g j u (r ∷ rows) = ground (
  arith,
  is_member-put_member f k g j u rows,
  eq_iff r.folder f,
  eq_iff r.key k,
  eq_iff r.folder g,
  eq_iff r.key j,
  eq_iff f g,
  eq_iff k j,
)

is_member-remove_member :
    (f k g j : Text) (rows : List MemberRow)
    → is_member g j (remove_member f k rows)
      ≡ (if f == g && k == j then false else is_member g j rows)
unfolding is_member remove_member
is_member-remove_member f k g j [] = ground arith
is_member-remove_member f k g j (r ∷ rows) = ground (
  arith,
  is_member-remove_member f k g j rows,
  eq_iff r.folder f,
  eq_iff r.key k,
  eq_iff r.folder g,
  eq_iff r.key j,
  eq_iff f g,
  eq_iff k j,
)

-- As a set of memberships, the table changes at the item's folder and key alone: there it holds the
-- membership after an addition, and does not after a removal.
pub is_member-change_row :
    (folder g j : Text) (it : MemberChangeItem) (db : Db)
    → is_member g j (change_row folder it db).members
      ≡ (if folder == g && it.key == j then it.add else is_member g j db.members)
unfolding change_row upsert_member delete_member insert_pending
is_member-change_row folder g j it db = ground (
  arith,
  is_member-put_member folder it.key g j it.uid db.members,
  is_member-remove_member folder it.key g j db.members,
)

abbrev IsNotEmpty : Text → Type 0
IsNotEmpty [] = ⊥
IsNotEmpty (c ∷ s) = Unit

digits-IsNotEmpty : (fuel n : ℕ) (acc : Text) → IsNotEmpty acc → IsNotEmpty (digits fuel n acc)
unfolding digits
digits-IsNotEmpty zero n acc h = h
digits-IsNotEmpty (suc fuel) n acc h = elim (Bool-cases (ltb n 10)) [
  | inl small ↦ rw small tt
  | inr big ↦ rw big (digits-IsNotEmpty fuel (n / 10) _ tt)
]

decimal-IsNotEmpty : (n : ℕ) → IsNotEmpty (decimal n)
unfolding decimal digits
decimal-IsNotEmpty n = elim (Bool-cases (ltb n 10)) [
  | inl small ↦ rw small tt
  | inr big ↦ rw big (digits-IsNotEmpty n (n / 10) _ tt)
]

read_uint_lem :
    (s : Text) (n : ℕ) → IsNotEmpty s → parse_digits 0 s ≡ some n → n < 2 ^ 32 → read_uint s ≡ ok n
unfolding parse_uint ◌==◌
read_uint_lem [] n full e small = elim full [ ]
read_uint_lem (c ∷ s) n full e small = let b : ltb n (2 ^ 32) ≡ true = lt→ltb _ _ small in rw (e, b)

read_uint-decimal : (n : ℕ) → n < 2 ^ 32 → read_uint (decimal n) ≡ ok n
read_uint-decimal n small =
    read_uint_lem (decimal n) n (decimal-IsNotEmpty n) (parse_digits-decimal n) small

-- A last UID below 2^32 is read back as it was stored, when the database answers both calls.
pub last_uid-set_last_uid :
    (faults : ℕ → Bool) (n : ℕ) (c : Conn)
    → n < 2 ^ 32
    → faults c.calls ≡ false
    → faults (c.calls + 1) ≡ false
    → (last_uid faults (set_last_uid faults n c).1).0 ≡ ok n
unfolding last_uid set_last_uid meta_get_uint meta_set_uint meta_get meta_set
last_uid-set_last_uid faults n c small q0 q1 = ground (
  arith,
  q0,
  q1,
  read_uint-decimal n small,
  lookup_meta-put_meta (codes "last_uid") (decimal n) c.db.meta,
)
