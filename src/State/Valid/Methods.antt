-- ===== src/State/Valid/Methods.antt =====
-- internal/state/store.go: every method that writes keeps the tables valid.
use mathlib.Core.Path.{subst}
use umleitung.Base.{
  ℕ, ◌≡◌, refl, sym, Bool, false, List, [], ◌∷◌, map, take, Bool-cases, inl, inr, arith,
}
use umleitung.Base.Text.{Text}
use umleitung.Base.Exec.{Result, ok, err}
use umleitung.Base.Keeps.{Keeps}
use umleitung.State.Tables.{
  Db, KeyRecord, MemberChangeItem, insert_copied, upsert_member, delete_member, insert_pending,
  delete_pending,
}
use umleitung.State.Store.{
  Conn, meta_set, record_keys, seed_batch, record_key, member_change_batch, delete_pending_row,
  delete_pending_batch, set_folder_state, exec_batch, exec, pending_ops,
}
use umleitung.State.Atomic.{
  apply_all, change_row, WholeOrNothing, exec_batch-WholeOrNothing,
  member_change_batch-WholeOrNothing,
}
use umleitung.State.Members.{Keyed-change_row, folders-change_row}
use umleitung.State.Valid.{CopiedOnce, MetaOnce, FoldersOnce, IsValid}
use umleitung.State.Valid.Keys.{insert_copied-IsValid, put_meta-MetaOnce, put_folder-FoldersOnce}
use umleitung.State.Valid.Queue.{delete_pending-IsValid, Growing-change_row, order_by_id-Growing}

change_row-IsValid :
    (f : Text) (it : MemberChangeItem) (db : Db) → IsValid db → IsValid (change_row f it db)
change_row-IsValid f it db v = record {
  copied = subst CopiedOnce (sym copied) v.copied;
  meta = subst MetaOnce (sym meta) v.meta;
  members = Keyed-change_row f it db v.members;
  folders = subst FoldersOnce (sym (folders-change_row f it db)) v.folders;
  pending = Growing-change_row f it db v.pending;
}
  where
    copied : (change_row f it db).copied ≡ db.copied
    copied = unfold change_row upsert_member delete_member insert_pending in ground arith

    meta : (change_row f it db).meta ≡ db.meta
    meta = unfold change_row upsert_member delete_member insert_pending in ground arith

apply_all-IsValid :
    {A : Type 0} (step : A → Db → Db)
    → ((a : A) (db : Db) → IsValid db → IsValid (step a db))
    → (xs : List A) (db : Db) → IsValid db
    → IsValid (apply_all (map step xs) db)
apply_all-IsValid step k [] db v = v
apply_all-IsValid step k (x ∷ xs) db v = apply_all-IsValid step k xs (step x db) (k x db v)

whole-IsValid :
    (f : Db → Db) (db : Db) (x : Result (Unit {0}) × Conn)
    → ((d : Db) → IsValid d → IsValid (f d))
    → WholeOrNothing f db x
    → IsValid db
    → IsValid x.1.db
whole-IsValid f db (ok u, c) k h v = subst IsValid (sym h) (k db v)
whole-IsValid f db (err e, c) k h v = subst IsValid (sym h.1) v

module _ (faults : ℕ → Bool) where
  abbrev pub ValidConn : Conn → Type 0
  ValidConn c = IsValid c.db

  exec-IsValid :
      (f : Db → Db) → ((d : Db) → IsValid d → IsValid (f d)) → Keeps ValidConn (exec faults f)
  exec-IsValid f k = record {
    at = λ c v. elim (Bool-cases (faults c.calls)) [ inl e ↦ rw e v | inr e ↦ rw e (k c.db v) ];
  }

  batch-IsValid :
      {A : Type 0} (step : A → Db → Db)
      → ((a : A) (db : Db) → IsValid db → IsValid (step a db))
      → (xs : List A) → Keeps ValidConn (exec_batch faults (map step xs))
  batch-IsValid step k xs = record {
    at = λ c v.
        whole-IsValid _ c.db _ (apply_all-IsValid step k xs)
          (exec_batch-WholeOrNothing faults (map step xs) c) v;
  }

  -- Whichever database calls fail, every method that writes keeps the tables valid: no key of
  -- `copied`, of `meta`, of `members` (a folder and a message) or of `folders` stands twice, and the
  -- ids of the queue grow in the order in which its operations were queued, below the next id.
  pub store-IsValid :
      ((rs : List KeyRecord) → Keeps ValidConn (record_keys faults rs))
      × ((ks : List Text) → Keeps ValidConn (seed_batch faults ks))
      × ((r : KeyRecord) → Keeps ValidConn (record_key faults r))
      × ((k v : Text) → Keeps ValidConn (meta_set faults k v))
      × ((f : Text) (items : List MemberChangeItem)
          → Keeps ValidConn (member_change_batch faults f items))
      × ((i : ℕ) → Keeps ValidConn (delete_pending_row faults i))
      × ((ids : List ℕ) → Keeps ValidConn (delete_pending_batch faults ids))
      × ((f : Text) (v u : ℕ) → Keeps ValidConn (set_folder_state faults f v u))
  unfolding record_keys seed_batch record_key meta_set delete_pending_row delete_pending_batch
      set_folder_state
  store-IsValid = (
    batch-IsValid insert_copied insert_copied-IsValid,
    batch-IsValid (λ k. insert_copied (record { key = k; uid = 0; copied_at = 0 }))
        (λ k. insert_copied-IsValid _),
    λ r. exec-IsValid (insert_copied r) (insert_copied-IsValid r),
    λ k v. exec-IsValid _ (λ d h. record {
      copied = h.copied;
      meta = put_meta-MetaOnce k v d.meta h.meta;
      members = h.members;
      folders = h.folders;
      pending = h.pending;
    }),
    λ f items. record {
      at = λ c h.
          whole-IsValid _ c.db _ (apply_all-IsValid (change_row f) (change_row-IsValid f) items)
            (member_change_batch-WholeOrNothing faults f items c) h;
    },
    λ i. exec-IsValid (delete_pending i) (delete_pending-IsValid i),
    batch-IsValid delete_pending delete_pending-IsValid,
    λ f v u. exec-IsValid _ (λ d h. record {
      copied = h.copied;
      meta = h.meta;
      members = h.members;
      folders = put_folder-FoldersOnce f v u d.folders h.folders;
      pending = h.pending;
    }),
  )

  -- On valid tables a page of the queue is its oldest operations, in the order in which they were
  -- queued, when the database answers.
  pub pending_ops-oldest :
      (limit : ℕ) (c : Conn)
      → IsValid c.db
      → faults c.calls ≡ false
      → (pending_ops faults limit c).0 ≡ ok (take limit c.db.pending)
  unfolding pending_ops
  pending_ops-oldest limit c v e =
      rw (e, order_by_id-Growing 0 c.db.next_id c.db.pending v.pending) refl
