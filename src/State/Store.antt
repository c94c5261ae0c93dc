-- ===== src/State/Store.antt =====
-- internal/state/store.go: the methods of `Store`. Every call of the database driver can fail.
use umleitung.Base.{ℕ, ◌+◌, Bool, none, some, List, [], ◌∷◌, map, take, length, if◌then◌else◌}
use umleitung.Base.Text.{Text, codes, ◌==◌, decimal, parse_uint}
use umleitung.Base.Exec.{
  Result, ok, err, db_failed, corrupt_value, Exec, pure, gets, modify, each, ◌>>=◌, ◌>>◌,
}
use umleitung.State.Tables.{
  Db, KeyRecord, MemberChangeItem, PendingOp, has_row, insert_copied, lookup_meta, put_meta,
  is_member, upsert_member, delete_member, insert_pending, delete_pending, order_by_id,
  lookup_folder, put_folder, folders_of, keys_of, uid_keys_of,
}

-- The connection: the database and the number of calls made so far.
pub record Conn : Type 0 where
  pub db : Db
  pub calls : ℕ

-- the deferred `tx.Rollback()`
abbrev pub settle : Db → Result (Unit {0}) × Conn → Result (Unit {0}) × Conn
settle old (ok u, c) = (ok u, c)
settle old (err e, c) = (err e, record c { db = old })

abbrev pub read_uint : Text → Result ℕ
read_uint v =
    if v == codes ""
    then ok 0
    else (elim (parse_uint v) [ none ↦ err corrupt_value | some n ↦ ok n ])

abbrev pub change_op : Bool → Text
change_op b = if b then codes "add" else codes "remove"

-- `faults n` tells whether the n-th call of the database driver fails.
module _ (faults : ℕ → Bool) where
  abbrev pub call : Exec Conn (Unit {0})
  call c =
      if faults c.calls
      then (err db_failed, record c { calls = c.calls + 1 })
      else (ok tt, record c { calls = c.calls + 1 })

  abbrev pub query {ℓ} : {A : Type ℓ} → (Db → A) → Exec Conn A
  query q = call >> gets (λ c. q c.db)

  -- one statement
  abbrev pub exec : (Db → Db) → Exec Conn (Unit {0})
  exec f = call >> modify (λ c. record c { db = f c.db })

  -- Begin, the body, Commit
  unfoldable pub in_tx : Exec Conn (Unit {0}) → Exec Conn (Unit {0})
  in_tx fn c = settle c.db ((call >> fn >> call) c)

  -- Prepare, and the statement once for each argument
  unfoldable pub exec_batch : List (Db → Db) → Exec Conn (Unit {0})
  exec_batch [] = pure tt
  exec_batch (s ∷ stmts) = in_tx (call >> each (s ∷ stmts) exec)

  unfoldable pub meta_get : Text → Exec Conn Text
  meta_get k = query (λ db. lookup_meta k db.meta)

  unfoldable pub meta_set : Text → Text → Exec Conn (Unit {0})
  meta_set k v = exec (λ db. record db { meta = put_meta k v db.meta })

  unfoldable pub meta_get_uint : Text → Exec Conn ℕ
  meta_get_uint k = do v ← meta_get k; λ c. (read_uint v, c)

  unfoldable pub meta_set_uint : Text → ℕ → Exec Conn (Unit {0})
  meta_set_uint k v = meta_set k (decimal v)

  unfoldable pub uid_validity : Exec Conn ℕ
  uid_validity = meta_get_uint (codes "uidvalidity")

  unfoldable pub set_uid_validity : ℕ → Exec Conn (Unit {0})
  set_uid_validity = meta_set_uint (codes "uidvalidity")

  unfoldable pub last_uid : Exec Conn ℕ
  last_uid = meta_get_uint (codes "last_uid")

  unfoldable pub set_last_uid : ℕ → Exec Conn (Unit {0})
  set_last_uid = meta_set_uint (codes "last_uid")

  unfoldable pub has_key : Text → Exec Conn Bool
  has_key k = query (λ db. has_row k db.copied)

  unfoldable pub record_keys : List KeyRecord → Exec Conn (Unit {0})
  record_keys records = exec_batch (map insert_copied records)

  unfoldable pub seed_batch : List Text → Exec Conn (Unit {0})
  seed_batch keys =
      exec_batch (map (λ k. insert_copied (record { key = k; uid = 0; copied_at = 0 })) keys)

  unfoldable pub record_key : KeyRecord → Exec Conn (Unit {0})
  record_key r = exec (insert_copied r)

  -- SELECT COUNT(*)
  unfoldable pub copied_count : Exec Conn ℕ
  copied_count = query (λ db. length db.copied)

  -- one round of the loop: the change of the table, then the pending operation
  unfoldable pub change_member : Text → MemberChangeItem → Exec Conn (Unit {0})
  change_member folder it = do
    exec (if it.add then upsert_member folder it.key it.uid else delete_member folder it.key)
    if it.pending_kind == codes ""
        then pure tt
        else exec (insert_pending it.pending_kind it.key folder (change_op it.add))

  -- three statements are prepared
  unfoldable pub member_change_batch : Text → List MemberChangeItem → Exec Conn (Unit {0})
  member_change_batch folder [] = pure tt
  member_change_batch folder (it ∷ items) =
      in_tx (call >> call >> call >> each (it ∷ items) (change_member folder))

  unfoldable pub member_change : Text → MemberChangeItem → Exec Conn (Unit {0})
  member_change folder it = member_change_batch folder (it ∷ [])

  unfoldable pub member_has : Text → Text → Exec Conn Bool
  member_has folder k = query (λ db. is_member folder k db.members)

  unfoldable pub member_folders : Text → Exec Conn (List Text)
  member_folders k = query (λ db. folders_of k db.members)

  unfoldable pub member_uid_keys : Text → Exec Conn (List (ℕ × Text))
  member_uid_keys folder = query (λ db. uid_keys_of folder db.members)

  unfoldable pub member_keys : Text → Exec Conn (List Text)
  member_keys folder = query (λ db. keys_of folder db.members)

  unfoldable pub pending_ops : ℕ → Exec Conn (List PendingOp)
  pending_ops limit = query (λ db. take limit (order_by_id db.pending))

  unfoldable pub delete_pending_row : ℕ → Exec Conn (Unit {0})
  delete_pending_row i = exec (delete_pending i)

  unfoldable pub delete_pending_batch : List ℕ → Exec Conn (Unit {0})
  delete_pending_batch ids = exec_batch (map delete_pending ids)

  unfoldable pub folder_state : Text → Exec Conn (ℕ × ℕ)
  folder_state name = query (λ db. lookup_folder name db.folders)

  unfoldable pub set_folder_state : Text → ℕ → ℕ → Exec Conn (Unit {0})
  set_folder_state name v u = exec (λ db. record db { folders = put_folder name v u db.folders })
