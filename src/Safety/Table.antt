-- ===== src/Safety/Table.antt =====
-- Calls of the store that leave the table `copied` as it is.
use umleitung.Base.{
  ℕ, ◌≡◌, refl, ◌∙◌, Bool, List, [], ◌∷◌, Bool-cases, inl, inr, if◌then◌else◌, map,
}
use umleitung.Base.Text.{Text}
use umleitung.Base.Exec.{Result, ok, err, Exec, each, modify, ◌>>◌}
use umleitung.Base.Keeps.{Keeps, Keeps-bind, Keeps-then, Keeps-if, Keeps-pure, keeps_rules}
use umleitung.State.Tables.{
  Db, KeyRecord, MemberChangeItem, upsert_member, delete_member, insert_pending, delete_pending,
}
use umleitung.State.Store.{
  Conn, settle, call, exec, in_tx, exec_batch, meta_get, read_uint, meta_set, meta_get_uint,
  meta_set_uint, uid_validity, set_uid_validity, last_uid, set_last_uid, has_key, change_member,
  member_change_batch, member_has, member_folders, member_uid_keys, member_keys, pending_ops,
  delete_pending_batch, folder_state, set_folder_state,
}

abbrev pub SameCopied : List KeyRecord → Conn → Type 0
SameCopied rows c = c.db.copied ≡ rows

module _ (faults : ℕ → Bool) (rows : List KeyRecord) where
  Keeps-call : Keeps (SameCopied rows) (call faults)
  Keeps-call = record {
    at = λ c h. elim (Bool-cases (faults c.calls)) [ inl e ↦ rw e h | inr e ↦ rw e h ];
  }

  Keeps-modify :
      (f : Db → Db)
      → ((db : Db) → (f db).copied ≡ db.copied)
      → Keeps (SameCopied rows) (modify (λ (c : Conn). record c { db = f c.db }))
  Keeps-modify f k = record { at = λ c h. k c.db ∙ h }

  Keeps-exec :
      (f : Db → Db)
      → ((db : Db) → (f db).copied ≡ db.copied)
      → Keeps (SameCopied rows) (exec faults f)
  Keeps-exec f k = Keeps-then (call faults) _ Keeps-call (Keeps-modify f k)

  Keeps-settle :
      (old : Db) (x : Result (Unit {0}) × Conn)
      → old.copied ≡ rows
      → SameCopied rows x.1
      → SameCopied rows (settle old x).1
  Keeps-settle old (ok u, c) h k = k
  Keeps-settle old (err e, c) h k = h

  Keeps-in_tx :
      (fn : Exec Conn (Unit {0}))
      → Keeps (SameCopied rows) fn
      → Keeps (SameCopied rows) (in_tx faults fn)
  unfolding in_tx
  Keeps-in_tx fn k = record {
    at = λ c h. Keeps-settle c.db _ h (
        (Keeps-then (call faults >> fn) (call faults) (Keeps-then (call faults) fn Keeps-call k)
            Keeps-call).at
          c h);
  }

  pub Keeps-member_has : (f k : Text) → Keeps (SameCopied rows) (member_has faults f k)
  unfolding member_has
  Keeps-member_has f k = search (keeps_rules, Keeps-call)

  pub Keeps-has_key : (k : Text) → Keeps (SameCopied rows) (has_key faults k)
  unfolding has_key
  Keeps-has_key k = search (keeps_rules, Keeps-call)

  pub Keeps-member_folders : (k : Text) → Keeps (SameCopied rows) (member_folders faults k)
  unfolding member_folders
  Keeps-member_folders k = search (keeps_rules, Keeps-call)

  pub Keeps-member_keys : (f : Text) → Keeps (SameCopied rows) (member_keys faults f)
  unfolding member_keys
  Keeps-member_keys f = search (keeps_rules, Keeps-call)

  pub Keeps-member_uid_keys : (f : Text) → Keeps (SameCopied rows) (member_uid_keys faults f)
  unfolding member_uid_keys
  Keeps-member_uid_keys f = search (keeps_rules, Keeps-call)

  pub Keeps-pending_ops : (n : ℕ) → Keeps (SameCopied rows) (pending_ops faults n)
  unfolding pending_ops
  Keeps-pending_ops n = search (keeps_rules, Keeps-call)

  pub Keeps-folder_state : (f : Text) → Keeps (SameCopied rows) (folder_state faults f)
  unfolding folder_state
  Keeps-folder_state f = search (keeps_rules, Keeps-call)

  pub Keeps-set_folder_state :
      (f : Text) (v u : ℕ) → Keeps (SameCopied rows) (set_folder_state faults f v u)
  unfolding set_folder_state
  Keeps-set_folder_state f v u = Keeps-exec _ (λ db. refl)

  pub Keeps-meta_get : (k : Text) → Keeps (SameCopied rows) (meta_get faults k)
  unfolding meta_get
  Keeps-meta_get k = search (keeps_rules, Keeps-call)

  pub Keeps-meta_set : (k v : Text) → Keeps (SameCopied rows) (meta_set faults k v)
  unfolding meta_set
  Keeps-meta_set k v = Keeps-exec _ (λ db. refl)

  Keeps-read : (r : Result ℕ) → Keeps (SameCopied rows) (λ (c : Conn). (r, c))
  Keeps-read r = record { at = λ c h. h }

  Keeps-meta_get_uint : (k : Text) → Keeps (SameCopied rows) (meta_get_uint faults k)
  unfolding meta_get_uint
  Keeps-meta_get_uint k =
      Keeps-bind (meta_get faults k) _ (Keeps-meta_get k) (λ v. Keeps-read (read_uint v))

  pub Keeps-uid_validity : Keeps (SameCopied rows) (uid_validity faults)
  unfolding uid_validity
  Keeps-uid_validity = Keeps-meta_get_uint _

  pub Keeps-last_uid : Keeps (SameCopied rows) (last_uid faults)
  unfolding last_uid
  Keeps-last_uid = Keeps-meta_get_uint _

  pub Keeps-set_uid_validity : (n : ℕ) → Keeps (SameCopied rows) (set_uid_validity faults n)
  unfolding set_uid_validity meta_set_uint
  Keeps-set_uid_validity n = Keeps-meta_set _ _

  pub Keeps-set_last_uid : (n : ℕ) → Keeps (SameCopied rows) (set_last_uid faults n)
  unfolding set_last_uid meta_set_uint
  Keeps-set_last_uid n = Keeps-meta_set _ _

  copied-change :
      (it : MemberChangeItem) (f : Text) (db : Db)
      → ((if it.add then upsert_member f it.key it.uid else delete_member f it.key) db).copied
        ≡ db.copied
  unfolding upsert_member delete_member
  copied-change it f db = elim (Bool-cases it.add) [ inl e ↦ rw e | inr e ↦ rw e ]

  copied-insert_pending :
      (a b c d : Text) (db : Db) → (insert_pending a b c d db).copied ≡ db.copied
  unfolding insert_pending
  copied-insert_pending a b c d db = refl

  copied-delete_pending : (i : ℕ) (db : Db) → (delete_pending i db).copied ≡ db.copied
  unfolding delete_pending
  copied-delete_pending i db = refl

  Keeps-change_member :
      (f : Text) (it : MemberChangeItem) → Keeps (SameCopied rows) (change_member faults f it)
  unfolding change_member
  Keeps-change_member f it =
      Keeps-then _ _ (Keeps-exec _ (copied-change it f))
        (Keeps-if _ _ _ (Keeps-pure tt) (Keeps-exec _ (copied-insert_pending _ _ _ _)))

  pub Keeps-member_change_batch :
      (f : Text) (items : List MemberChangeItem)
      → Keeps (SameCopied rows) (member_change_batch faults f items)
  unfolding member_change_batch
  Keeps-member_change_batch f [] = Keeps-pure tt
  Keeps-member_change_batch f (it ∷ items) =
      Keeps-in_tx _ (search (keeps_rules, Keeps-call, Keeps-change_member))

  Keeps-deletions :
      (ids : List ℕ) → Keeps (SameCopied rows) (each (map delete_pending ids) (exec faults))
  Keeps-deletions [] = Keeps-pure tt
  Keeps-deletions (i ∷ ids) =
      Keeps-then _ _ (Keeps-exec _ (copied-delete_pending i)) (Keeps-deletions ids)

  pub Keeps-delete_pending_batch :
      (ids : List ℕ) → Keeps (SameCopied rows) (delete_pending_batch faults ids)
  unfolding delete_pending_batch exec_batch
  Keeps-delete_pending_batch [] = Keeps-pure tt
  Keeps-delete_pending_batch (i ∷ ids) =
      Keeps-in_tx _ (Keeps-then _ _ Keeps-call (Keeps-deletions (i ∷ ids)))
