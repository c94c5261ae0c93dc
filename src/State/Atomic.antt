-- ===== src/State/Atomic.antt =====
-- A batch is one transaction: it is stored whole, or it fails and nothing is stored.
use mathlib.Core.Path.{subst}
use umleitung.Base.{
  ℕ, ◌≡◌, refl, Bool, true, false, inl, inr, List, [], ◌∷◌, map, Bool-cases, if◌then◌else◌,
}
use umleitung.Base.Text.{Text, codes, ◌==◌}
use umleitung.Base.Exec.{Result, pure, ok, err, db_failed, Exec, each, ◌>>◌, continue}
use umleitung.State.Tables.{Db, MemberChangeItem, upsert_member, delete_member, insert_pending}
use umleitung.State.Store.{
  Conn, settle, call, exec, in_tx, exec_batch, change_op, change_member, member_change_batch,
}

-- the statements in turn
abbrev pub apply_all : List (Db → Db) → Db → Db
apply_all [] db = db
apply_all (s ∷ stmts) db = apply_all stmts (s db)

-- what one item of a batch does to the tables
abbrev change_rows : Text → MemberChangeItem → Db → Db
change_rows folder it =
    if it.add then upsert_member folder it.key it.uid else delete_member folder it.key

abbrev queue : Text → MemberChangeItem → Db → Db
queue folder it db =
    if it.pending_kind == codes ""
    then db
    else insert_pending it.pending_kind it.key folder (change_op it.add) db

unfoldable pub change_row : Text → MemberChangeItem → Db → Db
change_row folder it db = queue folder it (change_rows folder it db)

-- After `f`, or a failure with some part of it done.
abbrev Done : (Db → Db) → Db → Result (Unit {0}) × Conn → Type 0
Done f db (ok u, c) = c.db ≡ f db
Done f db (err e, c) = e ≡ db_failed

-- After `f`, or a failure with the database as it was.
abbrev pub WholeOrNothing : (Db → Db) → Db → Result (Unit {0}) × Conn → Type 0
WholeOrNothing f db (ok u, c) = c.db ≡ f db
WholeOrNothing f db (err e, c) = (e ≡ db_failed) × (c.db ≡ db)

abbrev Does : Exec Conn (Unit {0}) → (Db → Db) → Type 0
Does m f = (c : Conn) → Done f c.db (m c)

Done-after :
    (f g : Db → Db) (db : Db) (x : Result (Unit {0}) × Conn)
    → Done g (f db) x
    → Done (λ d. g (f d)) db x
Done-after f g db (ok u, c) h = h
Done-after f g db (err e, c) h = h

Done-continue :
    (n : Exec Conn (Unit {0})) (f g : Db → Db) (db : Db)
    → Does n g
    → (x : Result (Unit {0}) × Conn) → Done f db x
    → Done (λ d. g (f d)) db (continue x.0 (λ _. n) x.1)
Done-continue n f g db dn (ok u, c) h =
    Done-after f g db (n c) (subst (λ d. Done g d (n c)) h (dn c))
Done-continue n f g db dn (err e, c) h = h

Does-seq :
    (m n : Exec Conn (Unit {0})) (f g : Db → Db)
    → Does m f
    → Does n g
    → Does (m >> n) (λ db. g (f db))
Does-seq m n f g dm dn c = Done-continue n f g c.db dn (m c) (dm c)

Does-unless :
    (b : Bool) (m : Exec Conn (Unit {0})) (f : Db → Db)
    → Does m f
    → Does (if b then pure tt else m) (λ db. if b then db else f db)
Does-unless true m f d c = refl
Does-unless false m f d c = d c

WholeOrNothing-settle :
    (f : Db → Db) (db : Db) (x : Result (Unit {0}) × Conn)
    → Done f db x
    → WholeOrNothing f db (settle db x)
WholeOrNothing-settle f db (ok u, c) h = h
WholeOrNothing-settle f db (err e, c) h = (h, refl)

module _ (faults : ℕ → Bool) where
  Does-call : Does (call faults) (λ db. db)
  Does-call c = elim (Bool-cases (faults c.calls)) [ inl e ↦ rw e | inr e ↦ rw e ]

  Does-exec : (f : Db → Db) → Does (exec faults f) f
  Does-exec f c = elim (Bool-cases (faults c.calls)) [ inl e ↦ rw e | inr e ↦ rw e ]

  Does-each : (stmts : List (Db → Db)) → Does (each stmts (exec faults)) (apply_all stmts)
  Does-each [] = λ c. refl
  Does-each (s ∷ stmts) =
      Does-seq (exec faults s) (each stmts (exec faults)) s (apply_all stmts) (Does-exec s)
        (Does-each stmts)

  in_tx-WholeOrNothing :
      (fn : Exec Conn (Unit {0})) (f : Db → Db)
      → Does fn f
      → (c : Conn) → WholeOrNothing f c.db (in_tx faults fn c)
  unfolding in_tx
  in_tx-WholeOrNothing fn f d c = WholeOrNothing-settle f c.db _ (
      Does-seq (call faults >> fn) (call faults) f (λ db. db)
        (Does-seq (call faults) fn (λ db. db) f Does-call d) Does-call c)

  -- A batch of statements is applied whole, in order, or it fails and the database is as it was.
  pub exec_batch-WholeOrNothing :
      (stmts : List (Db → Db)) (c : Conn)
      → WholeOrNothing (apply_all stmts) c.db (exec_batch faults stmts c)
  unfolding exec_batch
  exec_batch-WholeOrNothing [] c = refl
  exec_batch-WholeOrNothing (s ∷ stmts) c =
      in_tx-WholeOrNothing _ _
        (Does-seq (call faults) (each (s ∷ stmts) (exec faults)) (λ db. db) _ Does-call
          (Does-each (s ∷ stmts)))
        c

  Does-change_member :
      (folder : Text) (it : MemberChangeItem)
      → Does (change_member faults folder it) (change_row folder it)
  unfolding change_member change_row
  Does-change_member folder it =
      Does-seq (exec faults (change_rows folder it)) _ (change_rows folder it) (queue folder it)
        (Does-exec (change_rows folder it))
        (Does-unless (it.pending_kind == codes "") _
          (insert_pending it.pending_kind it.key folder (change_op it.add))
          (Does-exec (insert_pending it.pending_kind it.key folder (change_op it.add))))

  Does-change_members :
      (folder : Text) (items : List MemberChangeItem)
      → Does (each items (change_member faults folder)) (apply_all (map (change_row folder) items))
  Does-change_members folder [] = λ c. refl
  Does-change_members folder (it ∷ items) =
      Does-seq (change_member faults folder it) (each items (change_member faults folder))
        (change_row folder it) (apply_all (map (change_row folder) items))
        (Does-change_member folder it) (Does-change_members folder items)

  -- The changes of a batch and the operations that they queue are stored together, in order, or the
  -- batch fails and the database is as it was.
  pub member_change_batch-WholeOrNothing :
      (folder : Text) (items : List MemberChangeItem) (c : Conn)
      → WholeOrNothing
          (apply_all (map (change_row folder) items))
          c.db
          (member_change_batch faults folder items c)
  unfolding member_change_batch
  member_change_batch-WholeOrNothing folder [] c = refl
  member_change_batch-WholeOrNothing folder (it ∷ items) c =
      let body = each (it ∷ items) (change_member faults folder) in
      let call2 =
        Does-seq (call faults) (call faults) (λ (db : Db). db) (λ db. db) Does-call Does-call in
      let call3 =
        Does-seq (call faults >> call faults) (call faults) (λ (db : Db). db) (λ db. db) call2
          Does-call in
      in_tx-WholeOrNothing _ _
        (Does-seq (call faults >> call faults >> call faults) body (λ db. db) _ call3
          (Does-change_members folder (it ∷ items)))
        c
