-- ===== src/State/Open.antt =====
-- internal/state/store.go: `Open`. The tables of a migrated file are those of the store.
use mathlib.Core.Path.{subst}
use umleitung.Base.{ℕ, ◌≡◌, Bool, refl, sym, ap, inl}
use umleitung.Base.Exec.{ok, Exec, ◌>>◌}
use umleitung.Base.Hoare.{After, Triple-bind}
use umleitung.State.Tables.{Db}
use umleitung.State.Store.{Conn}
use umleitung.State.Migrate.{File, FileConn, driver_call, migrate}
use umleitung.State.Migrate.Schema.{
  rows, second_schema, IsEarlier, Has, Unmoved, call-Has, migrate_lem,
}

-- The store's tables; `next` is the next id of `pending`.
abbrev pub tables_of : ℕ → File → Db
tables_of next f = record {
  copied = rows f.copied;
  meta = rows f.meta;
  members = rows f.members;
  pending = rows f.pending;
  next_id = next;
  folders = rows f.folders;
}

module _ (faults : ℕ → Bool) where
  -- `sql.Open`, then the migration; the file is closed again if that fails
  unfoldable pub open_store : ℕ → Exec FileConn Conn
  open_store next = do
    driver_call faults
    migrate faults
    λ c. (ok (record { db = tables_of next c.file; calls = c.calls }), c)

  -- Of a file that an earlier version has left, the store has the tables of the second schema; or
  -- opening it fails and the file is as it was or under the first schema.
  pub open_store_lem :
      (next : ℕ) (c : FileConn)
      → IsEarlier c.file
      → After
          (λ conn d. conn.db ≡ tables_of next (second_schema c.file))
          (Unmoved c.file)
          (open_store next c)
  unfolding open_store
  open_store_lem next c e =
      (Triple-bind (driver_call faults) _ (call-Has faults c.file (Unmoved c.file) (λ d. inl)) (λ u.
          Triple-bind {R = λ u. Has (second_schema c.file)} (migrate faults) _
            (record {
              run = λ d h.
                  subst (λ g. After (λ u. Has (second_schema g)) (Unmoved g) (migrate faults d)) h
                    (migrate_lem faults d (subst IsEarlier (sym h) e));
            })
            (λ u. record { run = λ d h. ap (tables_of next) h }))).run
        c refl
