-- ===== src/State/Migrate.antt =====
-- internal/state/migrate.go: a database file of any schema, and the migrations. Every call of the
-- database driver can fail, a script also where SQLite refuses one of its statements. Indexes are
-- left out.
pub mod Schema
pub mod Runs
use umleitung.Base.{
  ℕ, zero, suc, ◌+◌, ◌-◌, Bool, Option, none, some, List, [], ◌∷◌, map, ltb, if◌then◌else◌,
}
use umleitung.Base.Text.{Text}
use umleitung.Base.Exec.{
  Result, ok, err, db_failed, newer_schema, Exec, pure, raise, gets, ◌>>=◌, ◌>>◌,
}
use umleitung.State.Tables.{KeyRecord, MemberRow, PendingOp, FolderRow}

-- A table that does not exist is `none`. A row of `labels` is a message and its label.
pub record File : Type 0 where
  pub user_version : ℕ
  pub copied : Option (List KeyRecord)
  pub meta : Option (List (Text × Text))
  pub labels : Option (List (Text × Text))
  pub folders : Option (List FolderRow)
  pub members : Option (List MemberRow)
  pub pending : Option (List PendingOp)

abbrev pub schema_version : ℕ
schema_version = 2

-- the statements, where they may be refused

abbrev pub create_if_missing : {A : Type 0} → Option (List A) → Option (List A)
create_if_missing none = some []
create_if_missing (some rows) = some rows

abbrev pub create_table : {A : Type 0} → Option (List A) → Option (List A)
create_table none = some []
create_table (some rows) = none

-- SELECT label, message_id, 0 FROM labels
abbrev pub member_of_label : Text × Text → MemberRow
member_of_label row = record { folder = row.1; key = row.0; uid = 0 }

unfoldable pub create_v1 : File → Option File
create_v1 f = some (record f {
  copied = create_if_missing f.copied;
  meta = create_if_missing f.meta;
  labels = create_if_missing f.labels;
  folders = create_if_missing f.folders;
})

-- the rest of the script, once `members` and `pending` are created
abbrev pub move_labels :
    File
    → Option (List MemberRow)
    → Option (List PendingOp)
    → Option (List (Text × Text))
    → Option (List FolderRow)
    → Option File
move_labels f (some members) (some pending) (some labels) (some folders) = some (record f {
  members = some (map member_of_label labels);
  pending = some pending;
  labels = none;
  folders = some [];
})
move_labels f (some members) (some pending) (some labels) none = none
move_labels f (some members) (some pending) none folders = none
move_labels f (some members) none labels folders = none
move_labels f none pending labels folders = none

unfoldable pub create_v2 : File → Option File
create_v2 f = move_labels f (create_table f.members) (create_table f.pending) f.labels f.folders

-- `migrations[v]`
abbrev pub migration : ℕ → File → Option File
migration zero = create_v1
migration (suc zero) = create_v2
migration (suc (suc v)) = λ f. none

-- PRAGMA user_version = …
abbrev pub set_version : ℕ → File → Option File
set_version v f = some (record f { user_version = v })

-- the connection, with the number of calls made so far
pub record FileConn : Type 0 where
  pub file : File
  pub calls : ℕ

-- the deferred `tx.Rollback()`
abbrev pub rolled_back : File → Result (Unit {0}) × FileConn → Result (Unit {0}) × FileConn
rolled_back old (ok u, c) = (ok u, c)
rolled_back old (err e, c) = (err e, record c { file = old })

-- what a script leaves; a refused one is rolled back in any case
abbrev pub executed : Option File → Exec FileConn (Unit {0})
executed none c = (err db_failed, c)
executed (some f) c = (ok tt, record c { file = f })

module _ (faults : ℕ → Bool) where
  abbrev pub driver_call : Exec FileConn (Unit {0})
  driver_call c =
      if faults c.calls
      then (err db_failed, record c { calls = c.calls + 1 })
      else (ok tt, record c { calls = c.calls + 1 })

  abbrev pub exec_script : (File → Option File) → Exec FileConn (Unit {0})
  exec_script script = driver_call >> λ c. executed (script c.file) c

  -- Begin, the script, the version, Commit
  unfoldable pub migrate_step : ℕ → Exec FileConn (Unit {0})
  migrate_step v c = rolled_back c.file (
      (driver_call >> exec_script (migration v) >> exec_script (set_version (suc v)) >> driver_call)
        c)

  -- the loop, from a version on, for so many versions
  unfoldable pub migrate_from : ℕ → ℕ → Exec FileConn (Unit {0})
  migrate_from zero v = pure tt
  migrate_from (suc n) v = migrate_step v >> migrate_from n (suc v)

  unfoldable pub migrate : Exec FileConn (Unit {0})
  migrate = do
    driver_call
    version ← gets (λ c. c.file.user_version)
    if ltb schema_version version
        then raise newer_schema
        else migrate_from (schema_version - version) version
