-- ===== src/State/Valid.antt =====
-- internal/state/store.go: the keys of the tables and the order of the queue, which every method that
-- writes keeps.
pub mod Keys
pub mod Queue
pub mod Methods
use mathlib.Core.Path.{subst}
use umleitung.Base.{
  ℕ, ◌+◌, ◌≤◌, ◌<◌, ◌≡◌, refl, sym, ap, ◌∙◌, Bool, true, false, some, none, List, [], ◌∷◌, ◌++◌,
  map, take, ltb, leb, ◌==◌ as nat_eq, ==_iff, Bool-cases, inl, inr, All, if◌then◌else◌, arith,
}
use umleitung.Base.Text.{Text, codes, ◌==◌, eq_iff, eq_refl}
use umleitung.Base.Exec.{Result, ok, err, Exec}
use umleitung.Base.Keeps.{Keeps}
use umleitung.State.Tables.{
  Db, KeyRecord, MemberRow, PendingOp, FolderRow, MemberChangeItem, has_row, insert_copied,
  put_meta, upsert_member, delete_member, insert_pending, remove_pending, delete_pending,
  put_folder, insert_by_id, order_by_id,
}
use umleitung.State.Store.{
  Conn, meta_set, record_keys, seed_batch, record_key, member_change_batch, delete_pending_row,
  delete_pending_batch, set_folder_state, exec_batch, exec, pending_ops,
}
use umleitung.State.Atomic.{
  apply_all, change_row, WholeOrNothing, exec_batch-WholeOrNothing,
  member_change_batch-WholeOrNothing,
}
use umleitung.State.Members.{Keyed, Keyed-change_row, folders-change_row}

abbrev pub has_meta : Text → List (Text × Text) → Bool
has_meta k [] = false
has_meta k ((j, v) ∷ rows) = if j == k then true else has_meta k rows

abbrev pub has_folder : Text → List FolderRow → Bool
has_folder n [] = false
has_folder n (r ∷ rows) = if r.name == n then true else has_folder n rows

-- the primary keys of `copied`, `meta` and `folders`
abbrev pub CopiedOnce : List KeyRecord → Type 0
CopiedOnce [] = Unit {0}
CopiedOnce (r ∷ rows) = (has_row r.key rows ≡ false) × CopiedOnce rows

abbrev pub MetaOnce : List (Text × Text) → Type 0
MetaOnce [] = Unit {0}
MetaOnce ((k, v) ∷ rows) = (has_meta k rows ≡ false) × MetaOnce rows

abbrev pub FoldersOnce : List FolderRow → Type 0
FoldersOnce [] = Unit {0}
FoldersOnce (r ∷ rows) = (has_folder r.name rows ≡ false) × FoldersOnce rows

-- the ids grow from one operation to the next, from `low` on, and stay below `high`
abbrev pub Growing : ℕ → List PendingOp → ℕ → Type 0
Growing low [] high = low ≤ high
Growing low (o ∷ ops) high = (low ≤ o.id) × Growing (o.id + 1) ops high

pub record IsValid (db : Db) : Type 0 where
  pub copied : CopiedOnce db.copied
  pub meta : MetaOnce db.meta
  pub members : Keyed db.members
  pub folders : FoldersOnce db.folders
  pub pending : Growing 0 db.pending db.next_id
