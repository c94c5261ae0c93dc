-- ===== src/State/Valid/Keys.antt =====
-- internal/state/store.go: the statements keep the primary keys of `copied`, `meta` and `folders`.
use mathlib.Core.Path.{subst}
use umleitung.Base.{
  ℕ, ◌≡◌, refl, true, false, List, [], ◌∷◌, ◌++◌, Bool-cases, inl, inr, if◌then◌else◌, arith,
}
use umleitung.Base.Text.{Text, ◌==◌, eq_iff}
use umleitung.State.Tables.{Db, KeyRecord, FolderRow, has_row, insert_copied, put_meta, put_folder}
use umleitung.State.Valid.{has_meta, has_folder, CopiedOnce, MetaOnce, FoldersOnce, IsValid}

-- `copied`

has_row-append :
    (k : Text) (rows : List KeyRecord) (r : KeyRecord)
    → has_row k (rows ++ r ∷ []) ≡ (if has_row k rows then true else r.key == k)
unfolding has_row
has_row-append k [] r = ground arith
has_row-append k (x ∷ rows) r = ground (arith, has_row-append k rows r)

CopiedOnce-append :
    (rows : List KeyRecord) (r : KeyRecord)
    → has_row r.key rows ≡ false
    → CopiedOnce rows
    → CopiedOnce (rows ++ r ∷ [])
unfolding has_row
CopiedOnce-append [] r n h = (refl, tt)
CopiedOnce-append (x ∷ rows) r n h = (
  ground (arith, h.0, n, has_row-append x.key rows r, eq_iff r.key x.key, eq_iff x.key r.key),
  CopiedOnce-append rows r (ground (arith, n)) h.1,
)

pub insert_copied-IsValid : (r : KeyRecord) (db : Db) → IsValid db → IsValid (insert_copied r db)
unfolding insert_copied
insert_copied-IsValid r db v = elim (Bool-cases (has_row r.key db.copied)) [
  | inl e ↦ rw e v
  | inr e ↦ rw e (record {
    copied = CopiedOnce-append db.copied r e v.copied;
    meta = v.meta;
    members = v.members;
    folders = v.folders;
    pending = v.pending;
  })
]

-- `meta`

has_meta-put_meta :
    (k v j : Text) (rows : List (Text × Text))
    → has_meta j (put_meta k v rows) ≡ (if k == j then true else has_meta j rows)
unfolding put_meta
has_meta-put_meta k v j [] = refl
has_meta-put_meta k v j ((i, w) ∷ rows) =
    ground (arith, eq_iff i k, eq_iff i j, eq_iff k j, has_meta-put_meta k v j rows)

pub put_meta-MetaOnce :
    (k v : Text) (rows : List (Text × Text)) → MetaOnce rows → MetaOnce (put_meta k v rows)
unfolding put_meta
put_meta-MetaOnce k v [] h = (refl, tt)
put_meta-MetaOnce k v ((i, w) ∷ rows) h = elim (Bool-cases (i == k)) [
  | inl e ↦ rw e (subst (λ x. has_meta x rows ≡ false) ((eq_iff i k).0 e) h.0, h.1)
  | inr n ↦ rw n (
    ground (arith, h.0, n, has_meta-put_meta k v i rows, eq_iff k i, eq_iff i k),
    put_meta-MetaOnce k v rows h.1,
  )
]

-- `folders`

has_folder-put_folder :
    (n m : Text) (v u : ℕ) (rows : List FolderRow)
    → has_folder m (put_folder n v u rows) ≡ (if n == m then true else has_folder m rows)
unfolding put_folder
has_folder-put_folder n m v u [] = refl
has_folder-put_folder n m v u (r ∷ rows) =
    ground (arith, eq_iff r.name n, eq_iff r.name m, eq_iff n m, has_folder-put_folder n m v u rows)

pub put_folder-FoldersOnce :
    (n : Text) (v u : ℕ) (rows : List FolderRow)
    → FoldersOnce rows
    → FoldersOnce (put_folder n v u rows)
unfolding put_folder
put_folder-FoldersOnce n v u [] h = (refl, tt)
put_folder-FoldersOnce n v u (r ∷ rows) h = elim (Bool-cases (r.name == n)) [
  | inl e ↦ rw e h
  | inr m ↦ rw m (
    ground
        (arith, h.0, m, has_folder-put_folder n r.name v u rows, eq_iff n r.name, eq_iff r.name n),
    put_folder-FoldersOnce n v u rows h.1,
  )
]
