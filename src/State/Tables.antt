-- ===== src/State/Tables.antt =====
-- internal/state/store.go: the tables, and the statements on them.
use umleitung.Base.{
  ℕ, ◌+◌, Bool, true, false, ◌&&◌, List, [], ◌∷◌, ◌++◌, ltb, leb, ◌==◌ as nat_eq, if◌then◌else◌,
}
use umleitung.Base.Text.{Text, codes, ◌==◌}

-- `KeyRecord`, and a row of the table `copied`
pub record KeyRecord : Type 0 where
  pub key : Text
  pub uid : ℕ
  pub copied_at : ℕ

pub record MemberRow : Type 0 where
  pub folder : Text
  pub key : Text
  pub uid : ℕ

pub record PendingOp : Type 0 where
  pub id : ℕ
  pub kind : Text
  pub message_id : Text
  pub folder : Text
  pub op : Text

pub record FolderRow : Type 0 where
  pub name : Text
  pub uid_validity : ℕ
  pub last_uid : ℕ

-- The database. `next_id` is the counter of AUTOINCREMENT.
pub record Db : Type 0 where
  pub copied : List KeyRecord
  pub meta : List (Text × Text)
  pub members : List MemberRow
  pub pending : List PendingOp
  pub next_id : ℕ
  pub folders : List FolderRow

abbrev pub empty_db : Db
empty_db = record { copied = []; meta = []; members = []; pending = []; next_id = 1; folders = [] }

-- `MemberChangeItem`
pub record MemberChangeItem : Type 0 where
  pub key : Text
  pub uid : ℕ
  pub add : Bool
  pub pending_kind : Text

-- The statements, on tables.

unfoldable pub has_row : Text → List KeyRecord → Bool
has_row k [] = false
has_row k (r ∷ rows) = if r.key == k then true else has_row k rows

-- INSERT … ON CONFLICT(message_id) DO NOTHING
unfoldable pub insert_copied : KeyRecord → Db → Db
unfolding has_row
insert_copied r db =
    if has_row r.key db.copied then db else record db { copied = db.copied ++ r ∷ [] }

unfoldable pub lookup_meta : Text → List (Text × Text) → Text
lookup_meta k [] = codes ""
lookup_meta k ((j, v) ∷ rows) = if j == k then v else lookup_meta k rows

unfoldable pub put_meta : Text → Text → List (Text × Text) → List (Text × Text)
put_meta k v [] = (k, v) ∷ []
put_meta k v ((j, w) ∷ rows) = if j == k then (k, v) ∷ rows else (j, w) ∷ put_meta k v rows

abbrev pub same_member : Text → Text → MemberRow → Bool
same_member f k r = r.folder == f && r.key == k

unfoldable pub is_member : Text → Text → List MemberRow → Bool
is_member f k [] = false
is_member f k (r ∷ rows) = if same_member f k r then true else is_member f k rows

unfoldable pub put_member : Text → Text → ℕ → List MemberRow → List MemberRow
put_member f k u [] = record { folder = f; key = k; uid = u } ∷ []
put_member f k u (r ∷ rows) =
    if same_member f k r then record r { uid = u } ∷ rows else r ∷ put_member f k u rows

unfoldable pub remove_member : Text → Text → List MemberRow → List MemberRow
remove_member f k [] = []
remove_member f k (r ∷ rows) =
    let rest = remove_member f k rows in if same_member f k r then rest else r ∷ rest

-- INSERT … ON CONFLICT(folder, message_id) DO UPDATE SET uid = excluded.uid
unfoldable pub upsert_member : Text → Text → ℕ → Db → Db
unfolding put_member
upsert_member f k u db = record db { members = put_member f k u db.members }

unfoldable pub delete_member : Text → Text → Db → Db
unfolding remove_member
delete_member f k db = record db { members = remove_member f k db.members }

unfoldable pub insert_pending : Text → Text → Text → Text → Db → Db
insert_pending kind key folder op db = record db {
  pending =
      db.pending
      ++ record { id = db.next_id; kind = kind; message_id = key; folder = folder; op = op } ∷ [];
  next_id = db.next_id + 1;
}

unfoldable pub remove_pending : ℕ → List PendingOp → List PendingOp
remove_pending i [] = []
remove_pending i (o ∷ ops) =
    let rest = remove_pending i ops in if nat_eq o.id i then rest else o ∷ rest

-- DELETE FROM pending WHERE id = ?
unfoldable pub delete_pending : ℕ → Db → Db
unfolding remove_pending
delete_pending i db = record db { pending = remove_pending i db.pending }

unfoldable pub lookup_folder : Text → List FolderRow → ℕ × ℕ
lookup_folder n [] = (0, 0)
lookup_folder n (r ∷ rows) =
    if r.name == n then (r.uid_validity, r.last_uid) else lookup_folder n rows

unfoldable pub put_folder : Text → ℕ → ℕ → List FolderRow → List FolderRow
put_folder n v u [] = record { name = n; uid_validity = v; last_uid = u } ∷ []
put_folder n v u (r ∷ rows) =
    if r.name == n
    then record r { uid_validity = v; last_uid = u } ∷ rows
    else r ∷ put_folder n v u rows

-- ORDER BY id
unfoldable pub insert_by_id : PendingOp → List PendingOp → List PendingOp
insert_by_id o [] = o ∷ []
insert_by_id o (p ∷ ops) = if leb o.id p.id then o ∷ p ∷ ops else p ∷ insert_by_id o ops

unfoldable pub order_by_id : List PendingOp → List PendingOp
unfolding insert_by_id
order_by_id [] = []
order_by_id (o ∷ ops) = insert_by_id o (order_by_id ops)

-- the order of texts by their bytes
unfoldable pub text_le : Text → Text → Bool
text_le [] t = true
text_le (c ∷ s) [] = false
text_le (c ∷ s) (d ∷ t) = if nat_eq c d then text_le s t else ltb c d

-- ORDER BY folder
unfoldable pub insert_text : Text → List Text → List Text
unfolding text_le
insert_text x [] = x ∷ []
insert_text x (y ∷ ys) = if text_le x y then x ∷ y ∷ ys else y ∷ insert_text x ys

unfoldable pub folders_of : Text → List MemberRow → List Text
unfolding insert_text
folders_of k [] = []
folders_of k (r ∷ rows) =
    let rest = folders_of k rows in if r.key == k then insert_text r.folder rest else rest

unfoldable pub keys_of : Text → List MemberRow → List Text
keys_of f [] = []
keys_of f (r ∷ rows) = let rest = keys_of f rows in if r.folder == f then r.key ∷ rest else rest

unfoldable pub uid_keys_of : Text → List MemberRow → List (ℕ × Text)
uid_keys_of f [] = []
uid_keys_of f (r ∷ rows) =
    let rest = uid_keys_of f rows in
    if r.folder == f && ltb 0 r.uid then (r.uid, r.key) ∷ rest else rest
