-- ===== src/State/Members.antt =====
-- internal/state/store.go: the table `members` as a map from folder and key to a UID.
use umleitung.Base.{
  ℕ, ◌≡◌, refl, true, false, ◌&&◌, Option, none, some, List, [], ◌∷◌, ltb, All, All-map, Bool-cases,
  inl, inr, if◌then◌else◌, arith,
}
use umleitung.Base.Text.{Text, codes, ◌==◌, eq_iff, eq_refl, contains}
use umleitung.State.Tables.{
  Db, MemberRow, MemberChangeItem, FolderRow, same_member, put_member, remove_member, upsert_member,
  delete_member, insert_pending, keys_of, uid_keys_of, lookup_folder, put_folder,
}
use umleitung.State.Atomic.{change_row}

-- the UID that is stored for a key of a folder
unfoldable pub uid_at : Text → Text → List MemberRow → Option ℕ
uid_at f k [] = none
uid_at f k (r ∷ rows) = if same_member f k r then some r.uid else uid_at f k rows

-- The primary key: no two rows have the same folder and key.
abbrev pub Keyed : List MemberRow → Type 0
Keyed [] = Unit {0}
Keyed (r ∷ rows) = (uid_at r.folder r.key rows ≡ none) × Keyed rows

uid_at-put_member :
    (f k g j : Text) (u : ℕ) (rows : List MemberRow)
    → uid_at g j (put_member f k u rows) ≡ (if f == g && k == j then some u else uid_at g j rows)
unfolding uid_at put_member
uid_at-put_member f k g j u [] = ground arith
uid_at-put_member f k g j u (r ∷ rows) = ground (
  arith,
  uid_at-put_member f k g j u rows,
  eq_iff r.folder f,
  eq_iff r.key k,
  eq_iff r.folder g,
  eq_iff r.key j,
  eq_iff f g,
  eq_iff k j,
)

uid_at-remove_member :
    (f k g j : Text) (rows : List MemberRow)
    → uid_at g j (remove_member f k rows) ≡ (if f == g && k == j then none else uid_at g j rows)
unfolding uid_at remove_member
uid_at-remove_member f k g j [] = ground arith
uid_at-remove_member f k g j (r ∷ rows) = ground (
  arith,
  uid_at-remove_member f k g j rows,
  eq_iff r.folder f,
  eq_iff r.key k,
  eq_iff r.folder g,
  eq_iff r.key j,
  eq_iff f g,
  eq_iff k j,
)

Keyed-put_member :
    (f k : Text) (u : ℕ) (rows : List MemberRow) → Keyed rows → Keyed (put_member f k u rows)
unfolding put_member
Keyed-put_member f k u [] h = (unfold uid_at in refl, tt)
Keyed-put_member f k u (r ∷ rows) h = elim (Bool-cases (same_member f k r)) [
  | inl same ↦ rw same h
  | inr other ↦ rw other (
    ground (
      arith,
      other,
      uid_at-put_member f k r.folder r.key u rows,
      eq_iff r.folder f,
      eq_iff r.key k,
      eq_iff f r.folder,
      eq_iff k r.key,
    ),
    Keyed-put_member f k u rows h.1,
  )
]

Keyed-remove_member :
    (f k : Text) (rows : List MemberRow) → Keyed rows → Keyed (remove_member f k rows)
unfolding remove_member
Keyed-remove_member f k [] h = tt
Keyed-remove_member f k (r ∷ rows) h = elim (Bool-cases (same_member f k r)) [
  | inl same ↦ rw same (Keyed-remove_member f k rows h.1)
  | inr other ↦ rw other (
    ground (arith, uid_at-remove_member f k r.folder r.key rows),
    Keyed-remove_member f k rows h.1,
  )
]

module _ (folder : Text) (it : MemberChangeItem) (db : Db) where
  -- A change writes the map at its folder and key alone.
  pub uid_at-change_row :
      (g j : Text)
      → uid_at g j (change_row folder it db).members ≡ (
          if folder == g && it.key == j
          then (if it.add then some it.uid else none)
          else uid_at g j db.members)
  unfolding change_row upsert_member delete_member insert_pending
  uid_at-change_row g j = ground (
    arith,
    uid_at-put_member folder it.key g j it.uid db.members,
    uid_at-remove_member folder it.key g j db.members,
  )

  -- Every change keeps the primary key.
  pub Keyed-change_row : Keyed db.members → Keyed (change_row folder it db).members
  unfolding change_row upsert_member delete_member insert_pending
  Keyed-change_row h = elim (Bool-cases it.add) [
    | inl e ↦ elim (Bool-cases (it.pending_kind == codes "")) [
      | inl q ↦ rw (e, q) (Keyed-put_member folder it.key it.uid db.members h)
      | inr q ↦ rw (e, q) (Keyed-put_member folder it.key it.uid db.members h)
    ]
    | inr e ↦ elim (Bool-cases (it.pending_kind == codes "")) [
      | inl q ↦ rw (e, q) (Keyed-remove_member folder it.key db.members h)
      | inr q ↦ rw (e, q) (Keyed-remove_member folder it.key db.members h)
    ]
  ]

  pub folders-change_row : (change_row folder it db).folders ≡ db.folders
  unfolding change_row upsert_member delete_member insert_pending
  folders-change_row = ground arith

pub lookup_folder-put_folder :
    (n : Text) (v u : ℕ) (rows : List FolderRow) → lookup_folder n (put_folder n v u rows) ≡ (v, u)
unfolding lookup_folder put_folder
lookup_folder-put_folder n v u [] = rw (eq_refl n)
lookup_folder-put_folder n v u (r ∷ rows) = elim (Bool-cases (r.name == n)) [
  | inl same ↦ rw (same, same)
  | inr other ↦ rw (other, other, lookup_folder-put_folder n v u rows)
]

pub lookup_folder-put_folder_other :
    (n m : Text) (v u : ℕ) (rows : List FolderRow)
    → (n == m) ≡ false
    → lookup_folder m (put_folder n v u rows) ≡ lookup_folder m rows
unfolding lookup_folder put_folder
lookup_folder-put_folder_other n m v u [] e = rw e
lookup_folder-put_folder_other n m v u (r ∷ rows) e = ground (
  arith,
  e,
  eq_iff r.name n,
  eq_iff r.name m,
  eq_iff n m,
  lookup_folder-put_folder_other n m v u rows e,
)

pub contains-keys_of :
    (f k : Text) (u : ℕ) (rows : List MemberRow)
    → uid_at f k rows ≡ some u
    → contains (keys_of f rows) k ≡ true
unfolding uid_at keys_of
contains-keys_of f k u [] h = cc
contains-keys_of f k u (r ∷ rows) h = ground (arith, h, contains-keys_of f k u rows)

step-uid_keys_of :
    (f : Text) (r : MemberRow) (rows : List MemberRow) (p : ℕ × Text)
    → uid_at r.folder r.key rows ≡ none
    → uid_at f p.1 rows ≡ some p.0
    → uid_at f p.1 (r ∷ rows) ≡ some p.0
unfolding uid_at
step-uid_keys_of f r rows p fresh h = elim (Bool-cases (same_member f p.1 r)) [
  | inl same ↦
      let e : r.folder ≡ f = ground (arith, same, eq_iff r.folder f) in
      let q : r.key ≡ p.1 = ground (arith, same, eq_iff r.key p.1) in cc
  | inr other ↦ rw other h
]

-- The pairs of a folder are those of the map.
pub uid_at-uid_keys_of :
    (f : Text) (rows : List MemberRow)
    → Keyed rows
    → All (λ (p : ℕ × Text). uid_at f p.1 rows ≡ some p.0) (uid_keys_of f rows)
unfolding uid_keys_of
uid_at-uid_keys_of f [] h = tt
uid_at-uid_keys_of f (r ∷ rows) h =
    let rest =
      All-map (uid_keys_of f rows) (λ p. step-uid_keys_of f r rows p h.0)
        (uid_at-uid_keys_of f rows h.1) in
    elim (Bool-cases (r.folder == f && ltb 0 r.uid)) [
      | inl e ↦ rw e ((unfold uid_at in ground (arith, e, eq_refl r.key)), rest)
      | inr e ↦ rw e rest
    ]
