-- ===== src/Membership/Tracks.antt =====
-- internal/reconcile/membership.go: how the stored members of a folder stand to the folder. What the
-- server shows is a parameter: `Has u k` says that the folder has a message of UID `u` and key `k`.
use umleitung.Base.{
  ℕ, ◌+◌, ◌≤◌, ◌<◌, ◌≡◌, ◌↔◌, ◌⊎◌, inl, inr, ap, ◌∙◌, true, false, some, List, Bool-cases, ltb,
  ltb→lt, ltb→le, arith,
}
use umleitung.Base.Text.{Text, ◌==◌}
use umleitung.Base.Hoare.{Triple}
use umleitung.Key.{MsgMeta}
use umleitung.State.Tables.{Db, MemberChangeItem, lookup_folder, put_folder}
use umleitung.State.Members.{
  uid_at, Keyed, lookup_folder-put_folder, lookup_folder-put_folder_other,
}
use umleitung.Env.{Env}
use umleitung.Membership.{has_uid}
use umleitung.Membership.Items.{Adds, batch}
use umleitung.Membership.Batches.{
  Among, Keyed-batch, folders-batch, uid_at-batch_other, uid_at-Adds, Adds-uid_at,
}

-- What a session with the source shows of a folder, selected or not: its UIDVALIDITY and UIDNEXT, the
-- UIDs of a search, and the messages of a range. No two messages have the same key, and a UID keeps
-- its message (`content`) as long as the UIDVALIDITY stays.
pub record FolderView (E : Env) (f : Text) (v next : ℕ) (Has : ℕ → Text → Type 0)
    (content : ℕ → Text) (Selected : E.Src → Type 0) : Type 0 where
  pub in_range : (u : ℕ) (k : Text) → Has u k → (0 < u) × (u < next)
  pub same_content : (u : ℕ) (k : Text) → Has u k → content u ≡ k
  pub one_uid : (u w : ℕ) (k : Text) → Has u k → Has w k → u ≡ w
  pub select :
      Triple
        (λ s. Unit {0})
        (E.src_select_named_folder f)
        (λ st s. ((st.uid_validity ≡ v) × (st.uid_next ≡ next)) × Selected s)
        (λ s. Unit {0})
  pub search :
      Triple Selected E.src_search_all_uids
        (λ us s.
          (((u : ℕ) (k : Text) → Has u k → has_uid us u ≡ true)
            × ((u : ℕ) → has_uid us u ≡ true → (k : Text) × Has u k))
          × Selected s)
        (λ s. Unit {0})
  pub fetch :
      (a b : ℕ)
      → Triple Selected
          (E.src_fetch_meta_range a b)
          (λ ms s.
            (((u : ℕ) (k : Text) → Among E.hex_sha256 u k ms → Has u k)
              × ((u : ℕ) (k : Text) → Has u k → a ≤ u → u ≤ b → Among E.hex_sha256 u k ms))
            × Selected s)
          (λ s. Unit {0})

-- the stored UIDVALIDITY and last UID of a folder
abbrev pub mark_of : Text → Db → ℕ × ℕ
mark_of f db = lookup_folder f db.folders

module _ (f : Text) (v : ℕ) (Has : ℕ → Text → Type 0) (content : ℕ → Text) where
  -- What holds of the stored members at every moment: if they are of this UIDVALIDITY, each has a UID
  -- that had its key, and every message up to the mark is stored.
  pub record Tracks (db : Db) : Type 0 where
    pub keyed : Keyed db.members
    pub sound :
        (k : Text) (u : ℕ)
        → (mark_of f db).0 ≡ v
        → uid_at f k db.members ≡ some u
        → (0 < u) × (content u ≡ k)
    pub complete :
        (u : ℕ) (k : Text)
        → (mark_of f db).0 ≡ v
        → Has u k
        → u ≤ (mark_of f db).1
        → uid_at f k db.members ≡ some u

-- The stored members of the folder are its messages, with their UIDs.
abbrev pub IsSnapshot : Text → (ℕ → Text → Type 0) → Db → Type 0
IsSnapshot f Has db = (u : ℕ) (k : Text) → (uid_at f k db.members ≡ some u) ↔ Has u k

-- The stored members and the marks of the other folders are as before.
abbrev pub SameOthers : Text → Db → Db → Type 0
SameOthers f before db =
    (g : Text)
    → (f == g) ≡ false
    → (mark_of g db ≡ mark_of g before)
      × ((k : Text) → uid_at g k db.members ≡ uid_at g k before.members)

abbrev pub with_mark : Text → ℕ → ℕ → Db → Db
with_mark f v u db = record db { folders = put_folder f v u db.folders }

pub SameOthers-batch :
    (f : Text) (before : Db) (items : List MemberChangeItem) (db : Db)
    → SameOthers f before db
    → SameOthers f before (batch f items db)
SameOthers-batch f before items db h g n = (
  ap (lookup_folder g) (folders-batch f items db) ∙ (h g n).0,
  λ k. uid_at-batch_other f items db g k n ∙ (h g n).1 k,
)

pub SameOthers-with_mark :
    (f : Text) (before : Db) (v u : ℕ) (db : Db)
    → SameOthers f before db
    → SameOthers f before (with_mark f v u db)
SameOthers-with_mark f before v u db h g n =
    (lookup_folder-put_folder_other f g v u db.folders n ∙ (h g n).0, (h g n).1)

-- While the folder is scanned: what is stored is in the folder, and the messages below `a` are stored.
pub record Clean (f : Text) (v : ℕ) (Has : ℕ → Text → Type 0) (before : Db) (a : ℕ) (db : Db)
    : Type 0 where
  pub keyed : Keyed db.members
  pub others : SameOthers f before db
  pub marked : (mark_of f db).0 ≡ v
  pub shown : (u : ℕ) (k : Text) → uid_at f k db.members ≡ some u → Has u k
  pub upto :
      (u : ℕ) (k : Text)
      → Has u k
      → (u < a) ⊎ (u ≤ (mark_of f db).1)
      → uid_at f k db.members ≡ some u

module _ {E : Env} {f : Text} {v next : ℕ} {Has : ℕ → Text → Type 0} {content : ℕ → Text}
    {Selected : E.Src → Type 0} (V : FolderView E f v next Has content Selected) (before : Db) where
  pub Clean-Tracks : (a : ℕ) (db : Db) → Clean f v Has before a db → Tracks f v Has content db
  Clean-Tracks a db c = record {
    keyed = c.keyed;
    sound = λ k u e h. let x = c.shown u k h in ((V.in_range u k x).0, V.same_content u k x);
    complete = λ u k e h l. c.upto u k h (inr l);
  }

  pub Clean-IsSnapshot :
      (a : ℕ) (db : Db) → next ≤ a → Clean f v Has before a db → IsSnapshot f Has db
  Clean-IsSnapshot a db l c u k =
      (c.shown u k, λ h. let r = V.in_range u k h in c.upto u k h (inl (omega arith)))

  pub Clean-Adds :
      (a stop : ℕ) (ms : List MsgMeta) (items : List MemberChangeItem) (db : Db)
      → ((u : ℕ) (k : Text) → Among E.hex_sha256 u k ms → Has u k)
      → ((u : ℕ) (k : Text) → Has u k → a ≤ u → u ≤ stop → Among E.hex_sha256 u k ms)
      → Adds E.hex_sha256 ms items
      → Clean f v Has before a db
      → Clean f v Has before (stop + 1) (batch f items db)
  Clean-Adds a stop ms items db from to adds c = record {
    keyed = Keyed-batch f items db c.keyed;
    others = SameOthers-batch f before items db c.others;
    marked = rw (folders-batch f items db) c.marked;
    shown = λ u k h. elim (uid_at-Adds f E.hex_sha256 ms items db k u adds h) [
      | inl old ↦ c.shown u k old
      | inr new ↦ from u k new
    ];
    upto = λ u k h l.
        Adds-uid_at f E.hex_sha256 ms items db k u adds (λ w x. V.one_uid w u k (from w k x) h)
          (elim l [
            | inl inside ↦ elim (Bool-cases (ltb u a)) [
              | inl early ↦ inl (c.upto u k h (inl (ltb→lt u a early)))
              | inr late ↦ inr (to u k h (ltb→le u a late) (omega arith))
            ]
            | inr marked ↦ inl (c.upto u k h (inr (rw (folders-batch f items db) at marked)))
          ]);
  }

  pub Clean-with_mark :
      (stop b : ℕ) (db : Db)
      → stop < b
      → Clean f v Has before b db
      → Clean f v Has before b (with_mark f v stop db)
  Clean-with_mark stop b db l c = record {
    keyed = c.keyed;
    others = SameOthers-with_mark f before v stop db c.others;
    marked = ap (λ (p : ℕ × ℕ). p.0) (lookup_folder-put_folder f v stop db.folders);
    shown = c.shown;
    upto = λ u k h x. c.upto u k h (
        inl (elim x [
          | inl early ↦ early
          | inr marked ↦
              let e : (mark_of f (with_mark f v stop db)).1 ≡ stop =
                ap (λ (p : ℕ × ℕ). p.1) (lookup_folder-put_folder f v stop db.folders) in
              omega arith
        ]));
  }
