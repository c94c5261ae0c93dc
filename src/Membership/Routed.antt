-- ===== src/Membership/Routed.antt =====
-- internal/reconcile/membership.go: where `destFolderFor` puts a message behind a scan.
use umleitung.Base.{
  ℕ, ◌<◌, ◌+◌, ◌≤◌, ◌≡◌, ◌↔◌, refl, sym, ap, ◌∙◌, Bool, true, false, ◌||◌, Option, none, some, List,
  [], ◌∷◌, ◌++◌, All, Bool-cases, inl, inr, arith,
}
use umleitung.Base.Text.{Text}
use umleitung.Base.Exec.{Result, ok, err}
use umleitung.Base.Hoare.{After}
use umleitung.State.Tables.{Db, MemberRow, same_member, is_member}
use umleitung.State.Members.{uid_at}
use umleitung.Env.{Env, Options, World}
use umleitung.Windows.{u32, batch_of}
use umleitung.Routing.{dest_folder_for}
use umleitung.Routing.Laws.{home, dest_folder_for-home}
use umleitung.Membership.{Watched, sync_membership, list_labels, routing_folders}
use umleitung.Membership.Tracks.{IsSnapshot}
use umleitung.Membership.Whole.{ServerView, TracksAll, Snapshots, sync_membership-Snapshots}

abbrev is_some : Option ℕ → Bool
is_some none = false
is_some (some u) = true

is_member-uid_at :
    (f k : Text) (rows : List MemberRow) → is_member f k rows ≡ is_some (uid_at f k rows)
unfolding is_member uid_at
is_member-uid_at f k [] = refl
is_member-uid_at f k (r ∷ rows) = elim (Bool-cases (same_member f k r)) [
  | inl e ↦ rw e refl
  | inr e ↦ rw e (is_member-uid_at f k rows)
]

All-right : {A : Type 0} (P : A → Type 0) (xs ys : List A) → All P (xs ++ ys) → All P ys
All-right P [] ys h = h
All-right P (x ∷ xs) ys h = All-right P xs ys h.1

-- The server's folder has a message of this key, or not.
abbrev pub Tells : (Text → ℕ → Text → Type 0) → Text → Text → Bool → Type 0
Tells Has f k b = (b ≡ true) ↔ ((u : ℕ) × Has f u k)

module _ (Has : Text → ℕ → Text → Type 0) (f k : Text) where
  stored_as :
      (x : Option ℕ) (b : Bool)
      → ((u : ℕ) → (x ≡ some u) ↔ Has f u k)
      → Tells Has f k b
      → is_some x ≡ b
  stored_as none true s t = let (u, h) = t.0 refl in cc ((s u).1 h)
  stored_as none false s t = refl
  stored_as (some u) true s t = refl
  stored_as (some u) false s t = sym (t.1 (u, (s u).0 refl))

  is_member-Tells :
      (b : Bool) (db : Db)
      → IsSnapshot f (Has f) db
      → Tells Has f k b
      → is_member f k db.members ≡ b
  is_member-Tells b db s t =
      is_member-uid_at f k db.members ∙ stored_as (uid_at f k db.members) b (λ u. s u k) t

-- The rule looks at the memberships that are routed alone.
home-agree :
    (o : Options) (p q a b : Bool)
    → ((o.archive_routing || o.sent_routing) ≡ true → p ≡ a)
    → (o.sent_routing ≡ true → q ≡ b)
    → home o p q ≡ home o a b
unfolding home
home-agree o p q a b inbox sent = elim (Bool-cases (o.archive_routing || o.sent_routing)) [
  | inl r ↦ elim (Bool-cases o.sent_routing) [
    | inl e ↦ rw (inbox r, sent e)
    | inr e ↦ rw (inbox r, e)
  ]
  | inr r ↦ elim (Bool-cases o.sent_routing) [
    | inl e ↦ absurd (ground (arith, r, e))
    | inr e ↦ rw (r, e)
  ]
]

module _ (E : Env) (o : Options) (P : Watched → Type 0) (h : All P (routing_folders E o)) where
  watched_inbox :
      (o.archive_routing || o.sent_routing) ≡ true
      → (kind : Text) × P (record { name = o.source_inbox; kind = kind })
  unfolding routing_folders
  watched_inbox e = (_, (rw e at h).0)

  watched_sent :
      o.sent_routing ≡ true → (kind : Text) × P (record { name = o.sent_src_folder; kind = kind })
  unfolding routing_folders
  watched_sent e =
      let r : (o.archive_routing || o.sent_routing) ≡ true = ground (arith, e) in
      (_, (rw (r, e) at h).1.0)

module _ {E : Env} {v next : Text → ℕ} {Has : Text → ℕ → Text → Type 0} {content : Text → ℕ → Text}
    {Selected : Text → E.Src → Type 0} (V : ServerView E v next Has content Selected) (o : Options)
    (positive : 0 < batch_of o) (room : (f : Text) → next f + batch_of o ≤ u32) where
  -- If a session with the source shows every folder, the batch is positive, the UIDNEXTs leave room for
  -- one batch below 2^32, the stored members of every folder track it and the database answers, then
  -- behind a scan of the watched folders that succeeds a message is routed by the folders that it is
  -- in on the server: by the rule inbox before sent before archive before primary.
  pub sync_membership-home :
      (w : World E)
      → TracksAll V o positive room w.conn.db
      → ((n : ℕ) → E.faults n ≡ false)
      → (k : Text) (a b : Bool) → Tells Has o.source_inbox k a
      → Tells Has o.sent_src_folder k b
      → After
          (λ u x. (dest_folder_for E o k x).0 ≡ ok (home o a b))
          (λ x. Unit {0})
          (sync_membership E o w)
  sync_membership-home w t quiet k a b in_inbox in_sent =
      go (sync_membership E o w) (sync_membership-Snapshots V o positive room w t)
    where
      routed :
          (x : World E) (labels : List Watched)
          → Snapshots V o positive room (labels ++ routing_folders E o) x.conn.db
          → (dest_folder_for E o k x).0 ≡ ok (home o a b)
      routed x labels s =
          let h =
            All-right (λ (f : Watched). IsSnapshot f.name (Has f.name) x.conn.db) labels
              (routing_folders E o) s in
          dest_folder_for-home E o k x quiet
          ∙ ap ok (
              home-agree o _ _ a b
                (λ e.
                  is_member-Tells Has o.source_inbox k a x.conn.db (watched_inbox E o _ h e).1
                    in_inbox)
                (λ e.
                  is_member-Tells Has o.sent_src_folder k b x.conn.db (watched_sent E o _ h e).1
                    in_sent))

      go :
          (x : Result (Unit {0}) × World E)
          → After
              (λ (u : Unit {0}) (y : World E).
                TracksAll V o positive room y.conn.db
                × (labels : List Watched) × ((list_labels E o w).0 ≡ ok labels)
                × Snapshots V o positive room (labels ++ routing_folders E o) y.conn.db)
              (λ y. TracksAll V o positive room y.conn.db)
              x
          → After
              (λ (u : Unit {0}) (y : World E). (dest_folder_for E o k y).0 ≡ ok (home o a b))
              (λ y. Unit {0})
              x
      go (ok u, y) h = routed y h.1 h.3
      go (err e, y) h = tt
