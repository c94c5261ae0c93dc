-- ===== src/Membership/Whole.antt =====
-- internal/reconcile/membership.go: `syncMembership` as a whole, and the routing behind it.
use umleitung.Base.{
  ℕ, ◌+◌, ◌≤◌, ◌<◌, ◌≡◌, refl, sym, ap, ◌∙◌, List, [], ◌∷◌, ◌++◌, All, All-map, Bool-cases, inl,
  inr, arith,
}
use umleitung.Base.Text.{Text, ◌==◌, eq_iff}
use umleitung.Base.Exec.{Result, ok, err, continue, each}
use umleitung.Base.Hoare.{
  After, Triple, Triple-pure, Triple-bind, Triple-gives, Triple-if, Triple-Keeps,
}
use umleitung.State.Tables.{Db}
use umleitung.Env.{Env, Options, World, on_src}
use umleitung.Windows.{u32, batch_of}
use umleitung.Membership.{
  Watched, sync_watched_folder, sync_membership, list_labels, label_folders, routing_folders,
}
use umleitung.Membership.Tracks.{FolderView, mark_of, Tracks, IsSnapshot, SameOthers}
use umleitung.Membership.Snapshot.{sync_watched_folder-IsSnapshot}

-- What a session shows of every folder: of a name that has no folder, the selection fails.
pub record ServerView (E : Env) (v next : Text → ℕ) (Has : Text → ℕ → Text → Type 0)
    (content : Text → ℕ → Text) (Selected : Text → E.Src → Type 0) : Type 0 where
  pub folder : (f : Text) → FolderView E f (v f) (next f) (Has f) (content f) (Selected f)

module _ {E : Env} {v next : Text → ℕ} {Has : Text → ℕ → Text → Type 0} {content : Text → ℕ → Text}
    {Selected : Text → E.Src → Type 0} (V : ServerView E v next Has content Selected) (o : Options)
    (positive : 0 < batch_of o) (room : (f : Text) → next f + batch_of o ≤ u32) where
  -- the stored members of every folder track it
  abbrev pub TracksAll : Db → Type 0
  TracksAll db = (f : Text) → Tracks f (v f) (Has f) (content f) db

  -- the stored members of these folders are their messages
  abbrev pub Snapshots : List Watched → Db → Type 0
  Snapshots fs db = All (λ f. IsSnapshot f.name (Has f.name) db) fs

  other_Tracks :
      (f g : Text) (before db : Db)
      → TracksAll before
      → Tracks f (v f) (Has f) (content f) db
      → SameOthers f before db
      → Tracks g (v g) (Has g) (content g) db
  other_Tracks f g before db all t same = elim (Bool-cases (f == g)) [
    | inl e ↦ let p : f ≡ g = (eq_iff f g).0 e in rw (← p) t
    | inr n ↦
        let q = same g n in
        record {
          keyed = t.keyed;
          sound = λ k u m h.
              (all g).sound k u (ap (λ (i : ℕ × ℕ). i.0) (sym q.0) ∙ m) (sym (q.1 k) ∙ h);
          complete = λ u k m h l.
              q.1 k
              ∙ (all g).complete u k (ap (λ (i : ℕ × ℕ). i.0) (sym q.0) ∙ m) h
                  (let z = ap (λ (i : ℕ × ℕ). i.1) q.0 in omega arith);
        }
  ]

  other_IsSnapshot :
      (f g : Text) (before db : Db)
      → IsSnapshot g (Has g) before
      → IsSnapshot f (Has f) db
      → SameOthers f before db
      → IsSnapshot g (Has g) db
  other_IsSnapshot f g before db old now same = elim (Bool-cases (f == g)) [
    | inl e ↦ let p : f ≡ g = (eq_iff f g).0 e in rw (← p) now
    | inr n ↦
        let q = same g n in λ u k. (λ h. (old u k).0 (sym (q.1 k) ∙ h), λ h. q.1 k ∙ (old u k).1 h)
  ]

  -- one more folder, beside those that were scanned before
  sync_watched_folder-Snapshots :
      (f : Watched) (fs : List Watched)
      → Triple
          (λ w. TracksAll w.conn.db × Snapshots fs w.conn.db)
          (sync_watched_folder E o f)
          (λ u w. TracksAll w.conn.db × Snapshots (f ∷ fs) w.conn.db)
          (λ w. TracksAll w.conn.db)
  sync_watched_folder-Snapshots f fs = record {
    run = λ w h. go w h (sync_watched_folder E o f w) (
        sync_watched_folder-IsSnapshot (V.folder f.name) o f.kind positive (room f.name) w
          (h.0 f.name));
  }
    where
      go :
          (w : World E)
          → TracksAll w.conn.db × Snapshots fs w.conn.db
          → (x : Result (Unit {0}) × World E)
          → After
              (λ (u : Unit {0}) (y : World E).
                ((Tracks f.name (v f.name) (Has f.name) (content f.name) y.conn.db
                    × SameOthers f.name w.conn.db y.conn.db)
                  × ((mark_of f.name y.conn.db).0 ≡ v f.name))
                × IsSnapshot f.name (Has f.name) y.conn.db)
              (λ y.
                Tracks f.name (v f.name) (Has f.name) (content f.name) y.conn.db
                × SameOthers f.name w.conn.db y.conn.db)
              x
          → After
              (λ (u : Unit {0}) (y : World E). TracksAll y.conn.db × Snapshots (f ∷ fs) y.conn.db)
              (λ y. TracksAll y.conn.db)
              x
      go w h (ok u, y) q = (
        λ g. other_Tracks f.name g w.conn.db y.conn.db h.0 q.0.0.0 q.0.0.1,
        (
          q.1,
          All-map fs (λ g old. other_IsSnapshot f.name g.name w.conn.db y.conn.db old q.1 q.0.0.1)
              h.1,
        ),
      )
      go w h (err e, y) q = λ g. other_Tracks f.name g w.conn.db y.conn.db h.0 q.0 q.1

  each-Snapshots :
      (fs done : List Watched)
      → Triple
          (λ w. TracksAll w.conn.db × Snapshots done w.conn.db)
          (each fs (sync_watched_folder E o))
          (λ u w. TracksAll w.conn.db × (Snapshots fs w.conn.db × Snapshots done w.conn.db))
          (λ w. TracksAll w.conn.db)
  each-Snapshots [] done = Triple-pure tt (λ w h. (h.0, (tt, h.1)))
  each-Snapshots (f ∷ fs) done =
      Triple-bind _ _ (sync_watched_folder-Snapshots f done) λ u.
        Triple-gives (λ a w h. (h.0, ((h.1.1.0, h.1.0), h.1.1.1))) (each-Snapshots fs (f ∷ done))

  list_labels-TracksAll :
      Triple {S = World E}
        (λ w. TracksAll w.conn.db)
        (list_labels E o)
        (λ labels w. TracksAll w.conn.db)
        (λ w. TracksAll w.conn.db)
  list_labels-TracksAll =
      Triple-if o.sync_labels _ _
        (λ e.
          Triple-bind (on_src E.src_list_folders) _
            (Triple-Keeps _ (record { at = λ w h. h }) (λ w h. h) (λ a w h. h))
            (λ folders. Triple-pure (label_folders E o folders) (λ w h. h)))
        (λ e. Triple-pure [] (λ w h. h))

  -- If a session with the source shows every folder (as for one folder), the batch is positive, the
  -- UIDNEXTs leave room for one batch below 2^32 and the stored members of every folder track it, then
  -- a scan of all watched folders that succeeds ends with the stored members of every watched folder
  -- being exactly its messages, and one that fails, wherever it does, leaves members of every folder
  -- that still track it.
  pub sync_membership-Snapshots :
      (w : World E)
      → TracksAll w.conn.db
      → After
          (λ u x.
            TracksAll x.conn.db
            × (labels : List Watched) × ((list_labels E o w).0 ≡ ok labels)
            × Snapshots (labels ++ routing_folders E o) x.conn.db)
          (λ x. TracksAll x.conn.db)
          (sync_membership E o w)
  unfolding sync_membership
  sync_membership-Snapshots w h = go (list_labels E o w) (list_labels-TracksAll.run w h)
    where
      go :
          (x : Result (List Watched) × World E)
          → After (λ labels (y : World E). TracksAll y.conn.db) (λ y. TracksAll y.conn.db) x
          → After
              (λ (u : Unit {0}) (y : World E).
                TracksAll y.conn.db
                × (labels : List Watched) × (x.0 ≡ ok labels)
                × Snapshots (labels ++ routing_folders E o) y.conn.db)
              (λ y. TracksAll y.conn.db)
              (continue x.0
                (λ labels. each (labels ++ routing_folders E o) (sync_watched_folder E o))
                x.1)
      go (ok listed, y) q =
          (Triple-gives {m = each (listed ++ routing_folders E o) (sync_watched_folder E o)}
              (λ u z i. (i.0, listed, refl, i.1.0))
              (each-Snapshots (listed ++ routing_folders E o) [])).run
            y (q, tt)
      go (err e, y) q = q
