-- ===== src/Membership/Snapshot.antt =====
-- internal/reconcile/membership.go: `syncWatchedFolder` as a whole, against what the server shows.
use umleitung.Base.{ℕ, ◌+◌, ◌≤◌, ◌<◌, ◌≡◌, refl, ap, ◌∙◌, sym, not, arith, ◌==◌ as nat_eq, ==_iff}
use umleitung.Base.Text.{Text}
use umleitung.Base.Hoare.{
  After, Triple, Triple-bind, Triple-fails, Triple-first, Triple-gives, Triple-if,
}
use umleitung.State.Tables.{Db, lookup_folder}
use umleitung.State.Store.{folder_state}
use umleitung.Env.{Env, FolderStatus, Options, World}
use umleitung.Windows.{u32, batch_of}
use umleitung.Membership.{Watched, scan_watched_folder, sync_watched_folder}
use umleitung.Membership.Items.{On, Triple-query, Triple-src}
use umleitung.Membership.Removals.{Kept, Scanned}
use umleitung.Membership.Tracks.{FolderView, mark_of, Tracks, IsSnapshot, SameOthers}
use umleitung.Membership.Update.{update-Scanned}
use umleitung.Membership.Rebuild.{Stale, rebuild-Scanned}

module _ {E : Env} {f : Text} {v next : ℕ} {Has : ℕ → Text → Type 0} {content : ℕ → Text}
    {Selected : E.Src → Type 0} (V : FolderView E f v next Has content Selected) (before : Db)
    (o : Options) (kind : Text) (positive : 0 < batch_of o) (room : next + batch_of o ≤ u32) where
  folder : Watched
  folder = record { name = f; kind = kind }

  scan-Scanned :
      (st : FolderStatus) (validity last : ℕ)
      → st.uid_validity ≡ v
      → st.uid_next ≡ next
      → Triple
          (On (λ db. Kept V before db × (mark_of f db ≡ (validity, last))) Selected)
          (scan_watched_folder E o (record { name = f; kind = kind }) st (validity, last))
          (λ u w. Scanned V before w.conn.db)
          (λ w. Kept V before w.conn.db)
  scan-Scanned st validity last p q =
      rw (p, q)
        (Triple-if (not (nat_eq validity v)) _ _
          (λ e.
            Triple-first {P = On (Stale V before o kind positive room) Selected}
              (λ w h. (
                (
                  h.0.0,
                  λ x. absurd (
                      let y = ap (λ (i : ℕ × ℕ). i.0) h.0.1 in
                      let z : validity ≡ v = cc in let t = (==_iff validity v).1 z in cc (e, t)),
                ),
                h.1,
              ))
              (rebuild-Scanned V before o kind positive room))
          (λ e.
            Triple-first {P = On (λ db. Kept V before db × (mark_of f db ≡ (v, last))) Selected}
              (λ w h.
                let z : validity ≡ v = ground (arith, e, ==_iff validity v) in
                ((h.0.0, h.0.1 ∙ ap (λ i. (i, last)) z), h.1))
              (update-Scanned V before o kind positive room last)))

  sync-Scanned :
      Triple
        (On (Kept V before) (λ s. Unit {0}))
        (sync_watched_folder E o (record { name = f; kind = kind }))
        (λ u w. Scanned V before w.conn.db)
        (λ w. Kept V before w.conn.db)
  unfolding sync_watched_folder folder_state
  sync-Scanned = Triple-bind _ _ (Triple-src E (λ s. Unit {0}) (Kept V before) _ _ V.select) λ st.
      record {
        run = λ w h.
            (Triple-bind {R = λ x. On (λ db. Kept V before db × (mark_of f db ≡ x)) Selected} _ _
                (Triple-gives (λ x v i. ((i.1.0, sym i.0), i.1.1))
                  (Triple-fails (λ v i. i)
                    (Triple-query E Selected (Kept V before) (λ db. lookup_folder f db.folders))))
                (λ x. scan-Scanned st x.0 x.1 h.1.0.0 h.1.0.1)).run
              w (h.0, h.1.1);
      }

-- If a session with the source shows the messages of a folder, no two with one key and each UID with
-- its message as long as the UIDVALIDITY stays, the batch is positive and the UIDNEXT leaves room for
-- one batch below 2^32, and the stored members track the folder (no key is stored twice, and if they
-- are of this UIDVALIDITY, each has a UID that had its key and every message up to the mark is
-- stored), then a scan of the folder that succeeds ends with the stored members being exactly the
-- folder's messages with their UIDs, under its UIDVALIDITY, and one that fails, wherever it does,
-- leaves members that still track the folder, so that the next scan can succeed. The members of
-- other folders, and their marks, are left as they were in either case.
pub sync_watched_folder-IsSnapshot :
    {E : Env} {f : Text} {v next : ℕ} {Has : ℕ → Text → Type 0} {content : ℕ → Text}
    {Selected : E.Src → Type 0}
    → FolderView E f v next Has content Selected
    → (o : Options) (kind : Text) → 0 < batch_of o
    → next + batch_of o ≤ u32
    → (w : World E) → Tracks f v Has content w.conn.db
    → After
        (λ u x.
          ((Tracks f v Has content x.conn.db × SameOthers f w.conn.db x.conn.db)
            × ((mark_of f x.conn.db).0 ≡ v))
          × IsSnapshot f Has x.conn.db)
        (λ x. Tracks f v Has content x.conn.db × SameOthers f w.conn.db x.conn.db)
        (sync_watched_folder E o (record { name = f; kind = kind }) w)
sync_watched_folder-IsSnapshot V o kind positive room w t =
    (sync-Scanned V w.conn.db o kind positive room).run w ((t, λ g n. (refl, λ k. refl)), tt)
