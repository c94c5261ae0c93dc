-- ===== src/Membership/Update.antt =====
-- internal/reconcile/membership.go: the scan of a folder whose UIDVALIDITY is the stored one.
use umleitung.Base.{ℕ, ◌+◌, ◌%◌, ◌≤◌, ◌<◌, ◌≡◌, inl, inr, arith, if◌then◌else◌, ltb}
use umleitung.Base.Text.{Text}
use umleitung.Base.Hoare.{Triple, Triple-bind, Triple-fails, Triple-first}
use umleitung.State.Tables.{Db, uid_keys_of}
use umleitung.State.Store.{member_uid_keys, set_folder_state}
use umleitung.Env.{Env, Options, World, on_src, check_ctx}
use umleitung.Windows.{u32, batch_of, window_stop, scan_window}
use umleitung.Windows.Tiling.{stop_in_range}
use umleitung.Windows.Rule.{Triple-scan_windows}
use umleitung.Membership.{gone_keys, watch_window, update_watched_folder}
use umleitung.Membership.Items.{
  On, Triple-query, Triple-src, Triple-check_ctx, Triple-exec, Triple-record_additions,
  Triple-record_removals,
}
use umleitung.Membership.Removals.{Kept, Scanned, Clean-Kept, Clean-Removes}
use umleitung.Membership.Tracks.{
  FolderView, mark_of, with_mark, Clean, Clean-IsSnapshot, Clean-Adds, Clean-with_mark,
}

module _ {E : Env} {f : Text} {v next : ℕ} {Has : ℕ → Text → Type 0} {content : ℕ → Text}
    {Selected : E.Src → Type 0} (V : FolderView E f v next Has content Selected) (before : Db) where
  module _ (o : Options) (kind : Text) (positive : 0 < batch_of o)
      (room : next + batch_of o ≤ u32) where
    abbrev Ready : ℕ → World E → Type 0
    Ready a = On (Clean f v Has before a) Selected

    further :
        (a stop : ℕ) (db : Db)
        → stop + 1 ≡ (if ltb (a + batch_of o) next then a + batch_of o else next)
        → Clean f v Has before (stop + 1) db
        → Clean f v Has before (a + batch_of o) db
    further a stop db e c = record {
      keyed = c.keyed;
      others = c.others;
      marked = c.marked;
      shown = c.shown;
      upto = λ u k h l.
          let r = V.in_range u k h in
          c.upto u k h
            (elim l [ inl early ↦ inl (ground (arith, early, r.1, e)) | inr marked ↦ inr marked ]);
    }

    watch_window-Ready :
        (a : ℕ)
        → a < next
        → Triple
            (Ready a)
            (scan_window check_ctx
              (batch_of o)
              next
              (λ start stop. on_src (E.src_fetch_meta_range start stop))
              (watch_window E o f kind v)
              a)
            (λ u. Ready (a + batch_of o))
            (λ w. (Kept V before) w.conn.db)
    unfolding scan_window watch_window set_folder_state
    watch_window-Ready a l =
        let stop = window_stop (batch_of o) a next in
        Triple-bind check_ctx _
          (Triple-fails (λ w. Clean-Kept V before a w.conn.db)
            (Triple-check_ctx E Selected (Clean f v Has before a)))
          λ u.
            Triple-bind (on_src (E.src_fetch_meta_range a stop)) _
              (Triple-fails (λ w. Clean-Kept V before a w.conn.db)
                (Triple-src E Selected (Clean f v Has before a) _ _ (V.fetch a stop)))
              λ ms. record {
                run = λ w h.
                    (Triple-bind _ _
                        (Triple-record_additions E Selected (Clean f v Has before a) o
                          (Clean f v Has before (stop + 1)) (Kept V before) f (λ k. kind) ms
                          (λ items db adds.
                            Clean-Adds V before a stop ms items db h.1.0.0 h.1.0.1 adds)
                          (Clean-Kept V before a))
                        (λ u.
                          Triple-exec E Selected (Clean f v Has before (stop + 1))
                            (Clean f v Has before (a + batch_of o)) (Kept V before)
                            (with_mark f v stop)
                            (λ db c.
                              further a stop _ (stop_in_range (batch_of o) a next l positive room)
                                (Clean-with_mark V before stop (stop + 1) db (omega arith) c))
                            (Clean-Kept V before (stop + 1)))).run
                      w (h.0, h.1.1);
              }

    -- The folder is scanned, or what is stored stays true.
    pub update-Scanned :
        (last : ℕ)
        → Triple
            (On (λ db. Kept V before db × (mark_of f db ≡ (v, last))) Selected)
            (update_watched_folder E o (record { name = f; kind = kind }) v next last)
            (λ u w. Scanned V before w.conn.db)
            (λ w. (Kept V before) w.conn.db)
    unfolding update_watched_folder member_uid_keys
    update-Scanned last =
        Triple-bind _ _ (Triple-fails (λ w h. h.0) (Triple-src E Selected _ _ _ V.search))
          λ current. record {
            run = λ w h.
                (Triple-bind _ _
                    (Triple-fails (λ w h. h.0)
                      (Triple-query E Selected (λ db. Kept V before db × (mark_of f db ≡ (v, last)))
                        (λ db. uid_keys_of f db.members)))
                    (λ rows.
                      Triple-bind _ _
                        (Triple-first (λ w h. ((h.0, h.1.0.0, h.1.0.1), h.1.1))
                          (Triple-record_removals E Selected
                            (λ db.
                              (rows ≡ uid_keys_of f db.members)
                              × Kept V before db
                              × (mark_of f db ≡ (v, last)))
                            o (Clean f v Has before ((last + 1) % u32)) (Kept V before) f kind
                            (gone_keys current rows)
                            (λ items db r d.
                              Clean-Removes V before current rows last db h.1.0.0 h.1.0.1 d.0 d.1
                                d.2 items r)
                            (λ db d. d.1)))
                        (λ u.
                          Triple-scan_windows check_ctx o next _ _ Ready
                            (λ w. Scanned V before w.conn.db) (λ w. (Kept V before) w.conn.db) room
                            (λ a w c. Clean-Kept V before a w.conn.db c.0)
                            (λ a w l c. (
                              (Clean-Kept V before a w.conn.db c.0, c.0.marked),
                              Clean-IsSnapshot V before a w.conn.db l c.0,
                            ))
                            watch_window-Ready ((last + 1) % u32)))).run
                  w (h.0, h.1.1);
          }
