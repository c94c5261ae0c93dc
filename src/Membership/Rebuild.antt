-- ===== src/Membership/Rebuild.antt =====
-- internal/reconcile/membership.go: the scan of a folder whose UIDVALIDITY is new.
mod Conditions
use mathlib.Core.Path.{subst}
use umleitung.Base.{
  ℕ, ◌+◌, ◌-◌, ◌≤◌, ◌<◌, ◌≡◌, ◌⊎◌, ap, refl, true, false, some, none, List, [], ◌∷◌, ◌++◌, ltb,
  ltb→lt, ltb→le, Bool-cases, inl, inr, arith, if◌then◌else◌,
}
use umleitung.Base.Text.{Text, ◌==◌, eq_iff, contains, contains-append}
use umleitung.Base.Exec.{◌>>◌}
use umleitung.Base.Hoare.{Triple, Triple-bind, Triple-fails, Triple-first, Triple-gives}
use umleitung.Key.{MsgMeta, dedup_key}
use umleitung.State.Tables.{Db, MemberChangeItem, keys_of}
use umleitung.State.Store.{member_keys, set_folder_state}
use umleitung.State.Members.{uid_at, Keyed, contains-keys_of, lookup_folder-put_folder}
use umleitung.Env.{Env, Options, World, on_store, on_src, check_ctx, inside}
use umleitung.Env.Locals.{Triple-inside, Triple-assign, Triple-with_local}
use umleitung.Windows.{u32, batch_of, window_stop, scan_window, scan_windows}
use umleitung.Windows.Tiling.{stop_in_range}
use umleitung.Windows.Rule.{Triple-scan_windows}
use umleitung.Membership.{
  unseen, keys_of_metas, rebuild_kind, rebuild_window, rebuild_watched_folder, record_removals,
}
use umleitung.Membership.Gone.{contains-unseen, unseen-contains}
use umleitung.Membership.Items.{
  On, Adds, Removes, batch, Triple-query, Triple-src, Triple-check_ctx, Triple-exec,
  Triple-record_additions, Triple-record_removals,
}
use umleitung.Membership.Batches.{
  Among, Keyed-batch, folders-batch, uid_at-Removes, uid_at-Adds, Adds-uid_at,
}
use umleitung.Membership.Removals.{Kept, Scanned}
use umleitung.Membership.Tracks.{
  FolderView, mark_of, IsSnapshot, SameOthers, SameOthers-batch, SameOthers-with_mark, with_mark,
}
use umleitung.Membership.Rebuild.Conditions.{
  Partial, Partial-Kept, Partial-Adds, Rebuilt, Rebuilt-Removes, Rebuilt-Scanned, Rebuilt-Kept,
  At-move,
}

module _ {E : Env} {f : Text} {v next : ℕ} {Has : ℕ → Text → Type 0} {content : ℕ → Text}
    {Selected : E.Src → Type 0} (V : FolderView E f v next Has content Selected) (before : Db)
    (o : Options) (stored : List Text) where
  abbrev At : ℕ → List Text → Db → Type 0
  At = Partial f v Has before stored

  module _ (kind : Text) (positive : 0 < batch_of o) (room : next + batch_of o ≤ u32) where
    abbrev Looking : ℕ → World E × List Text → Type 0
    Looking a s = On (At a s.1) Selected s.0

    abbrev Safe : World E × List Text → Type 0
    Safe s = Kept V before s.0.conn.db

    rebuild_window-Looking :
        (a : ℕ)
        → a < next
        → Triple
            (Looking a)
            (scan_window
              (inside check_ctx)
              (batch_of o)
              next
              (λ start stop. inside (on_src (E.src_fetch_meta_range start stop)))
              (rebuild_window E o f kind stored)
              a)
            (λ u. Looking (a + batch_of o))
            Safe
    unfolding scan_window rebuild_window
    rebuild_window-Looking a l =
        let stop = window_stop (batch_of o) a next in
        let e = stop_in_range (batch_of o) a next l positive room in
        Triple-bind _ _
          (Triple-inside check_ctx (λ seen.
            Triple-fails (λ w. Partial-Kept V before o stored a seen w.conn.db)
              (Triple-check_ctx E Selected (At a seen))))
          λ u.
            Triple-bind _ _
              (Triple-inside (on_src (E.src_fetch_meta_range a stop)) (λ seen.
                Triple-fails (λ w. Partial-Kept V before o stored a seen w.conn.db)
                  (Triple-src E Selected (At a seen) _ _ (V.fetch a stop))))
              λ ms. record {
                run = λ s h.
                    (Triple-bind _ _
                        (Triple-inside _ (λ seen.
                          Triple-record_additions E Selected (At a seen) o
                            (At (stop + 1) (keys_of_metas E o ms ++ seen)) (Kept V before) f
                            (rebuild_kind stored kind) ms
                            (λ items db adds.
                              (Partial-Adds V before o stored) a stop seen ms items db h.1.0.0
                                h.1.0.1 adds)
                            (Partial-Kept V before o stored a seen)))
                        (λ u.
                          Triple-assign _ _ _ (λ seen. keys_of_metas E o ms ++ seen)
                            (λ seen w c. (
                              (At-move V before o stored) (stop + 1) (a + batch_of o) _ w.conn.db
                                  (λ u p q. ground (arith, e, p, q)) c.0,
                              c.1,
                            )))).run
                      s (h.0, h.1.1);
              }

    rebuild_windows-Looking :
        Triple
          (λ s. (s.1 ≡ []) × On (At 1 []) Selected s.0)
          (scan_windows
            (inside check_ctx)
            o
            1
            next
            (λ start stop. inside (on_src (E.src_fetch_meta_range start stop)))
            (rebuild_window E o f kind stored))
          (λ u. Looking next)
          Safe
    rebuild_windows-Looking =
        Triple-first (λ s h. rw h.0 h.1)
          (Triple-scan_windows (inside check_ctx) o next _ _ Looking (Looking next) Safe room
            (λ a s c. Partial-Kept V before o stored a s.1 s.0.conn.db c.0)
            (λ a s l c.
              (At-move V before o stored a next s.1 s.0.conn.db (λ u p q. omega arith) c.0, c.1))
            rebuild_window-Looking 1)

    -- the removals and the mark
    finish-Scanned :
        (seen : List Text)
        → Triple
            (On (At next seen) Selected)
            (record_removals E o f kind (unseen seen stored)
              >> on_store (set_folder_state E.faults f v ((if ltb next 1 then 1 else next) - 1)))
            (λ u w. Scanned V before w.conn.db)
            (λ w. Kept V before w.conn.db)
    unfolding set_folder_state
    finish-Scanned seen =
        let stop = (if ltb next 1 then 1 else next) - 1 in
        let l : next ≤ stop + 1 = ground arith in
        Triple-bind {R = λ u. On (Rebuilt V before o stored) Selected} _ _
          (Triple-record_removals E Selected (At next seen) o (Rebuilt V before o stored)
            (Kept V before) f kind (unseen seen stored)
            (λ items db r c. Rebuilt-Removes V before o stored next seen items db (omega arith) r c)
            (Partial-Kept V before o stored next seen))
          λ u.
            Triple-gives (λ a w h. h.0)
              (Triple-exec E Selected (Rebuilt V before o stored) (Scanned V before) (Kept V before)
                (with_mark f v stop) (λ db. Rebuilt-Scanned V before o stored stop db l)
                (Rebuilt-Kept V before o stored))

module _ {E : Env} {f : Text} {v next : ℕ} {Has : ℕ → Text → Type 0} {content : ℕ → Text}
    {Selected : E.Src → Type 0} (V : FolderView E f v next Has content Selected) (before : Db)
    (o : Options) (kind : Text) (positive : 0 < batch_of o) (room : next + batch_of o ≤ u32) where
  -- the database before a scan of a folder with a new UIDVALIDITY
  abbrev pub Stale : Db → Type 0
  Stale db = Kept V before db × (¬ ((mark_of f db).0 ≡ v))

  first_At :
      (stored : List Text) (db : Db)
      → stored ≡ keys_of f db.members
      → Stale db
      → Partial f v Has before stored 1 [] db
  first_At stored db e d = record {
    keyed = d.0.0.keyed;
    others = d.0.1;
    stale = d.1;
    rows = λ u k h. inr (rw e (contains-keys_of f k u db.members h), refl);
    upto = λ u k h l. absurd (let r = V.in_range u k h in omega arith);
  }

  -- The folder is scanned anew, or what is stored stays true.
  pub rebuild-Scanned :
      Triple
        (On Stale Selected)
        (rebuild_watched_folder E o f kind v next)
        (λ u w. Scanned V before w.conn.db)
        (λ w. Kept V before w.conn.db)
  unfolding rebuild_watched_folder member_keys
  rebuild-Scanned =
      Triple-bind {R = λ stored w. (stored ≡ keys_of f w.conn.db.members) × On Stale Selected w} _ _
        (Triple-fails (λ w h. h.0) (Triple-query E Selected Stale (λ db. keys_of f db.members)))
        λ stored.
          Triple-bind {R = λ seen. On (Partial f v Has before stored next seen) Selected} _ _
            (Triple-first {P = On (Partial f v Has before stored 1 []) Selected}
              (λ w h. (first_At stored w.conn.db h.0 h.1.0, h.1.1))
              (Triple-with_local [] _
                (rebuild_windows-Looking V before o stored kind positive room)))
            (finish-Scanned V before o stored kind positive room)
