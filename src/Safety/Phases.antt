-- ===== src/Safety/Phases.antt =====
-- The scans of memberships, the backfill and the queue of operations keep the invariant.
use umleitung.Base.{ℕ, not, List, [], ◌∷◌, ◌==◌ as nat_eq}
use umleitung.Base.Text.{Text}
use umleitung.Base.Exec.{Exec}
use umleitung.Base.Keeps.{Keeps, Keeps-bind, Keeps-then, Keeps-each, Keeps-if, Keeps-pure}
use umleitung.Key.{MsgMeta, FullMessage}
use umleitung.State.Tables.{KeyRecord}
use umleitung.State.Store.{Conn}
use umleitung.Env.{
  Env, FolderStatus, Options, Summary, World, on_store, on_src, on_dst, check_ctx, count,
}
use umleitung.Membership.{
  Watched, gate_pending, added_items, record_additions, removed_items, record_removals,
  rebuild_window, rebuild_watched_folder, watch_window, update_watched_folder, list_labels,
  scan_watched_folder, sync_watched_folder, sync_membership,
}
use umleitung.Safety.{DestLaws}
use umleitung.Safety.Table.{
  SameCopied, Keeps-has_key, Keeps-member_change_batch, Keeps-member_keys, Keeps-member_uid_keys,
  Keeps-folder_state, Keeps-set_folder_state,
}
use umleitung.Safety.Frame.{
  Sound, Sound-on_store, Sound-on_dst, Sound-on_src, Sound-count, Sound-check_ctx,
  Keeps-scan_windows, Outer, Keeps-inside, Keeps-assign, Keeps-with_local,
}

-- nothing is asked of the source
abbrev pub Any : (E : Env) → E.Src → Type 0
Any E s = Unit {0}

module _ (E : Env) (o : Options) (H : Text → E.Dst → Type 0) (content : FullMessage → Text)
    (key_of : E.Ticket → Text) (D : DestLaws E H content key_of) where
  abbrev I : World E → Type 0
  I = Sound H (Any E)

  pub store :
      {A : Type 0} (m : Exec Conn A)
      → ((rows : List KeyRecord) → Keeps (SameCopied rows) m)
      → Keeps I (on_store m)
  store = Sound-on_store E H (Any E)

  src : {A : Type 0} (m : Exec E.Src A) → Keeps I (on_src m)
  src m = Sound-on_src E H (Any E) m (λ s h. tt)

  pub dst :
      {A : Type 0} (m : Exec E.Dst A)
      → ((k : Text) (s : E.Dst) → H k s → H k (m s).1)
      → Keeps I (on_dst m)
  dst = Sound-on_dst E H (Any E)

  pub poll : Keeps I (check_ctx {E = E})
  poll = Sound-check_ctx E H (Any E)

  pub cnt : (f : Summary → Summary) → Keeps I (count {E = E} f)
  cnt = Sound-count E H (Any E)

  gate_pending-Sound : (key kind : Text) → Keeps I (gate_pending E o key kind)
  unfolding gate_pending
  gate_pending-Sound key kind =
      Keeps-if _ _ _ (Keeps-pure _)
        (Keeps-bind _ _ (store _ (λ rows. Keeps-has_key E.faults rows key)) (λ c. Keeps-pure _))

  added_items-Sound :
      (kind_for : Text → Text) (ms : List MsgMeta) → Keeps I (added_items E o kind_for ms)
  unfolding added_items
  added_items-Sound kind_for [] = Keeps-pure _
  added_items-Sound kind_for (m ∷ ms) =
      Keeps-bind _ _ (gate_pending-Sound _ _)
        (λ k. Keeps-bind _ _ (added_items-Sound kind_for ms) (λ r. Keeps-pure _))

  removed_items-Sound : (kind : Text) (ks : List Text) → Keeps I (removed_items E o kind ks)
  unfolding removed_items
  removed_items-Sound kind [] = Keeps-pure _
  removed_items-Sound kind (k ∷ ks) = Keeps-then _ _ poll (
      Keeps-bind _ _ (gate_pending-Sound _ _)
        (λ g. Keeps-bind _ _ (removed_items-Sound kind ks) (λ r. Keeps-pure _)))

  record_additions-Sound :
      (f : Text) (kind_for : Text → Text) (ms : List MsgMeta)
      → Keeps I (record_additions E o f kind_for ms)
  unfolding record_additions
  record_additions-Sound f kind_for ms =
      Keeps-bind _ _ (added_items-Sound kind_for ms)
        (λ items. store _ (λ rows. Keeps-member_change_batch E.faults rows f items))

  record_removals-Sound : (f kind : Text) (ks : List Text) → Keeps I (record_removals E o f kind ks)
  unfolding record_removals
  record_removals-Sound f kind ks =
      Keeps-bind _ _ (removed_items-Sound kind ks)
        (λ items. store _ (λ rows. Keeps-member_change_batch E.faults rows f items))

  rebuild_watched_folder-Sound :
      (f kind : Text) (v u : ℕ) → Keeps I (rebuild_watched_folder E o f kind v u)
  unfolding rebuild_watched_folder rebuild_window
  rebuild_watched_folder-Sound f kind v u =
      Keeps-bind _ _ (store _ (λ rows. Keeps-member_keys E.faults rows f)) λ stored.
        Keeps-bind _ _
          (Keeps-with_local I _ _ (
            Keeps-scan_windows (Outer I) _ o 1 u _ _ (Keeps-inside I _ poll)
              (λ a b. Keeps-inside I _ (src _))
              (λ stop ms.
                Keeps-then _ _ (Keeps-inside I _ (record_additions-Sound f _ ms))
                  (Keeps-assign I _))))
          λ seen.
            Keeps-then _ _ (record_removals-Sound f kind _)
              (store _ (λ rows. Keeps-set_folder_state E.faults rows f v _))

  watch_window-Sound :
      (f kind : Text) (v stop : ℕ) (ms : List MsgMeta) → Keeps I (watch_window E o f kind v stop ms)
  unfolding watch_window
  watch_window-Sound f kind v stop ms =
      Keeps-then _ _ (record_additions-Sound f _ ms)
        (store _ (λ rows. Keeps-set_folder_state E.faults rows f v stop))

  update_watched_folder-Sound :
      (f : Watched) (v u last : ℕ) → Keeps I (update_watched_folder E o f v u last)
  unfolding update_watched_folder
  update_watched_folder-Sound f v u last = Keeps-bind _ _ (src _) λ current.
      Keeps-bind _ _ (store _ (λ rows. Keeps-member_uid_keys E.faults rows f.name)) λ rows.
        Keeps-then _ _ (record_removals-Sound f.name f.kind _) (
          Keeps-scan_windows I _ o _ u _ _ poll (λ a b. src _) (watch_window-Sound f.name f.kind v))

  scan_watched_folder-Sound :
      (f : Watched) (st : FolderStatus) (stored : ℕ × ℕ)
      → Keeps I (scan_watched_folder E o f st stored)
  scan_watched_folder-Sound f st (validity, last) =
      Keeps-if (not (nat_eq validity st.uid_validity)) _ _
        (rebuild_watched_folder-Sound f.name f.kind st.uid_validity st.uid_next)
        (update_watched_folder-Sound f st.uid_validity st.uid_next last)

  sync_watched_folder-Sound : (f : Watched) → Keeps I (sync_watched_folder E o f)
  unfolding sync_watched_folder
  sync_watched_folder-Sound f = Keeps-bind _ _ (src _) λ st.
      Keeps-bind _ _ (store _ (λ rows. Keeps-folder_state E.faults rows f.name))
        (scan_watched_folder-Sound f st)

  list_labels-Sound : Keeps I (list_labels E o)
  list_labels-Sound =
      Keeps-if o.sync_labels _ _ (Keeps-bind _ _ (src E.src_list_folders) (λ fs. Keeps-pure _))
        (Keeps-pure _)

  pub sync_membership-Sound : Keeps I (sync_membership E o)
  unfolding sync_membership
  sync_membership-Sound =
      Keeps-bind (list_labels E o) _ list_labels-Sound
        (λ labels. Keeps-each _ _ sync_watched_folder-Sound)
