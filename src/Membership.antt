-- ===== src/Membership.antt =====
-- internal/reconcile/membership.go: the scans of the watched source folders.
pub mod Gone
pub mod Items
pub mod Batches
pub mod Tracks
pub mod Removals
pub mod Update
pub mod Rebuild
pub mod Snapshot
pub mod Whole
pub mod Routed
use umleitung.Base.{
  ℕ, ◌+◌, ◌-◌, ◌%◌, Bool, true, false, not, ◌||◌, List, [], ◌∷◌, ◌++◌, ltb, ◌==◌ as nat_eq,
  if◌then◌else◌,
}
use umleitung.Base.Text.{Text, codes, ◌==◌, contains}
use umleitung.Base.Exec.{Exec, pure, each, ◌>>=◌, ◌>>◌}
use umleitung.Key.{MsgMeta, FolderInfo, dedup_key, is_real_message_id}
use umleitung.State.Tables.{MemberChangeItem}
use umleitung.State.Store.{
  has_key, member_change_batch, member_keys, member_uid_keys, folder_state, set_folder_state,
}
use umleitung.Env.{
  Env, FolderStatus, Options, World, on_store, on_src, check_ctx, inside, assign, with_local,
}
use umleitung.Labels.{is_label_folder}
use umleitung.Routing.{is_routing_folder}
use umleitung.Windows.{u32, scan_windows}
use umleitung.Propagate.{pending_move, pending_keyword}

-- a watched folder with the kind of its pending operations
pub record Watched : Type 0 where
  pub name : Text
  pub kind : Text

-- the kind of the operation for a key in a rebuild (`kindFor`)
unfoldable pub rebuild_kind : List Text → Text → Text → Text
rebuild_kind [] kind key = codes ""
rebuild_kind (k ∷ ks) kind key = if contains (k ∷ ks) key then codes "" else kind

-- stored keys that a full scan has not seen
unfoldable pub unseen : List Text → List Text → List Text
unseen seen [] = []
unseen seen (k ∷ ks) = let rest = unseen seen ks in if contains seen k then rest else k ∷ rest

unfoldable pub has_uid : List ℕ → ℕ → Bool
has_uid [] u = false
has_uid (v ∷ vs) u = nat_eq v u || has_uid vs u

-- `MemberUIDKeys` is a map: a later row of the same UID replaces an earlier one.
unfoldable pub shadowed : ℕ → List (ℕ × Text) → Bool
shadowed u [] = false
shadowed u ((v, k) ∷ rows) = nat_eq v u || shadowed u rows

-- stored keys whose UID is no longer in the folder
unfoldable pub gone_keys : List ℕ → List (ℕ × Text) → List Text
gone_keys current [] = []
gone_keys current ((u, k) ∷ rows) =
    let rest = gone_keys current rows in
    if shadowed u rows || has_uid current u then rest else k ∷ rest

module _ (E : Env) (o : Options) where
  unfoldable pub gate_pending : Text → Text → Exec (World E) Text
  gate_pending key kind =
      if kind == codes "" || not (is_real_message_id key)
      then pure (codes "")
      else do copied ← on_store (has_key E.faults key); pure (if copied then kind else codes "")

  -- the items of `recordAdditions`; `kind_for` gives the kind of each key
  unfoldable pub added_items : (Text → Text) → List MsgMeta → Exec (World E) (List MemberChangeItem)
  added_items kind_for [] = pure []
  added_items kind_for (m ∷ metas) = do
    let key = dedup_key E.hex_sha256 m
    kind ← gate_pending key (kind_for key)
    items ← added_items kind_for metas
    pure (record { key = key; uid = m.uid; add = true; pending_kind = kind } ∷ items)

  unfoldable pub record_additions : Text → (Text → Text) → List MsgMeta → Exec (World E) (Unit {0})
  record_additions folder kind_for metas = do
    items ← added_items kind_for metas
    on_store (member_change_batch E.faults folder items)

  unfoldable pub removed_items : Text → List Text → Exec (World E) (List MemberChangeItem)
  removed_items kind [] = pure []
  removed_items kind (key ∷ keys) = do
    check_ctx
    k ← gate_pending key kind
    items ← removed_items kind keys
    pure (record { key = key; uid = 0; add = false; pending_kind = k } ∷ items)

  unfoldable pub record_removals : Text → Text → List Text → Exec (World E) (Unit {0})
  record_removals folder kind keys = do
    items ← removed_items kind keys
    on_store (member_change_batch E.faults folder items)

  -- the keys that one look at the whole folder gives, window by window (`seen`)
  abbrev pub keys_of_metas : List MsgMeta → List Text
  keys_of_metas [] = []
  keys_of_metas (m ∷ metas) = dedup_key E.hex_sha256 m ∷ keys_of_metas metas

  -- one window of a rebuild, with the keys seen so far
  unfoldable pub rebuild_window :
      Text → Text → List Text → ℕ → List MsgMeta → Exec (World E × List Text) (Unit {0})
  rebuild_window folder kind stored stop metas = do
    inside (record_additions folder (rebuild_kind stored kind) metas)
    assign (λ seen. keys_of_metas metas ++ seen)

  unfoldable pub rebuild_watched_folder : Text → Text → ℕ → ℕ → Exec (World E) (Unit {0})
  rebuild_watched_folder folder kind validity uid_next = do
    stored ← on_store (member_keys E.faults folder)
    seen ← with_local [] (
        scan_windows (inside check_ctx) o 1 uid_next
          (λ start stop. inside (on_src (E.src_fetch_meta_range start stop)))
          (rebuild_window folder kind stored))
    record_removals folder kind (unseen seen stored)
    on_store
        (set_folder_state E.faults folder validity ((if ltb uid_next 1 then 1 else uid_next) - 1))

  -- one window of additions
  unfoldable pub watch_window : Text → Text → ℕ → ℕ → List MsgMeta → Exec (World E) (Unit {0})
  watch_window folder kind validity stop metas = do
    record_additions folder (λ _. kind) metas
    on_store (set_folder_state E.faults folder validity stop)

  -- the removals, then the additions above the high-water mark
  unfoldable pub update_watched_folder : Watched → ℕ → ℕ → ℕ → Exec (World E) (Unit {0})
  update_watched_folder f validity uid_next last = do
    current ← on_src E.src_search_all_uids
    rows ← on_store (member_uid_keys E.faults f.name)
    record_removals f.name f.kind (gone_keys current rows)
    scan_windows check_ctx o ((last + 1) % u32) uid_next
        (λ start stop. on_src (E.src_fetch_meta_range start stop))
        (watch_window f.name f.kind validity)

  abbrev pub scan_watched_folder : Watched → FolderStatus → ℕ × ℕ → Exec (World E) (Unit {0})
  scan_watched_folder f st (validity, last) =
      if not (nat_eq validity st.uid_validity)
      then rebuild_watched_folder f.name f.kind st.uid_validity st.uid_next
      else update_watched_folder f st.uid_validity st.uid_next last

  unfoldable pub sync_watched_folder : Watched → Exec (World E) (Unit {0})
  sync_watched_folder f = do
    st ← on_src (E.src_select_named_folder f.name)
    stored ← on_store (folder_state E.faults f.name)
    scan_watched_folder f st stored

  abbrev pub label_kind : Text
  label_kind = if o.label_propagate then pending_keyword else codes ""

  unfoldable pub label_folders : List FolderInfo → List Watched
  label_folders [] = []
  label_folders (f ∷ fs) =
      let rest = label_folders fs in
      if is_routing_folder o f.name
        || not (is_label_folder E.names f o.source_folder o.label_exclude)
      then rest
      else record { name = f.name; kind = label_kind } ∷ rest

  -- the folders that decide the place of a message
  unfoldable pub routing_folders : List Watched
  routing_folders =
      (if o.archive_routing || o.sent_routing
        then record { name = o.source_inbox; kind = pending_move } ∷ []
        else [])
      ++ (if o.sent_routing
          then record { name = o.sent_src_folder; kind = pending_move } ∷ []
          else [])

  abbrev pub list_labels : Exec (World E) (List Watched)
  list_labels =
      if o.sync_labels
      then (do folders ← on_src E.src_list_folders; pure (label_folders folders))
      else pure []

  unfoldable pub sync_membership : Exec (World E) (Unit {0})
  sync_membership = do labels ← list_labels; each (labels ++ routing_folders) sync_watched_folder
