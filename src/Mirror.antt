-- ===== src/Mirror.antt =====
-- internal/reconcile/reconcile.go: one window of candidates (`mirrorWindow`, `guard`).
pub mod Pipeline
pub mod Channel
pub mod Bounds
pub mod Dedup
pub mod Rest
pub mod Repeat
pub mod Guarded
use umleitung.Base.{
  ℕ, ◌+◌, Bool, true, false, ◌&&◌, ◌||◌, Option, none, some, List, [], ◌∷◌, ◌++◌, if◌then◌else◌,
}
use umleitung.Base.Text.{Text, contains}
use umleitung.Base.Exec.{Exec, pure, gets, ◌>>=◌, ◌>>◌}
use umleitung.Key.{MsgMeta, dedup_key, is_real_message_id}
use umleitung.State.Tables.{KeyRecord}
use umleitung.State.Store.{has_key, record_keys}
use umleitung.Env.{Env, Options, World, on_store, on_dst, count, check_ctx}
use umleitung.Routing.{dest_folder_for, dest_bucket_folders}
use umleitung.Mirror.Pipeline.{PendingCopy, copy_pipeline}

abbrev pub skip_one : {E : Env} → Exec (World E) (Unit {0})
skip_one = count (λ sum. record sum { skipped_dup = sum.skipped_dup + 1 })

-- the keys that a window waits for (`pendKeys`), after one more candidate
abbrev pub keys_with : Option PendingCopy → List Text → List Text
keys_with none keys = keys
keys_with (some c) keys = c.key ∷ keys

abbrev pub prepend : Option PendingCopy → List PendingCopy → List PendingCopy
prepend none pend = pend
prepend (some c) pend = c ∷ pend

-- the Message-IDs to search for
unfoldable pub real_ids : List PendingCopy → List Text
real_ids [] = []
real_ids (p ∷ pend) =
    let rest = real_ids pend in if is_real_message_id p.key then p.key ∷ rest else rest

unfoldable pub kept_of : List Text → List PendingCopy → List PendingCopy
kept_of found [] = []
kept_of found (p ∷ pend) =
    let rest = kept_of found pend in if contains found p.key then rest else p ∷ rest

unfoldable pub found_of : List Text → List PendingCopy → List PendingCopy
found_of found [] = []
found_of found (p ∷ pend) =
    let rest = found_of found pend in if contains found p.key then p ∷ rest else rest

abbrev pub record_of : ℕ → PendingCopy → KeyRecord
record_of now p = record { key = p.key; uid = p.uid; copied_at = now }

module _ (E : Env) (o : Options) where
  -- one round of the loop over the candidates
  unfoldable pub classify_one : List Text → MsgMeta → Exec (World E) (Option PendingCopy)
  classify_one keys m = do
    check_ctx
    let key = dedup_key E.hex_sha256 m
    seen ← on_store (has_key E.faults key)
    if seen || contains keys key then skip_one >> pure none else do
      dest_folder ← dest_folder_for E o key
      pure (some (record { uid = m.uid; key = key; dest_folder = dest_folder }))

  unfoldable pub classify : List Text → List MsgMeta → Exec (World E) (List PendingCopy)
  classify keys [] = pure []
  classify keys (m ∷ metas) = do
    c ← classify_one keys m
    pend ← classify (keys_with c keys) metas
    pure (prepend c pend)

  -- the search in each bucket, joined
  unfoldable pub search_folders : List Text → List Text → Exec (World E) (List Text)
  search_folders ids [] = pure []
  search_folders ids (folder ∷ folders) = do
    f ← on_dst (E.dst_search_message_ids_in folder ids)
    found ← search_folders ids folders
    pure (f ++ found)

  -- the loop over the candidates that were found: count, and collect a record
  unfoldable pub record_found : List PendingCopy → Exec (World E) (List KeyRecord)
  record_found [] = pure []
  record_found (p ∷ ps) = do
    skip_one
    now ← gets (λ w. E.now w.polls)
    records ← record_found ps
    pure (record_of now p ∷ records)

  abbrev pub drop_found : List PendingCopy → List Text → Exec (World E) (List PendingCopy)
  drop_found pend found = do
    records ← record_found (found_of found pend)
    on_store (record_keys E.faults records)
    pure (kept_of found pend)

  unfoldable pub guard : List PendingCopy → Exec (World E) (List PendingCopy)
  guard pend = elim (real_ids pend) [
    | [] ↦ pure pend
    | id ∷ ids ↦ do found ← search_folders (id ∷ ids) (dest_bucket_folders o); drop_found pend found
  ]

  abbrev pub guard_if : List PendingCopy → Exec (World E) (List PendingCopy)
  guard_if [] = pure []
  guard_if (p ∷ pend) = if o.dest_guard then guard (p ∷ pend) else pure (p ∷ pend)

  abbrev pub copy_if : List PendingCopy → Exec (World E) (Unit {0})
  copy_if [] = pure tt
  copy_if (p ∷ pend) = copy_pipeline E o (p ∷ pend)

  unfoldable pub mirror_window : List MsgMeta → Exec (World E) (Unit {0})
  mirror_window metas = do pend ← classify [] metas; kept ← guard_if pend; copy_if kept
