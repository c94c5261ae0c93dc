-- ===== src/Backfill.antt =====
-- internal/reconcile/membership.go: the correction of mail that was mirrored under other settings.
pub mod Frame
pub mod Mark
pub mod Groups
pub mod Misplaced
pub mod Moves
pub mod Folder
pub mod Placed
use umleitung.Base.{
  ℕ, zero, suc, ◌+◌, Bool, ◌||◌, List, [], ◌∷◌, ◌++◌, map, length, take, drop, ◌==◌ as nat_eq,
  if◌then◌else◌,
}
use umleitung.Base.Text.{Text, codes, ◌==◌, contains, to_lower, join}
use umleitung.Base.Exec.{Exec, pure, each, ◌>>=◌, ◌>>◌}
use umleitung.Key.{MsgMeta, dedup_key}
use umleitung.State.Tables.{insert_text}
use umleitung.State.Store.{meta_get, meta_set}
use umleitung.Env.{
  Env, Options, World, on_store, on_dst, count, check_ctx, inside, assign, with_local,
}
use umleitung.Labels.{label_keywords}
use umleitung.Routing.{labels_for, dest_folder_for, dest_bucket_folders, count_move}
use umleitung.Windows.{scan_windows}

-- `%t`
abbrev pub show_bool : Bool → Text
show_bool b = if b then codes "true" else codes "false"

unfoldable pub backfill_fingerprint : Options → Text
backfill_fingerprint o =
    join
      ((codes "routing=" ++ show_bool o.archive_routing)
        ∷ (codes "inbox=" ++ o.source_inbox)
        ∷ (codes "dest=" ++ o.dest_folder)
        ∷ (codes "archive=" ++ o.archive_folder)
        ∷ (codes "sent=" ++ show_bool o.sent_routing)
        ∷ (codes "sentsrc=" ++ o.sent_src_folder)
        ∷ (codes "sentdst=" ++ o.sent_folder)
        ∷ (codes "labels=" ++ show_bool o.sync_labels)
        ∷ (codes "kwprefix=" ++ o.keyword_prefix)
        ∷ (codes "kwrepl=" ++ o.keyword_replacement)
        ∷ [])
      (codes ";")

-- the keywords that are not among the (lowered) flags
unfoldable pub absent : List Text → List Text → List Text
absent present [] = []
absent present (kw ∷ kws) =
    let rest = absent present kws in if contains present (to_lower kw) then rest else kw ∷ rest

unfoldable pub missing_keywords : Options → List Text → List Text → List Text
missing_keywords o labels flags = absent (map to_lower flags) (label_keywords o labels)

-- A map from texts to lists of UIDs, in the order in which its keys were first used. Go visits the
-- keys of a map in any order.
abbrev pub Groups : Type 0
Groups = List (Text × List ℕ)

-- `m[k] = append(m[k], u)`
unfoldable pub add_uid : Text → ℕ → Groups → Groups
add_uid k u [] = (k, u ∷ []) ∷ []
add_uid k u ((j, us) ∷ groups) =
    if j == k then (j, us ++ u ∷ []) ∷ groups else (j, us) ∷ add_uid k u groups

-- `flagSig`: the sorted keywords, joined
unfoldable pub sort_texts : List Text → List Text
sort_texts [] = []
sort_texts (x ∷ xs) = insert_text x (sort_texts xs)

unfoldable pub flag_sig : List Text → Text
flag_sig flags = join (sort_texts flags) (0 ∷ [])

-- `kwGroups` and `kwFlags`: messages that miss the same keywords, with the keywords of the last
pub record KeywordGroup : Type 0 where
  pub sig : Text
  pub kws : List Text
  pub uids : List ℕ

unfoldable pub add_keywords : Text → List Text → ℕ → List KeywordGroup → List KeywordGroup
add_keywords sig kws u [] = record { sig = sig; kws = kws; uids = u ∷ [] } ∷ []
add_keywords sig kws u (g ∷ gs) =
    if g.sig == sig
    then record g { kws = kws; uids = g.uids ++ u ∷ [] } ∷ gs
    else g ∷ add_keywords sig kws u gs

-- `wrongByDest`, `kwGroups` and `kwFlags`
pub record Found : Type 0 where
  pub wrong : Groups
  pub keywords : List KeywordGroup

abbrev pub move_chunk : ℕ
move_chunk = 500

-- `slices.Chunk(uids, n)`, in at most so many chunks
unfoldable pub chunks : ℕ → ℕ → List ℕ → List (List ℕ)
chunks zero n us = []
chunks (suc fuel) n us =
    let rest = take n us ∷ chunks fuel n (drop n us) in elim us [ [] ↦ [] | v ∷ vs ↦ rest ]

abbrev pub chunked : List ℕ → List (List ℕ)
chunked us = chunks (length us) move_chunk us

abbrev pub fingerprint_key : Text
fingerprint_key = codes "backfill_fingerprint"

module _ (E : Env) (o : Options) where
  -- a message in a wrong folder is noted
  unfoldable pub check_place : Text → MsgMeta → Exec (World E × Found) (Unit {0})
  check_place folder m =
      if o.archive_routing || o.sent_routing
      then (do
        want ← inside (dest_folder_for E o (dedup_key E.hex_sha256 m))
        if want == folder
            then pure tt
            else assign (λ f. record f { wrong = add_uid want m.uid f.wrong }))
      else pure tt

  abbrev pub note_missing : ℕ → List Text → Found → Found
  note_missing u [] f = f
  note_missing u (kw ∷ kws) f = record f {
    keywords = add_keywords (flag_sig (kw ∷ kws)) (kw ∷ kws) u f.keywords;
  }

  -- a message that misses keywords is noted
  unfoldable pub check_keywords : MsgMeta → Exec (World E × Found) (Unit {0})
  check_keywords m =
      if o.sync_labels
      then (do
        labels ← inside (labels_for E o (dedup_key E.hex_sha256 m))
        assign (note_missing m.uid (missing_keywords o labels m.flags)))
      else pure tt

  unfoldable pub check_metas : Text → ℕ → List MsgMeta → Exec (World E × Found) (Unit {0})
  check_metas folder stop metas = each metas (λ m. check_place folder m >> check_keywords m)

  unfoldable pub store_group : KeywordGroup → Exec (World E) (Unit {0})
  store_group g = do
    each (chunked g.uids) (λ chunk. on_dst (E.dst_store_keywords_uids chunk g.kws))
    count (λ sum. record sum { keywords_updated = sum.keywords_updated + length g.uids })

  unfoldable pub move_group : Text → Text × List ℕ → Exec (World E) (Unit {0})
  move_group folder (want, uids) = do
    each (chunked uids) (λ chunk. check_ctx >> on_dst (E.dst_move_uids folder chunk want))
    count (count_move o want (length uids))

  unfoldable pub backfill_dest_folder : Text → Exec (World E) (Unit {0})
  backfill_dest_folder folder = do
    st ← on_dst (E.dst_select_named_folder folder)
    if nat_eq st.num_messages 0 then pure tt else do
      found ←
          with_local (record { wrong = []; keywords = [] })
            (scan_windows (inside check_ctx) o 1 st.uid_next
              (λ start stop. inside (on_dst (E.dst_fetch_meta_range start stop)))
              (check_metas folder))
      each found.keywords store_group
      each found.wrong (move_group folder)

  abbrev pub backfill_all : Exec (World E) (Unit {0})
  backfill_all =
      if o.archive_routing || (o.sent_routing || o.sync_labels)
      then each (dest_bucket_folders o) backfill_dest_folder
      else pure tt

  unfoldable pub maybe_backfill : Exec (World E) (Unit {0})
  maybe_backfill = do
    let fp = backfill_fingerprint o
    stored ← on_store (meta_get E.faults fingerprint_key)
    if stored == fp
        then pure tt
        else do backfill_all; on_store (meta_set E.faults fingerprint_key fp)
