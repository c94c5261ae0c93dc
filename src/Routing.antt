-- ===== src/Routing.antt =====
-- internal/reconcile/membership.go: which destination folder a message belongs to, and its labels.
pub mod Laws
pub mod Reads
use umleitung.Base.{ℕ, ◌+◌, Bool, ◌&&◌, ◌||◌, List, [], ◌∷◌, ◌++◌, if◌then◌else◌}
use umleitung.Base.Text.{Text, ◌==◌}
use umleitung.Base.Exec.{Exec, pure, ◌>>=◌}
use umleitung.State.Store.{member_has, member_folders}
use umleitung.Env.{Env, Options, Summary, World, on_store}

unfoldable pub is_routing_folder : Options → Text → Bool
is_routing_folder o folder =
    folder == o.source_inbox || (o.sent_routing && folder == o.sent_src_folder)

-- `slices.DeleteFunc(folders, r.isRoutingFolder)`
unfoldable pub without_routing : Options → List Text → List Text
without_routing o [] = []
without_routing o (f ∷ fs) =
    let rest = without_routing o fs in if is_routing_folder o f then rest else f ∷ rest

unfoldable pub dest_bucket_folders : Options → List Text
dest_bucket_folders o =
    (o.dest_folder ∷ [])
    ++ ((if o.sent_routing then o.sent_folder ∷ [] else [])
        ++ (if o.archive_routing then o.archive_folder ∷ [] else []))

unfoldable pub count_move : Options → Text → ℕ → Summary → Summary
count_move o desired n sum =
    if desired == o.archive_folder
    then record sum { moved_to_archive = sum.moved_to_archive + n }
    else if desired == o.sent_folder
    then record sum { moved_to_sent = sum.moved_to_sent + n }
    else record sum { moved_to_inbox = sum.moved_to_inbox + n }

module _ (E : Env) (o : Options) where
  unfoldable pub labels_for : Text → Exec (World E) (List Text)
  labels_for key = do
    folders ← on_store (member_folders E.faults key)
    pure (without_routing o folders)

  -- the part of `destFolderFor` behind the look at the inbox, and behind that at the sent folder
  abbrev pub not_in_sent : Text
  not_in_sent = if o.archive_routing then o.archive_folder else o.dest_folder

  unfoldable pub not_in_inbox : Text → Exec (World E) Text
  not_in_inbox key =
      if o.sent_routing
      then (do
        in_sent ← on_store (member_has E.faults o.sent_src_folder key)
        pure (if in_sent then o.sent_folder else not_in_sent))
      else pure not_in_sent

  unfoldable pub dest_folder_for : Text → Exec (World E) Text
  dest_folder_for key =
      if o.archive_routing || o.sent_routing
      then (do
        in_inbox ← on_store (member_has E.faults o.source_inbox key)
        if in_inbox then pure o.dest_folder else not_in_inbox key)
      else not_in_inbox key
