-- ===== src/Routing/Laws.antt =====
-- Where a message belongs, for each combination of settings and memberships.
use umleitung.Base.{ℕ, ◌+◌, ◌≡◌, Bool, true, false, ◌&&◌, ◌||◌, if◌then◌else◌, arith}
use umleitung.Base.Text.{Text, eq_refl, contains}
use umleitung.Base.Exec.{ok}
use umleitung.State.Tables.{is_member}
use umleitung.State.Store.{member_has}
use umleitung.Env.{Env, Options, World}
use umleitung.Routing.{dest_folder_for, not_in_inbox, dest_bucket_folders}

-- The rule: the inbox wins, then the sent folder, then the archive, as far as each is routed.
unfoldable pub home : Options → Bool → Bool → Text
home o in_inbox in_sent =
    if (o.archive_routing || o.sent_routing) && in_inbox
    then o.dest_folder
    else if o.sent_routing && in_sent
    then o.sent_folder
    else if o.archive_routing
    then o.archive_folder
    else o.dest_folder

-- While the database answers, a message's folder follows the rule of `home`, from what the tables
-- hold of the source's inbox and sent folder.
pub dest_folder_for-home :
    (E : Env) (o : Options) (k : Text) (w : World E)
    → ((n : ℕ) → E.faults n ≡ false)
    → (dest_folder_for E o k w).0
      ≡ ok (
          home o
            (is_member o.source_inbox k w.conn.db.members)
            (is_member o.sent_src_folder k w.conn.db.members))
unfolding dest_folder_for not_in_inbox member_has home
dest_folder_for-home E o k w quiet =
    let q0 = quiet w.conn.calls in let q1 = quiet (w.conn.calls + 1) in ground (arith, q0, q1)

-- Whatever the tables hold, a folder that is returned is one that the destination's scans, searches and seedings
-- cover.
pub dest_folder_for-IsBucket :
    (E : Env) (o : Options) (k f : Text) (w : World E)
    → (dest_folder_for E o k w).0 ≡ ok f
    → contains (dest_bucket_folders o) f ≡ true
unfolding dest_folder_for not_in_inbox member_has dest_bucket_folders
dest_folder_for-IsBucket E o k f w e =
    ground (arith, eq_refl o.dest_folder, eq_refl o.sent_folder, eq_refl o.archive_folder)
