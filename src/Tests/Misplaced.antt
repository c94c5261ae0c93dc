-- ===== src/Tests/Misplaced.antt =====
-- A destination folder with one message that stands right and one that was archived since.
use umleitung.Base.{ℕ, ◌≡◌, Bool, ◌&&◌, leb, ◌==◌ as nat_eq, true, false, List, [], ◌∷◌, refl}
use umleitung.Base.Text.{Text, codes, contains, trim_space, ◌==◌}
use umleitung.Base.Exec.{ok, pure}
use umleitung.Key.{MsgMeta, dedup_key}
use umleitung.State.Tables.{is_member}
use umleitung.Env.{Env, Options, World}
use umleitung.Routing.Laws.{home}
use umleitung.Backfill.{Found, check_metas}
use umleitung.Backfill.Groups.{in_group}
use umleitung.Membership.Batches.{Among}
use umleitung.Backfill.Misplaced.{misplaced, check_metas-misplaced}
use umleitung.Tests.Folders.{message}
use umleitung.Tests.Toy.{hex, keep, toy, options, start}

abbrev metas : List MsgMeta
metas = message 1 (codes "in@x") ∷ message 2 (codes "out@x") ∷ []

abbrev routing : Options
routing = record options { archive_routing = true }

-- the message with the UID 1 is in the inbox
abbrev looked_at : World toy
looked_at = record start {
  conn = record start.conn {
    db = record start.conn.db {
      members = record { folder = options.source_inbox; key = codes "in@x"; uid = 7 } ∷ [];
    };
  };
}

abbrev nothing : Found
nothing = record { wrong = []; keywords = [] }

check_metas-misplaced_example :
    ((check_metas toy routing options.dest_folder 2 metas (looked_at, nothing)).0 ≡ ok tt)
    × (in_group options.archive_folder 2
          (check_metas toy routing options.dest_folder 2 metas (looked_at, nothing)).1.1.wrong
        ≡ misplaced toy routing looked_at.conn.db options.dest_folder options.archive_folder 2
            metas)
check_metas-misplaced_example =
    check_metas-misplaced toy routing options.dest_folder options.archive_folder 2 2 metas looked_at
      nothing (λ n. refl) refl

-- it is to be moved to the archive, and the other message is not
archived_goes :
    misplaced toy routing looked_at.conn.db options.dest_folder options.archive_folder 2 metas
    ≡ true
unfolding dedup_key is_member trim_space ◌==◌ home
archived_goes = refl

inbox_stays :
    misplaced toy routing looked_at.conn.db options.dest_folder options.archive_folder 1 metas
    ≡ false
unfolding dedup_key is_member trim_space ◌==◌ home
inbox_stays = refl

-- The destination shows the two messages, and keeps a note of every move.
abbrev noted : List ℕ → Text → List Text → List Text
noted [] g s = s
noted (u ∷ us) g s = (u ∷ g) ∷ noted us g s

abbrev within : ℕ → ℕ → ℕ → Bool
within a b u = leb a u && leb u b

abbrev server : Env
server = record toy {
  dst_fetch_meta_range = λ a b. pure (keep (λ m. within a b m.uid) metas);
  dst_move_uids = λ f us g s. (ok tt, noted us g s);
}

abbrev Shows : ℕ → Text → Type 0
Shows u k = Among hex u k metas

abbrev Moved : ℕ → Text → List Text → Type 0
Moved u g s = contains s (u ∷ g) ≡ true

abbrev looked_at_server : World server
looked_at_server = record {
  conn = looked_at.conn;
  src = looked_at.src;
  dst = looked_at.dst;
  sum = looked_at.sum;
  polls = looked_at.polls;
}
