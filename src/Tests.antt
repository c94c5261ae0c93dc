-- ===== src/Tests.antt =====
-- A small mailbox on two servers in memory, and each property that has conditions applied to it.
pub mod Toy
mod ToyWire
mod Clients
mod ToyConfig
mod Settings
mod Searches
mod Repeats
mod Files
mod Folders
mod Misplaced
mod Listings
mod Starts
mod Stores
mod Channels
use umleitung.Base.{
  ℕ, ◌+◌, ◌-◌, ◌≡◌, refl, Bool, true, false, not, ◌&&◌, List, [], ◌∷◌, ◌<◌, All, arith, map,
  if◌then◌else◌, leb, ◌^◌, ◌≤◌,
}
use umleitung.Base.Text.{Text, codes, contains, trim_space, has_prefix, ◌==◌, pos}
use umleitung.Base.Exec.{Result, ok, err, diverged, Exec, pure, each}
use umleitung.Base.Hoare.{After}
use umleitung.Key.{MsgMeta, dedup_key, is_real_message_id, synth_prefix, synth_input}
use umleitung.Key.Laws.{SameFields, dedup_key-SameFields, is_real_message_id-dedup_key}
use umleitung.State.Tables.{Db, MemberChangeItem, has_row, is_member, empty_db, insert_copied}
use umleitung.State.Store.{Conn, last_uid, set_last_uid, exec_batch, member_change_batch}
use umleitung.State.Atomic.{
  change_row, apply_all, WholeOrNothing, member_change_batch-WholeOrNothing,
}
use umleitung.State.Rows.{is_member-change_row, last_uid-set_last_uid}
use umleitung.Env.{World, check_ctx}
use umleitung.Labels.{keyword_for, replacement, label_keyword, label_keywords}
use umleitung.Labels.Laws.{is_slug_char, Distinct, keyword_for-is_slug_char, label_keywords_lem}
use umleitung.Routing.{dest_folder_for, dest_bucket_folders}
use umleitung.Routing.Laws.{home, dest_folder_for-home, dest_folder_for-IsBucket}
use umleitung.Windows.{scan_window, scan_loop, scan_windows, batch_of}
use umleitung.Windows.Tiling.{range, starts, asked, scan_windows_tiling, scan_loop-diverged}
use umleitung.Mirror.Pipeline.{CopyItem}
use umleitung.Propagate.{apply_page, propagate, propagate_loop}
use umleitung.Propagate.Drains.{propagate_lem}
use umleitung.Propagate.Pages.{without, IsTruthful, apply_page-IsTruthful}
use umleitung.Backfill.{maybe_backfill}
use umleitung.Backfill.Mark.{backfilled, maybe_backfill_lem}
use umleitung.Runtime.{seed_empty}
use umleitung.Runtime.Laws.{waited, capped, doubled, streak, waited_lem}
use umleitung.Safety.History.{Act, seed, pass, history, history-Behind}
use umleitung.Mirror.{classify}
use umleitung.Mirror.Rest.{rest_of}
use umleitung.Reconcile.{mirror_step}
use umleitung.Reconcile.Mark.{marked, mirror_step_lem}
use umleitung.Mirror.Dedup.{IsFresh, IsCovered, classify-IsFresh}
use umleitung.Reconcile.{run, seed_from_dest}
use umleitung.Safety.{Behind}
use umleitung.Safety.Pass.{run-Behind, seed_from_dest-Behind}
use umleitung.Tests.Toy.{
  hex, message_one, message_two, meta_of, content, key_of, key_at, toy, options, Holds,
  toy-DestLaws, toy-SourceLaws, start, start-Behind,
}

run-Behind_example : Behind {E = toy} Holds (run toy options start).1
run-Behind_example =
    run-Behind toy options Holds content key_of toy-DestLaws key_at toy-SourceLaws start
      start-Behind

seed_from_dest-Behind_example : Behind {E = toy} Holds (seed_from_dest toy options start).1
seed_from_dest-Behind_example =
    seed_from_dest-Behind toy options Holds content key_of toy-DestLaws start start-Behind

abbrev fetch_none : ℕ → ℕ → Exec (Unit {0}) (List MsgMeta)
fetch_none a b = pure []

abbrev ignore : ℕ → List MsgMeta → Exec (Unit {0}) (Unit {0})
ignore stop ms = pure tt

options-batch : 0 < batch_of options
unfolding batch_of
options-batch = omega arith

options-fits : 4 + batch_of options ≤ 2 ^ 32
unfolding batch_of
options-fits = omega arith

scan_windows_tiling_example :
    (scan_windows (pure tt) options 1 4 fetch_none ignore
      ≡ each
          (starts (batch_of options) 4 5 1)
          (scan_window (pure tt) (batch_of options) 4 fetch_none ignore))
    × (asked (batch_of options) 4 (starts (batch_of options) 4 5 1) ≡ range 1 3)
scan_windows_tiling_example =
    scan_windows_tiling (pure tt) options 1 4 fetch_none ignore options-batch options-fits

window-fine : (s : Unit {0}) → (scan_window (pure tt) 0 4 fetch_none ignore 1 s).0 ≡ ok tt
unfolding scan_window
window-fine s = refl

scan_loop-diverged_example : (scan_loop (pure tt) 0 4 fetch_none ignore 100 1 tt).0 ≡ err diverged
scan_loop-diverged_example =
    scan_loop-diverged (pure tt) 0 4 fetch_none ignore 1 refl (omega arith) (omega arith)
      window-fine 100 tt

abbrev new_label : MemberChangeItem
new_label = record { key = codes "one@x"; uid = 4; add = true; pending_kind = codes "label" }

abbrev left_label : MemberChangeItem
left_label = record { key = codes "two@x"; uid = 0; add = false; pending_kind = codes "" }

-- the third call of the database fails
abbrev third_fails : ℕ → Bool
third_fails n = if leb 2 n then leb n 2 else false

abbrev empty_conn : Conn
empty_conn = record { db = empty_db; calls = 0 }

member_change_batch-WholeOrNothing_example :
    WholeOrNothing
      (apply_all (map (change_row (codes "Work")) (new_label ∷ left_label ∷ [])))
      empty_db
      (member_change_batch third_fails (codes "Work") (new_label ∷ left_label ∷ []) empty_conn)
member_change_batch-WholeOrNothing_example =
    member_change_batch-WholeOrNothing third_fails (codes "Work") (new_label ∷ left_label ∷ [])
      empty_conn

last_uid-set_last_uid_example :
    (last_uid (λ n. false) (set_last_uid (λ n. false) 1207 empty_conn).1).0 ≡ ok 1207
last_uid-set_last_uid_example =
    last_uid-set_last_uid (λ n. false) 1207 empty_conn (omega arith) refl refl

dest_folder_for-home_example :
    (dest_folder_for toy options (codes "one@x") start).0
    ≡ ok (
        home options
          (is_member (codes "Inbox") (codes "one@x") [])
          (is_member (codes "Sent") (codes "one@x") []))
dest_folder_for-home_example = dest_folder_for-home toy options (codes "one@x") start (λ n. refl)

archived : (dest_folder_for toy options (codes "one@x") start).0 ≡ ok (codes "Archive")
unfolding home is_member
archived = dest_folder_for-home toy options (codes "one@x") start (λ n. refl)

-- a message with no Message-ID
abbrev nameless : MsgMeta
nameless = record (meta_of message_one) { message_id = codes " "; subject = codes "hello" }

-- the same message, moved to another UID
abbrev moved : MsgMeta
moved = record nameless { uid = 9 }

dedup_key-SameFields_example : SameFields nameless moved
unfolding trim_space dedup_key synth_input
dedup_key-SameFields_example = dedup_key-SameFields hex (λ s t e. e) nameless moved refl refl refl

abbrev two_labels : List Text
two_labels = codes "Work" ∷ codes "work" ∷ []

label_keywords_lem_example :
    Distinct (label_keywords options two_labels)
    × (contains (label_keywords options two_labels) (codes "L-work") ≡ (
        contains (map (label_keyword options) two_labels) (codes "L-work")
        && not (codes "L-work" == codes "")))
label_keywords_lem_example = label_keywords_lem options two_labels (codes "L-work")

-- the first message is recorded, and the second comes twice
abbrev window : List MsgMeta
window = meta_of message_one ∷ meta_of message_two ∷ meta_of message_two ∷ []

classify-IsFresh_example :
    After
      (λ pend v.
        (v.conn.db.copied ≡ start.conn.db.copied)
        × (IsFresh start.conn.db.copied [] pend
            × All
                (λ m. IsCovered start.conn.db.copied [] pend (dedup_key toy.hex_sha256 m))
                window))
      (λ v. v.conn.db.copied ≡ start.conn.db.copied)
      (classify toy options [] window start)
classify-IsFresh_example = classify-IsFresh toy options window start

-- the second message left the inbox after it was copied
abbrev queued : World toy
queued = record start {
  conn = record {
    db = record empty_db {
      pending =
          record {
            id = 1;
            kind = codes "move";
            message_id = codes "two@x";
            folder = codes "Inbox";
            op = codes "remove";
          }
          ∷ [];
      next_id = 2;
    };
    calls = 0;
  };
}

propagate_lem_example :
    After (λ u v. v.conn.db.pending ≡ []) (λ v. Unit) (propagate toy options queued)
    × ((n : ℕ) → 1 < n → propagate_loop toy options n queued ≡ propagate toy options queued)
propagate_lem_example = propagate_lem toy options queued

mirror_step_lem_example :
    After
      (λ u v. rest_of v.conn.db ≡ rest_of (marked 2 start.conn.db))
      (λ v. rest_of v.conn.db ≡ rest_of start.conn.db)
      (mirror_step toy options 2 window start)
mirror_step_lem_example = mirror_step_lem toy options 2 window start

maybe_backfill_lem_example :
    After
      (λ u v. v.conn.db ≡ backfilled options start.conn.db)
      (λ v. v.conn.db ≡ start.conn.db)
      (maybe_backfill toy options start)
maybe_backfill_lem_example = maybe_backfill_lem toy options start

-- nothing is recorded
abbrev fresh : World toy
fresh = record start { conn = empty_conn }

history-Behind_example :
    Behind {E = toy} Holds (history toy options (seed seed_empty ∷ pass ∷ pass ∷ []) fresh)
history-Behind_example =
    history-Behind toy options Holds content key_of toy-DestLaws key_at toy-SourceLaws
      (seed seed_empty ∷ pass ∷ pass ∷ []) fresh refl

-- a session of 1 s, a healthy one, and two of 1 s
waited_lem_example :
    waited (1000000000 ∷ 1000000000 ∷ 400000000000 ∷ 1000000000 ∷ [])
    ≡ capped (doubled (streak 1000000000 (1000000000 ∷ 400000000000 ∷ 1000000000 ∷ [])))
waited_lem_example = waited_lem 1000000000 (1000000000 ∷ 400000000000 ∷ 1000000000 ∷ [])

apply_page-IsTruthful_example :
    After
      (λ u v. v.conn.db ≡ without queued.conn.db.pending queued.conn.db)
      (IsTruthful toy options queued.conn.db.pending queued)
      (apply_page toy options queued.conn.db.pending queued)
apply_page-IsTruthful_example = apply_page-IsTruthful toy options queued.conn.db.pending queued
