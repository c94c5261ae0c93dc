-- ===== src/Backfill/Frame.antt =====
-- The backfill keeps what its calls of the store's reads and of the destination keep.
use umleitung.Base.{ℕ, ◌+◌, ◌||◌, List, length, Bool-cases, inl, inr, ◌==◌ as nat_eq}
use umleitung.Base.Text.{Text, ◌==◌}
use umleitung.Base.Exec.{◌>>◌}
use umleitung.Base.Keeps.{Keeps, Keeps-bind, Keeps-then, Keeps-each, Keeps-if, Keeps-pure}
use umleitung.Key.{MsgMeta, dedup_key}
use umleitung.State.Tables.{Db}
use umleitung.State.Store.{member_has, member_folders}
use umleitung.Env.{Env, Options, Summary, World, on_store, on_dst, check_ctx, count, inside}
use umleitung.Routing.{labels_for, dest_folder_for, dest_bucket_folders, count_move}
use umleitung.Routing.Reads.{dest_folder_for-Keeps}
use umleitung.Backfill.{
  KeywordGroup, check_place, check_keywords, check_metas, store_group, move_group,
  backfill_dest_folder, backfill_all, chunked,
}
use umleitung.Safety.Frame.{Keeps-scan_windows, Outer, Keeps-inside, Keeps-assign, Keeps-with_local}

-- A read of the store keeps what is said of the database and the destination.
module _ (E : Env) (o : Options) (P : Db → E.Dst → Type 0) where
  pub reads_member :
      (f k : Text) → Keeps (λ (w : World E). P w.conn.db w.dst) (on_store (member_has E.faults f k))
  unfolding member_has
  reads_member f k = record {
    at = λ w h. elim (Bool-cases (E.faults w.conn.calls)) [ inl e ↦ rw e h | inr e ↦ rw e h ];
  }

  pub reads_folders : (k : Text) → Keeps (λ (w : World E). P w.conn.db w.dst) (labels_for E o k)
  unfolding labels_for member_folders
  reads_folders k =
      Keeps-bind (on_store (member_folders E.faults k)) _
        (record {
          at = λ w h. elim (Bool-cases (E.faults w.conn.calls)) [ inl e ↦ rw e h | inr e ↦ rw e h ];
        })
        (λ fs. Keeps-pure _)

module _ (E : Env) (o : Options) (P : World E → Type 0)
    (reads_member : (f k : Text) → Keeps P (on_store (member_has E.faults f k)))
    (reads_folders : (k : Text) → Keeps P (labels_for E o k)) where
  check_place-Keeps : (f : Text) (m : MsgMeta) → Keeps (Outer P) (check_place E o f m)
  unfolding check_place
  check_place-Keeps f m =
      Keeps-if (o.archive_routing || o.sent_routing) _ _
        (Keeps-bind (inside (dest_folder_for E o (dedup_key E.hex_sha256 m))) _
          (Keeps-inside P _ (dest_folder_for-Keeps E o P reads_member _))
          (λ want. Keeps-if (want == f) _ _ (Keeps-pure tt) (Keeps-assign P _)))
        (Keeps-pure tt)

  check_keywords-Keeps : (m : MsgMeta) → Keeps (Outer P) (check_keywords E o m)
  unfolding check_keywords
  check_keywords-Keeps m =
      Keeps-if o.sync_labels _ _
        (Keeps-bind (inside (labels_for E o (dedup_key E.hex_sha256 m))) _
          (Keeps-inside P _ (reads_folders _)) (λ labels. Keeps-assign P _))
        (Keeps-pure tt)

  pub check_metas-Keeps :
      (f : Text) (stop : ℕ) (ms : List MsgMeta) → Keeps (Outer P) (check_metas E o f stop ms)
  unfolding check_metas
  check_metas-Keeps f stop ms =
      Keeps-each ms _ (λ m. Keeps-then _ _ (check_place-Keeps f m) (check_keywords-Keeps m))

module _ (E : Env) (o : Options) (P : World E → Type 0)
    (reads_member : (f k : Text) → Keeps P (on_store (member_has E.faults f k)))
    (reads_folders : (k : Text) → Keeps P (labels_for E o k))
    (keeps_poll : Keeps P (check_ctx {E = E}))
    (keeps_count : (f : Summary → Summary) → Keeps P (count {E = E} f))
    (keeps_select : (f : Text) → Keeps P (on_dst {E = E} (E.dst_select_named_folder f)))
    (keeps_fetch : (a b : ℕ) → Keeps P (on_dst {E = E} (E.dst_fetch_meta_range a b)))
    (keeps_keywords : (us : List ℕ) (kws : List Text)
      → Keeps P (on_dst {E = E} (E.dst_store_keywords_uids us kws)))
    (keeps_move : (f : Text) (us : List ℕ) (g : Text)
      → Keeps P (on_dst {E = E} (E.dst_move_uids f us g))) where
  store_group-Keeps : (g : KeywordGroup) → Keeps P (store_group E o g)
  unfolding store_group
  store_group-Keeps g =
      Keeps-then _ _
        (Keeps-each (chunked g.uids) (λ c. on_dst (E.dst_store_keywords_uids c g.kws))
          (λ c. keeps_keywords c g.kws))
        (keeps_count
          (λ sum. record sum { keywords_updated = sum.keywords_updated + length g.uids }))

  move_group-Keeps : (f : Text) (g : Text × List ℕ) → Keeps P (move_group E o f g)
  unfolding move_group
  move_group-Keeps f (want, uids) =
      Keeps-then _ _
        (Keeps-each (chunked uids) (λ c. check_ctx >> on_dst (E.dst_move_uids f c want))
          (λ c. Keeps-then check_ctx _ keeps_poll (keeps_move f c want)))
        (keeps_count (count_move o want (length uids)))

  backfill_dest_folder-Keeps : (f : Text) → Keeps P (backfill_dest_folder E o f)
  unfolding backfill_dest_folder
  backfill_dest_folder-Keeps f =
      Keeps-bind (on_dst (E.dst_select_named_folder f)) _ (keeps_select f) λ st.
        Keeps-if (nat_eq st.num_messages 0) _ _ (Keeps-pure tt) (
          Keeps-bind _ _
            (Keeps-with_local P _ _ (
              Keeps-scan_windows (Outer P) _ o 1 st.uid_next _ _ (Keeps-inside P _ keeps_poll)
                (λ a b. Keeps-inside P _ (keeps_fetch a b))
                (check_metas-Keeps E o P reads_member reads_folders f)))
            λ found.
              Keeps-then _ _ (Keeps-each found.keywords _ store_group-Keeps)
                (Keeps-each found.wrong _ (move_group-Keeps f)))

  pub backfill_all-Keeps : Keeps P (backfill_all E o)
  backfill_all-Keeps =
      Keeps-if (o.archive_routing || (o.sent_routing || o.sync_labels)) _ _
        (Keeps-each (dest_bucket_folders o) _ backfill_dest_folder-Keeps) (Keeps-pure tt)
