-- ===== src/Reconcile.antt =====
-- internal/reconcile/reconcile.go: one pass (`Run`), and the seeding from the destination.
pub mod Mark
use umleitung.Base.{ℕ, ◌+◌, ◌%◌, true, ◌||◌, List, [], ◌∷◌, length, ◌==◌ as nat_eq, if◌then◌else◌}
use umleitung.Base.Text.{Text}
use umleitung.Base.Exec.{Exec, pure, ◌>>=◌, ◌>>◌}
use umleitung.Key.{MsgMeta}
use umleitung.State.Store.{uid_validity, set_uid_validity, last_uid, set_last_uid, seed_batch}
use umleitung.Env.{
  Env, Options, World, on_store, on_src, on_dst, count, check_ctx, inside, assign, with_local,
}
use umleitung.Routing.{dest_bucket_folders}
use umleitung.Windows.{u32, scan_windows}
use umleitung.Mirror.{mirror_window}
use umleitung.Membership.{sync_membership, keys_of_metas}
use umleitung.Propagate.{propagate}
use umleitung.Backfill.{maybe_backfill}

module _ (E : Env) (o : Options) where
  -- The UIDVALIDITY check: the UID from which the scan goes on.
  unfoldable pub adopt_validity : ℕ → ℕ → ℕ → Exec (World E) ℕ
  adopt_validity stored current last = if nat_eq stored current then pure last else do
    if nat_eq stored 0 then pure tt else count (λ sum. record sum { uid_validity_changed = true })
    on_store (set_last_uid E.faults 0)
    on_store (set_uid_validity E.faults current)
    pure 0

  -- one window of the mirror loop
  unfoldable pub mirror_step : ℕ → List MsgMeta → Exec (World E) (Unit {0})
  mirror_step stop metas = do
    count (λ sum. record sum { candidates = sum.candidates + length metas })
    mirror_window E o metas
    on_store (set_last_uid E.faults stop)

  abbrev pub propagate_if : Exec (World E) (Unit {0})
  propagate_if =
      if o.archive_routing || (o.sent_routing || o.label_propagate) then propagate E o else pure tt

  unfoldable pub run : Exec (World E) (Unit {0})
  run = do
    sync_membership E o
    st ← on_src E.src_select_folder
    stored ← on_store (uid_validity E.faults)
    last ← on_store (last_uid E.faults)
    from ← adopt_validity stored st.uid_validity last
    maybe_backfill E o
    scan_windows check_ctx o ((from + 1) % u32) st.uid_next
        (λ start stop. on_src (E.src_fetch_meta_range start stop)) mirror_step
    propagate_if

  -- one window of the seeding, with the number of keys so far
  unfoldable pub seed_window : ℕ → List MsgMeta → Exec (World E × ℕ) (Unit {0})
  seed_window stop metas = do
    inside (on_store (seed_batch E.faults (keys_of_metas E o metas)))
    assign (λ n. n + length metas)

  unfoldable pub seed_from_dest_folder : Text → Exec (World E) ℕ
  seed_from_dest_folder folder = do
    st ← on_dst (E.dst_select_named_folder folder)
    if nat_eq st.num_messages 0
        then pure 0
        else with_local 0 (
            scan_windows (inside check_ctx) o 1 st.uid_next
              (λ start stop. inside (on_dst (E.dst_fetch_meta_range start stop))) seed_window)

  unfoldable pub seed_folders : ℕ → List Text → Exec (World E) ℕ
  seed_folders seeded [] = pure seeded
  seed_folders seeded (folder ∷ folders) = do
    n ← seed_from_dest_folder folder
    seed_folders (seeded + n) folders

  unfoldable pub seed_from_dest : Exec (World E) ℕ
  seed_from_dest = seed_folders 0 (dest_bucket_folders o)
