-- ===== src/Safety/Pass.antt =====
-- internal/reconcile/reconcile.go: a pass (`Run`) and a seeding (`SeedFromDest`) keep the invariant.
use umleitung.Base.{ℕ, ◌+◌, ◌%◌, ◌≡◌, refl, ◌||◌, List, [], ◌∷◌, length, ◌==◌ as nat_eq, All}
use umleitung.Base.Text.{Text}
use umleitung.Base.Exec.{Result, ok, err, continue}
use umleitung.Base.Keeps.{Keeps, Keeps-bind, Keeps-continue, Keeps-then, Keeps-if, Keeps-pure}
use umleitung.Key.{MsgMeta, FullMessage, dedup_key}
use umleitung.State.Store.{uid_validity, set_uid_validity, last_uid, set_last_uid, seed_batch}
use umleitung.Env.{Env, Options, World, on_store, on_src, on_dst, check_ctx, inside, assign}
use umleitung.Routing.{dest_bucket_folders}
use umleitung.Windows.{u32, scan_windows, scan_window, batch_of, window_stop}
use umleitung.Mirror.{mirror_window}
use umleitung.Membership.{keys_of_metas}
use umleitung.Backfill.{maybe_backfill}
use umleitung.Reconcile.{
  adopt_validity, mirror_step, propagate_if, run, seed_window, seed_from_dest_folder, seed_folders,
  seed_from_dest,
}
use umleitung.Safety.{DestLaws, SourceLaws, Behind}
use umleitung.Safety.Table.{
  Keeps-uid_validity, Keeps-set_uid_validity, Keeps-last_uid, Keeps-set_last_uid,
}
use umleitung.Safety.Frame.{
  Sound, Sound-on_dst, Sound-on_src, Keeps-scan_loop, Outer, Keeps-inside, Keeps-assign,
  Keeps-with_local,
}
use umleitung.Safety.Records.{Sound-seed_batch}
use umleitung.Safety.Phases.{Any, store, poll, cnt, sync_membership-Sound}
use umleitung.Safety.Writes.{maybe_backfill-Sound, propagate-Sound}
use umleitung.Safety.Window.{mirror_window-Sound}

module _ (E : Env) (o : Options) (H : Text → E.Dst → Type 0) (content : FullMessage → Text)
    (key_of : E.Ticket → Text) (D : DestLaws E H content key_of) (key_at : E.Src → ℕ → Text)
    (L : SourceLaws E key_at content) where
  abbrev I : World E → Type 0
  I = Sound H (Any E)

  mirror_step-Sound :
      (stop : ℕ) (ms : List MsgMeta) (w : World E)
      → All (λ m. dedup_key E.hex_sha256 m ≡ key_at w.src m.uid) ms
      → I w
      → I (mirror_step E o stop ms w).1
  unfolding mirror_step
  mirror_step-Sound stop ms w hs h =
      let v = record w { sum = record w.sum { candidates = w.sum.candidates + length ms } } in
      let x = mirror_window E o ms v in
      Keeps-continue x.0 _
        (λ u. store E o H content key_of D _ (λ rows. Keeps-set_last_uid E.faults rows stop)) x.1
        (mirror_window-Sound E o H content key_of D key_at w.src L ms hs v (h.0, refl))

  mirror_scan-Sound :
      (batch uid_next start : ℕ)
      → Keeps I (
          scan_window check_ctx batch uid_next
            (λ start stop. on_src (E.src_fetch_meta_range start stop))
            (mirror_step E o)
            start)
  unfolding scan_window
  mirror_scan-Sound batch uid_next start =
      Keeps-then check_ctx _ (poll E o H content key_of D)
        (record { at = λ w h. go w h (E.src_fetch_meta_range start stop w.src).0 refl })
    where
      stop : ℕ
      stop = window_stop batch start uid_next

      go :
          (w : World E)
          → I w
          → (x : Result (List MsgMeta)) → (E.src_fetch_meta_range start stop w.src).0 ≡ x
          → I
              (continue x
                (mirror_step E o stop)
                (record w { src = (E.src_fetch_meta_range start stop w.src).1 })).1
      go w h (ok ms) e =
          mirror_step-Sound stop ms (record w { src = (E.src_fetch_meta_range start stop w.src).1 })
            (L.fetched start stop w.src ms e) h
      go w h (err x) e = h

  adopt_validity-Sound :
      (stored current last : ℕ) → Keeps I (adopt_validity E o stored current last)
  unfolding adopt_validity
  adopt_validity-Sound stored current last =
      Keeps-if (nat_eq stored current) _ _ (Keeps-pure last) (
        Keeps-then _ _
          (Keeps-if (nat_eq stored 0) _ _ (Keeps-pure tt) (cnt E o H content key_of D _))
          (Keeps-then (on_store (set_last_uid E.faults 0)) _
            (store E o H content key_of D _ (λ rows. Keeps-set_last_uid E.faults rows 0))
            (Keeps-then (on_store (set_uid_validity E.faults current)) _
              (store E o H content key_of D _
                (λ rows. Keeps-set_uid_validity E.faults rows current))
              (Keeps-pure 0))))

  mirror_loop-Sound :
      (first uid_next : ℕ)
      → Keeps I (
          scan_windows check_ctx o first uid_next
            (λ start stop. on_src (E.src_fetch_meta_range start stop))
            (mirror_step E o))
  unfolding scan_windows
  mirror_loop-Sound first uid_next =
      Keeps-scan_loop I check_ctx (batch_of o) uid_next _ (mirror_step E o)
        (mirror_scan-Sound (batch_of o) uid_next) _ first

  propagate_if-Sound : Keeps I (propagate_if E o)
  propagate_if-Sound =
      Keeps-if (o.archive_routing || (o.sent_routing || o.label_propagate)) _ _
        (propagate-Sound E o H content key_of D) (Keeps-pure tt)

  -- If the servers meet `DestLaws` and `SourceLaws`, a pass that starts with every recorded key
  -- present on the destination ends so, whether it returns or fails: at a failed call of the
  -- database, at a cancelled context, at any error of the servers.
  pub run-Behind : (w : World E) → Behind H w → Behind H (run E o w).1
  unfolding run
  run-Behind w h = (all.at w (h, tt)).0
    where
      all : Keeps I (run E o)
      all = Keeps-then _ _ (sync_membership-Sound E o H content key_of D) (
          Keeps-bind (on_src E.src_select_folder) _ (Sound-on_src E H (Any E) _ (λ s j. tt)) λ st.
            Keeps-bind (on_store (uid_validity E.faults)) _
              (store E o H content key_of D _ (λ rows. Keeps-uid_validity E.faults rows))
              λ stored.
                Keeps-bind (on_store (last_uid E.faults)) _
                  (store E o H content key_of D _ (λ rows. Keeps-last_uid E.faults rows))
                  λ last.
                    Keeps-bind (adopt_validity E o stored st.uid_validity last) _
                      (adopt_validity-Sound stored st.uid_validity last)
                      λ from.
                        Keeps-then (maybe_backfill E o) _
                          (maybe_backfill-Sound E o H content key_of D)
                          (Keeps-then _ (propagate_if E o)
                            (mirror_loop-Sound ((from + 1) % u32) st.uid_next) propagate_if-Sound))

-- The seeding asks the destination alone.
module _ (E : Env) (o : Options) (H : Text → E.Dst → Type 0) (content : FullMessage → Text)
    (key_of : E.Ticket → Text) (D : DestLaws E H content key_of) where
  abbrev J : World E → Type 0
  J = Sound H (Any E)

  keys_of_metas-All :
      (P : Text → Type 0) (ms : List MsgMeta)
      → All (λ m. P (dedup_key E.hex_sha256 m)) ms
      → All P (keys_of_metas E o ms)
  keys_of_metas-All P [] h = tt
  keys_of_metas-All P (m ∷ ms) h = (h.0, keys_of_metas-All P ms h.1)

  seed_scan-Sound :
      (batch uid_next start : ℕ)
      → Keeps (Outer {A = ℕ} J) (
          scan_window
            (inside check_ctx)
            batch
            uid_next
            (λ start stop. inside (on_dst (E.dst_fetch_meta_range start stop)))
            (seed_window E o)
            start)
  unfolding scan_window seed_window
  seed_scan-Sound batch uid_next start =
      Keeps-then (inside check_ctx) _ (Keeps-inside J _ (poll E o H content key_of D))
        (record { at = λ s h. go s h (E.dst_fetch_meta_range start stop s.0.dst).0 refl })
    where
      stop : ℕ
      stop = window_stop batch start uid_next

      go :
          (s : World E × ℕ)
          → J s.0
          → (x : Result (List MsgMeta)) → (E.dst_fetch_meta_range start stop s.0.dst).0 ≡ x
          → J
              (continue x
                (seed_window E o stop)
                (record s.0 { dst = (E.dst_fetch_meta_range start stop s.0.dst).1 }, s.1)).1.0
      go (w, n) h (ok ms) e =
          let d = (E.dst_fetch_meta_range start stop w.dst).1 in
          let v = record w { dst = d } in
          let x = on_store (seed_batch E.faults (keys_of_metas E o ms)) v in
          Keeps-continue {P = Outer {A = ℕ} J} x.0 (λ u. assign (λ n. n + length ms))
            (λ u. Keeps-assign J _) (x.1, n)
            (Sound-seed_batch E H (Any E) (keys_of_metas E o ms) v
              (keys_of_metas-All (λ k. H k d) ms (D.listed start stop w.dst ms e))
              (λ k r. D.fetch_keeps start stop k w.dst (h.0 k r), tt))
      go (w, n) h (err x) e = (λ k r. D.fetch_keeps start stop k w.dst (h.0 k r), tt)

  seed_from_dest_folder-Sound : (f : Text) → Keeps J (seed_from_dest_folder E o f)
  unfolding seed_from_dest_folder scan_windows
  seed_from_dest_folder-Sound f =
      Keeps-bind (on_dst (E.dst_select_named_folder f)) _
        (Sound-on_dst E H (Any E) (E.dst_select_named_folder f) (D.select_keeps f))
        λ st. Keeps-if (nat_eq st.num_messages 0) _ _ (Keeps-pure 0) (
          Keeps-with_local J 0 _ (
            Keeps-scan_loop (Outer J) (inside check_ctx) (batch_of o) st.uid_next _
              (seed_window E o) (seed_scan-Sound (batch_of o) st.uid_next) _ 1))

  seed_folders-Sound : (n : ℕ) (fs : List Text) → Keeps J (seed_folders E o n fs)
  unfolding seed_folders
  seed_folders-Sound n [] = Keeps-pure n
  seed_folders-Sound n (f ∷ fs) =
      Keeps-bind (seed_from_dest_folder E o f) _ (seed_from_dest_folder-Sound f)
        (λ k. seed_folders-Sound (n + k) fs)

  -- If the destination meets `DestLaws`, a seeding that starts with every recorded key present on the
  -- destination ends so, whether it returns or fails.
  pub seed_from_dest-Behind : (w : World E) → Behind H w → Behind H (seed_from_dest E o w).1
  unfolding seed_from_dest
  seed_from_dest-Behind w h = ((seed_folders-Sound 0 (dest_bucket_folders o)).at w (h, tt)).0
