-- ===== src/Safety/Window.antt =====
-- internal/reconcile/reconcile.go: one window of candidates keeps the invariant, from the look into
-- the record and the search on the destination to the copying.
use mathlib.Core.Path.{subst}
use mathlib.Core.List.{append_assoc}
use umleitung.Base.{
  ℕ, ◌+◌, ◌≡◌, refl, sym, ◌||◌, none, some, List, [], ◌∷◌, ◌++◌, All, All-append, All-map,
}
use umleitung.Base.Text.{Text, contains}
use umleitung.Base.Exec.{Result, ok, err, Exec, pure, gets, ◌>>=◌, ◌>>◌}
use umleitung.Base.Keeps.{Keeps}
use umleitung.Base.Hoare.{
  After, After-both, Triple, Triple-pure, Triple-Keeps, Triple-if, Triple-bind, Triple-state,
}
use umleitung.Key.{MsgMeta, FullMessage, dedup_key}
use umleitung.State.Tables.{KeyRecord}
use umleitung.State.Store.{has_key, record_keys}
use umleitung.Env.{Env, Options, World, on_store, on_dst, check_ctx}
use umleitung.Routing.{dest_folder_for, dest_bucket_folders}
use umleitung.Mirror.{
  skip_one, keys_with, prepend, real_ids, kept_of, found_of, record_of, classify_one, classify,
  search_folders, record_found, drop_found, guard, guard_if, copy_if, mirror_window,
}
use umleitung.Mirror.Pipeline.{PendingCopy}
use umleitung.Safety.{DestLaws, SourceLaws}
use umleitung.Safety.Table.{Keeps-has_key}
use umleitung.Safety.Frame.{
  Sound, Sound-on_store, Sound-count, Sound-check_ctx, Sound-dest_folder_for,
}
use umleitung.Safety.Records.{Sound-record_keys}
use umleitung.Safety.Phases.{Any}
use umleitung.Safety.Producer.{OnSome, copy_pipeline-Sound}
use umleitung.Safety.Filters.{kept_of-All, found_of-All, prepend-All}

module _ (E : Env) (o : Options) (H : Text → E.Dst → Type 0) (content : FullMessage → Text)
    (key_of : E.Ticket → Text) (D : DestLaws E H content key_of) (key_at : E.Src → ℕ → Text)
    (s0 : E.Src) where
  -- the source stays where the window was fetched
  abbrev Here : E.Src → Type 0
  Here s = s ≡ s0

  abbrev I : World E → Type 0
  I = Sound H Here

  abbrev X : World E → Type 0
  X = Sound H (Any E)

  abbrev Keyed : PendingCopy → Type 0
  Keyed p = p.key ≡ key_at s0 p.uid

  weaken : (w : World E) → I w → X w
  weaken w h = (h.0, tt)

  keeps : {A : Type 0} (m : Exec (World E) A) → Keeps I m → Triple I m (λ a. I) X
  keeps m k = Triple-Keeps m k weaken (λ a s h. h)

  skips : Triple I (skip_one {E = E}) (λ u. I) X
  skips =
      keeps skip_one
        (Sound-count E H Here (λ sum. record sum { skipped_dup = sum.skipped_dup + 1 }))

  classify_one-Keyed :
      (keys : List Text) (m : MsgMeta)
      → dedup_key E.hex_sha256 m ≡ key_at s0 m.uid
      → Triple I (classify_one E o keys m) (λ c w. I w × OnSome Keyed c) X
  unfolding classify_one
  classify_one-Keyed keys m e =
      let key = dedup_key E.hex_sha256 m in
      Triple-bind check_ctx _ (keeps check_ctx (Sound-check_ctx E H Here)) λ u.
        Triple-bind (on_store (has_key E.faults key)) _
          (keeps _ (
            Sound-on_store E H Here (has_key E.faults key)
              (λ rows. Keeps-has_key E.faults rows key)))
          λ seen.
            Triple-if (seen || contains keys key) (skip_one >> pure none)
              (do
                dest_folder ← dest_folder_for E o key
                pure (some (record { uid = m.uid; key = key; dest_folder = dest_folder })))
              (λ b. Triple-bind skip_one _ skips (λ v. Triple-pure none (λ w h. (h, tt))))
              (λ b.
                Triple-bind (dest_folder_for E o key) _
                  (keeps _ (Sound-dest_folder_for E o H Here key))
                  (λ f.
                    Triple-pure (some (record { uid = m.uid; key = key; dest_folder = f }))
                      (λ w h. (h, e))))

  classify-Keyed :
      (keys : List Text) (ms : List MsgMeta)
      → All (λ m. dedup_key E.hex_sha256 m ≡ key_at s0 m.uid) ms
      → Triple I (classify E o keys ms) (λ pend w. I w × All Keyed pend) X
  unfolding classify
  classify-Keyed keys [] hs = Triple-pure [] (λ w h. (h, tt))
  classify-Keyed keys (m ∷ ms) hs = Triple-bind _ _ (classify_one-Keyed keys m hs.0) λ c. record {
    run = λ w h.
        (Triple-bind _ _ (classify-Keyed (keys_with c keys) ms hs.1) (λ pend.
            Triple-pure (prepend c pend) (λ v i. (i.0, prepend-All Keyed c pend h.1 i.1)))).run
          w h.0;
  }

  -- what is held of a state: the keys `ks` are there, beside the invariant
  abbrev Held : List Text → World E → Type 0
  Held ks w = I w × All (λ k. H k w.dst) ks

  search_one-Held :
      (acc ids : List Text) (f : Text)
      → Triple (Held acc) (on_dst (E.dst_search_message_ids_in f ids)) (λ ks. Held (acc ++ ks)) X
  search_one-Held acc ids f = record {
    run = λ w h. go w h (E.dst_search_message_ids_in f ids w.dst).0 refl;
  }
    where
      go :
          (w : World E)
          → Held acc w
          → (x : Result (List Text)) → (E.dst_search_message_ids_in f ids w.dst).0 ≡ x
          → After
              (λ ks. Held (acc ++ ks))
              X
              (x, record w { dst = (E.dst_search_message_ids_in f ids w.dst).1 })
      go w h (ok ks) e =
          let d = (E.dst_search_message_ids_in f ids w.dst).1 in
          (
            (λ k r. D.search_keeps f ids k w.dst (h.0.0 k r), h.0.1),
            All-append (λ k. H k d) acc ks (All-map acc (λ k. D.search_keeps f ids k w.dst) h.1)
                (D.found f ids w.dst ks e),
          )
      go w h (err x) e = (λ k r. D.search_keeps f ids k w.dst (h.0.0 k r), tt)

  search_folders-Held :
      (acc ids fs : List Text)
      → Triple (Held acc) (search_folders E o ids fs) (λ ks. Held (acc ++ ks)) X
  unfolding search_folders
  search_folders-Held acc ids [] =
      Triple-pure [] (λ w h. (h.0, All-append (λ k. H k w.dst) acc [] h.1 tt))
  search_folders-Held acc ids (f ∷ fs) =
      Triple-bind (on_dst (E.dst_search_message_ids_in f ids)) _ (search_one-Held acc ids f) λ ks.
        Triple-bind (search_folders E o ids fs) _ (search_folders-Held (acc ++ ks) ids fs) λ rest.
          Triple-pure (ks ++ rest)
            (λ w h. (h.0, subst (All (λ k. H k w.dst)) (append_assoc acc ks rest) h.1))

  -- a destination that does not change
  abbrev At : E.Dst → World E → Type 0
  At d w = I w × (w.dst ≡ d)

  record_found-At :
      (d : E.Dst) (ps : List PendingCopy)
      → All (λ p. H p.key d) ps
      → Triple (At d) (record_found E o ps) (λ rs w. At d w × All (λ r. H r.key d) rs) X
  unfolding record_found
  record_found-At d [] hs = Triple-pure [] (λ w h. (h, tt))
  record_found-At d (p ∷ ps) hs =
      Triple-bind {R = λ u. At d} skip_one _ (record { run = λ w h. h })
        λ u.
          Triple-bind {R = λ n. At d} (gets (λ (w : World E). E.now w.polls)) _
            (record { run = λ w h. h })
            λ now.
              Triple-bind (record_found E o ps) _ (record_found-At d ps hs.1)
                λ rs. Triple-pure (record_of now p ∷ rs) (λ w h. (h.0, (hs.0, h.1)))

  record_keys-At :
      (d : E.Dst) (rs : List KeyRecord)
      → Triple
          (λ w. At d w × All (λ r. H r.key d) rs)
          (on_store (record_keys E.faults rs))
          (λ u. I)
          X
  record_keys-At d rs = record {
    run = λ w h.
        let x = on_store (record_keys E.faults rs) w in
        let held = subst (λ s. All (λ (r : KeyRecord). H r.key s) rs) (sym h.0.1) h.1 in
        After-both I (λ u. I) X x (Sound-record_keys E H Here rs w held h.0.0) (λ a i. i)
          (weaken x.1);
  }

  drop_found-Keyed :
      (ks : List Text) (pend : List PendingCopy)
      → All Keyed pend
      → Triple (Held ks) (drop_found E o pend ks) (λ kept w. I w × All Keyed kept) X
  drop_found-Keyed ks pend ps = record {
    run = λ w h.
        (Triple-bind (record_found E o (found_of ks pend)) _
            (record_found-At w.dst (found_of ks pend) (found_of-All (λ k. H k w.dst) ks pend h.1))
            (λ rs.
              Triple-bind (on_store (record_keys E.faults rs)) _ (record_keys-At w.dst rs) (λ u.
                Triple-pure (kept_of ks pend) (λ v i. (i, kept_of-All Keyed ks pend ps))))).run
          w (h.0, refl);
  }

  guard-Keyed :
      (pend : List PendingCopy)
      → All Keyed pend
      → Triple I (guard E o pend) (λ kept w. I w × All Keyed kept) X
  unfolding guard
  guard-Keyed pend ps = go (real_ids pend)
    where
      go :
          (ids : List Text)
          → Triple I
              (elim ids [
                | [] ↦ pure pend
                | id ∷ rest ↦ (do
                  found ← search_folders E o (id ∷ rest) (dest_bucket_folders o)
                  drop_found E o pend found)
              ])
              (λ kept w. I w × All Keyed kept)
              X
      go [] = Triple-pure pend (λ w h. (h, ps))
      go (id ∷ rest) = record {
        run = λ w h.
            (Triple-bind (search_folders E o (id ∷ rest) (dest_bucket_folders o)) _
                (search_folders-Held [] (id ∷ rest) (dest_bucket_folders o))
                (λ found. drop_found-Keyed found pend ps)).run
              w (h, tt);
      }

  guard_if-Keyed :
      (pend : List PendingCopy)
      → All Keyed pend
      → Triple I (guard_if E o pend) (λ kept w. I w × All Keyed kept) X
  guard_if-Keyed [] ps = Triple-pure [] (λ w h. (h, tt))
  guard_if-Keyed (p ∷ pend) ps =
      Triple-if o.dest_guard (guard E o (p ∷ pend)) (pure (p ∷ pend))
        (λ e. guard-Keyed (p ∷ pend) ps) (λ e. Triple-pure (p ∷ pend) (λ w h. (h, ps)))

  copy_if-Sound :
      (L : SourceLaws E key_at content) (pend : List PendingCopy) (w : World E)
      → I w × All Keyed pend
      → X (copy_if E o pend w).1
  copy_if-Sound L [] w h = weaken w h.0
  copy_if-Sound L (p ∷ pend) w h =
      copy_pipeline-Sound E o H content key_of D key_at L (p ∷ pend) w
        (subst (λ s. All (λ (q : PendingCopy). q.key ≡ key_at s q.uid) (p ∷ pend)) (sym h.0.1) h.1)
        (weaken w h.0)

  pub mirror_window-Sound :
      (L : SourceLaws E key_at content) (ms : List MsgMeta)
      → All (λ m. dedup_key E.hex_sha256 m ≡ key_at s0 m.uid) ms
      → (w : World E) → I w
      → X (mirror_window E o ms w).1
  unfolding mirror_window
  mirror_window-Sound L ms hs =
      Triple-state _
        (Triple-bind (classify E o [] ms) _ (classify-Keyed [] ms hs) λ pend. record {
          run = λ w h.
              (Triple-bind (guard_if E o pend) _ (guard_if-Keyed pend h.1) λ kept. record {
                run = λ v i.
                    let x = copy_if E o kept v in
                    After-both X (λ u. X) X x (copy_if-Sound L kept v i) (λ u j. j) (λ j. j);
              }).run
                w h.0;
        })
        (λ u w h. h)
