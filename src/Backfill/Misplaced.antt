-- ===== src/Backfill/Misplaced.antt =====
-- internal/reconcile/membership.go: which messages a backfill notes as misplaced.
use mathlib.Core.Path.{subst}
use umleitung.Base.{
  ℕ, ◌≡◌, refl, sym, ap, ◌∙◌, Bool, true, false, not, ◌&&◌, ◌||◌, List, [], ◌∷◌, ◌==◌ as nat_eq,
  arith,
}
use umleitung.Base.Text.{Text, ◌==◌}
use umleitung.Base.Exec.{Error, Result, ok, err, pure, each, ◌>>◌}
use umleitung.Base.Hoare.{
  After, Triple, Triple-pure, Triple-bind, Triple-if, Triple-given, Triple-gives, Triple-first,
}
use umleitung.Key.{MsgMeta, dedup_key}
use umleitung.State.Tables.{Db, is_member}
use umleitung.State.Store.{member_folders}
use umleitung.Env.{Env, Options, World, inside}
use umleitung.Env.Locals.{Triple-inside, Triple-assign}
use umleitung.Routing.{dest_folder_for, labels_for}
use umleitung.Routing.Laws.{home, dest_folder_for-home}
use umleitung.Routing.Reads.{dest_folder_for-Keeps}
use umleitung.Backfill.{Found, add_uid, note_missing, check_place, check_keywords, check_metas}
use umleitung.Backfill.Groups.{in_group, in_group-add_uid}
use umleitung.Backfill.Frame.{reads_member}

err-ok : {x : Error} {a : Text} → err x ≡ ok a → ⊥
err-ok e = cc

or_false : (b : Bool) → (b || false) ≡ b
or_false b = ground arith

or_assoc : (a b c : Bool) → ((a || b) || c) ≡ (a || (b || c))
or_assoc a b c = ground arith

note_missing-wrong :
    (E : Env) (o : Options) (v : ℕ) (kws : List Text) (f : Found)
    → (note_missing E o v kws f).wrong ≡ f.wrong
note_missing-wrong E o v [] f = refl
note_missing-wrong E o v (kw ∷ kws) f = refl

module _ (E : Env) (o : Options) (db : Db) (folder : Text) where
  -- where the message belongs, by the stored memberships
  abbrev pub place_of : MsgMeta → Text
  place_of m =
      home o (is_member o.source_inbox (dedup_key E.hex_sha256 m) db.members)
        (is_member o.sent_src_folder (dedup_key E.hex_sha256 m) db.members)

  -- one of the messages has this UID, stands in the wrong folder and belongs to `k`
  abbrev pub misplaced : Text → ℕ → List MsgMeta → Bool
  misplaced k u [] = false
  misplaced k u (m ∷ ms) =
      (not (place_of m == folder) && (place_of m == k && nat_eq m.uid u)) || misplaced k u ms

  module _ (quiet : (n : ℕ) → E.faults n ≡ false)
      (routed : (o.archive_routing || o.sent_routing) ≡ true) (k : Text) (u : ℕ) where
    abbrev At : Bool → World E × Found → Type 0
    At b s = (in_group k u s.1.wrong ≡ b) × (s.0.conn.db ≡ db)

    placed :
        (m : MsgMeta)
        → Triple {S = World E}
            (λ w. w.conn.db ≡ db)
            (dest_folder_for E o (dedup_key E.hex_sha256 m))
            (λ want w. (want ≡ place_of m) × (w.conn.db ≡ db))
            (λ w. ⊥)
    placed m = record {
      run = λ w h.
          go w h (dest_folder_for E o (dedup_key E.hex_sha256 m) w)
            (dest_folder_for-home E o (dedup_key E.hex_sha256 m) w quiet)
            ((dest_folder_for-Keeps E o (λ w. w.conn.db ≡ db) (reads_member E o (λ c d. c ≡ db))
                _).at
              w h);
    }
      where
        go :
            (w : World E)
            → w.conn.db ≡ db
            → (x : Result Text × World E)
            → x.0
              ≡ ok (
                  home o
                    (is_member o.source_inbox (dedup_key E.hex_sha256 m) w.conn.db.members)
                    (is_member o.sent_src_folder (dedup_key E.hex_sha256 m) w.conn.db.members))
            → x.1.conn.db ≡ db
            → After (λ want (v : World E). (want ≡ place_of m) × (v.conn.db ≡ db)) (λ v. ⊥) x
        go w h (ok want, v) e d = (
          subst
              (λ (c : Db).
                want
                ≡ home o (is_member o.source_inbox (dedup_key E.hex_sha256 m) c.members)
                    (is_member o.sent_src_folder (dedup_key E.hex_sha256 m) c.members))
              h (cc e),
          d,
        )
        go w h (err x, v) e d = absurd (err-ok e)

    -- the message belongs to `k`, stands in another folder, and has the UID
    abbrev is_noted : MsgMeta → Bool
    is_noted m = not (place_of m == folder) && (place_of m == k && nat_eq m.uid u)

    abbrev FoundPlace : Bool → MsgMeta → Text → World E × Found → Type 0
    FoundPlace b m want s =
        (in_group k u s.1.wrong ≡ b) × ((want ≡ place_of m) × (s.0.conn.db ≡ db))

    is_noted-add_uid :
        (b : Bool) (m : MsgMeta) (f : Found) (want : Text)
        → (in_group k u f.wrong ≡ b)
        → want ≡ place_of m
        → (want == folder) ≡ false
        → in_group k u (add_uid want m.uid f.wrong) ≡ (b || is_noted m)
    is_noted-add_uid b m f want h w e =
        in_group-add_uid k want u m.uid f.wrong ∙ rw (h, w, sym w, e) refl

    noted :
        (b : Bool) (m : MsgMeta)
        → Triple (At b) (check_place E o folder m) (λ v. At (b || is_noted m)) (λ s. ⊥)
    unfolding check_place
    noted b m = rw routed (
        Triple-bind {R = FoundPlace b m} (inside (dest_folder_for E o (dedup_key E.hex_sha256 m))) _
          (Triple-inside (dest_folder_for E o (dedup_key E.hex_sha256 m))
            (λ f. Triple-given (λ h. Triple-gives (λ want w q. (h, q)) (placed m))))
          (λ want.
            Triple-if (want == folder) (pure tt) _
              (λ e. Triple-pure tt (λ s h. (h.0 ∙ rw (sym h.1.0, e) (sym (or_false b)), h.1.1)))
              (λ e.
                Triple-first (λ s h. h)
                  (Triple-assign
                    (λ f w. (in_group k u f.wrong ≡ b) × ((want ≡ place_of m) × (w.conn.db ≡ db)))
                    (λ f w. (in_group k u f.wrong ≡ (b || is_noted m)) × (w.conn.db ≡ db))
                    (λ f w. ⊥) _ (λ f w h. (is_noted-add_uid b m f want h.0 h.1.0 e, h.1.1))))))

    labelled :
        (m : MsgMeta)
        → Triple {S = World E}
            (λ w. w.conn.db ≡ db)
            (labels_for E o (dedup_key E.hex_sha256 m))
            (λ labels w. w.conn.db ≡ db)
            (λ w. ⊥)
    unfolding labels_for member_folders
    labelled m = record { run = λ w h. rw (quiet w.conn.calls) h }

    unmoved : (b : Bool) (m : MsgMeta) → Triple (At b) (check_keywords E o m) (λ v. At b) (λ s. ⊥)
    unfolding check_keywords
    unmoved b m =
        Triple-if o.sync_labels _ (pure tt)
          (λ e.
            Triple-bind {R = λ labels. At b} (inside (labels_for E o (dedup_key E.hex_sha256 m))) _
              (Triple-inside (labels_for E o (dedup_key E.hex_sha256 m))
                (λ f. Triple-given (λ h. Triple-gives (λ labels w q. (h, q)) (labelled m))))
              (λ labels.
                Triple-assign (λ f w. (in_group k u f.wrong ≡ b) × (w.conn.db ≡ db))
                  (λ f w. (in_group k u f.wrong ≡ b) × (w.conn.db ≡ db)) (λ f w. ⊥) _
                  (λ f w h. (ap (in_group k u) (note_missing-wrong E o m.uid _ f) ∙ h.0, h.1))))
          (λ e. Triple-pure tt (λ s h. h))

    noted_all :
        (ms : List MsgMeta) (b : Bool)
        → Triple
            (At b)
            (each ms (λ m. check_place E o folder m >> check_keywords E o m))
            (λ v. At (b || misplaced k u ms))
            (λ s. ⊥)
    noted_all [] b = Triple-pure tt (λ s h. (h.0 ∙ sym (or_false b), h.1))
    noted_all (m ∷ ms) b =
        Triple-bind _ _ (Triple-bind _ _ (noted b m) (λ v. unmoved (b || is_noted m) m)) (λ v.
          Triple-gives (λ a s h. (h.0 ∙ or_assoc b (is_noted m) (misplaced k u ms), h.1))
            (noted_all ms (b || is_noted m)))

unfailing :
    {S : Type 0} (Q : S → Type 0) (x : Result (Unit {0}) × S)
    → After (λ u. Q) (λ s. ⊥) x
    → (x.0 ≡ ok tt) × Q x.1
unfailing Q (ok u, s) h = (refl, h)
unfailing Q (err e, s) h = absurd h

-- With routing on and while the database answers, a look through messages of a folder does not fail,
-- and behind it a UID is to be moved to a folder exactly if it was before or if one of the messages
-- has it, stands elsewhere than where it belongs, and belongs to that folder by the stored memberships.
pub check_metas-misplaced :
    (E : Env) (o : Options) (folder k : Text) (u stop : ℕ) (ms : List MsgMeta) (w : World E)
    (f : Found)
    → ((n : ℕ) → E.faults n ≡ false)
    → (o.archive_routing || o.sent_routing) ≡ true
    → ((check_metas E o folder stop ms (w, f)).0 ≡ ok tt)
      × (in_group k u (check_metas E o folder stop ms (w, f)).1.1.wrong
          ≡ (in_group k u f.wrong || misplaced E o w.conn.db folder k u ms))
unfolding check_metas
check_metas-misplaced E o folder k u stop ms w f quiet routed =
    let x = unfailing _ (check_metas E o folder stop ms (w, f)) (
      (noted_all E o w.conn.db folder quiet routed k u ms (in_group k u f.wrong)).run (w, f)
        (refl, refl)) in
    (x.0, x.1.0)
