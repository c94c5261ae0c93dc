-- ===== src/Mirror/Repeat.antt =====
-- A window of messages that are all recorded.
use mathlib.Core.Path.{subst}
use umleitung.Base.{◌≡◌, refl, sym, ap, ◌∙◌, true, none, List, [], ◌∷◌, Bool-cases, inl, inr, All}
use umleitung.Base.Text.{Text}
use umleitung.Base.Exec.{◌>>=◌}
use umleitung.Base.Hoare.{After, Triple, Triple-pure, Triple-bind, Triple-state}
use umleitung.Key.{MsgMeta, dedup_key}
use umleitung.State.Tables.{Db, has_row}
use umleitung.State.Store.{has_key}
use umleitung.Env.{Env, Options, World, on_store, check_ctx}
use umleitung.Mirror.{keys_with, prepend, classify_one, classify, guard_if, copy_if, mirror_window}

module _ (E : Env) (o : Options) (db : Db) (src : E.Src) (dst : E.Dst) where
  -- the database and the two servers are as they were
  abbrev pub IsSame : World E → Type 0
  IsSame w = (w.conn.db ≡ db) × (w.src ≡ src) × (w.dst ≡ dst)

  abbrev IsRecorded : MsgMeta → Type 0
  IsRecorded m = has_row (dedup_key E.hex_sha256 m) db.copied ≡ true

  checked : Triple IsSame check_ctx (λ u. IsSame) IsSame
  checked = record {
    run = λ w h. elim (Bool-cases (E.done w.polls)) [ inl e ↦ rw e h | inr e ↦ rw e h ];
  }

  looked :
      (k : Text)
      → has_row k db.copied ≡ true
      → Triple IsSame (on_store (has_key E.faults k)) (λ b w. (b ≡ true) × IsSame w) IsSame
  unfolding has_key
  looked k r = record {
    run = λ w h. elim (Bool-cases (E.faults w.conn.calls)) [
      | inl e ↦ rw e h
      | inr e ↦ rw e (ap (λ d. has_row k d.copied) h.0 ∙ r, h)
    ];
  }

  skipped :
      (keys : List Text) (m : MsgMeta)
      → IsRecorded m
      → Triple IsSame (classify_one E o keys m) (λ c w. (c ≡ none) × IsSame w) IsSame
  unfolding classify_one
  skipped keys m r = Triple-bind check_ctx _ checked λ u.
      Triple-bind (on_store (has_key E.faults (dedup_key E.hex_sha256 m))) _ (looked _ r)
        λ seen. record { run = λ w h. rw (h.0) (refl, h.1) }

  rest_skipped :
      (keys : List Text) (metas : List MsgMeta)
      → All IsRecorded metas
      → Triple IsSame (classify E o keys metas) (λ pend w. (pend ≡ []) × IsSame w) IsSame
  unfolding classify
  rest_skipped keys [] r = Triple-pure [] (λ w h. (refl, h))
  rest_skipped keys (m ∷ metas) r =
      Triple-bind (classify_one E o keys m) _ (skipped keys m r.0) λ c. record {
        run = λ w h.
            (Triple-bind (classify E o (keys_with c keys) metas) _
                (rest_skipped (keys_with c keys) metas r.1)
                (λ pend. record { run = λ v g. (ap (λ d. prepend d pend) h.0 ∙ g.0, g.1) })).run
              w h.1;
      }

  none_left :
      (w : World E)
      → IsSame w
      → After (λ u. IsSame) IsSame ((do kept ← guard_if E o []; copy_if E o kept) w)
  none_left w h = h

  window_skipped :
      (metas : List MsgMeta)
      → All IsRecorded metas
      → Triple IsSame (mirror_window E o metas) (λ u. IsSame) IsSame
  unfolding mirror_window
  window_skipped metas r = Triple-bind (classify E o [] metas) _ (rest_skipped [] metas r) λ pend.
      record {
        run = λ w h.
            subst
              (λ ps. After (λ u. IsSame) IsSame ((do kept ← guard_if E o ps; copy_if E o kept) w))
              (sym h.0) (none_left w h.1);
      }

-- A window of messages whose keys are all recorded changes neither the database nor a server, whether
-- it returns or fails: nothing is searched for and nothing is appended.
pub mirror_window-IsSame :
    (E : Env) (o : Options) (metas : List MsgMeta) (w : World E)
    → All (λ m. has_row (dedup_key E.hex_sha256 m) w.conn.db.copied ≡ true) metas
    → IsSame E o w.conn.db w.src w.dst (mirror_window E o metas w).1
mirror_window-IsSame E o metas w r =
    let db = w.conn.db in
    Triple-state (mirror_window E o metas) (window_skipped E o db w.src w.dst metas r) (λ u v h. h)
      w (refl, refl, refl)
