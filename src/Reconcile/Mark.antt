-- ===== src/Reconcile/Mark.antt =====
-- The mark of the last UID advances behind a whole window alone.
use umleitung.Base.{
  ℕ, ◌+◌, ◌≡◌, refl, ap, ◌∙◌, Bool, ◌||◌, none, List, [], ◌∷◌, length, Bool-cases, inl, inr,
}
use umleitung.Base.Text.{Text, codes, contains, decimal}
use umleitung.Base.Exec.{Result, ok, err, pure, gets, continue, ◌>>=◌}
use umleitung.Base.Keeps.{Keeps, Keeps-bind, Keeps-then, Keeps-if, Keeps-pure}
use umleitung.Base.Hoare.{After}
use umleitung.Key.{MsgMeta, dedup_key}
use umleitung.State.Tables.{Db, put_meta}
use umleitung.State.Store.{
  Conn, has_key, member_has, record_keys, set_last_uid, meta_set, meta_set_uint,
}
use umleitung.Env.{Env, Options, World, on_store, on_dst, check_ctx}
use umleitung.Routing.Reads.{dest_folder_for-Keeps}
use umleitung.Routing.{dest_folder_for, dest_bucket_folders}
use umleitung.Mirror.{
  skip_one, keys_with, real_ids, found_of, record_of, classify_one, classify, search_folders,
  record_found, drop_found, guard, guard_if, copy_if, mirror_window,
}
use umleitung.Mirror.Pipeline.{PendingCopy}
use umleitung.Mirror.Rest.{rest_of, HasRest, HasRest-record_keys, copy_pipeline-HasRest}
use umleitung.Reconcile.{mirror_step}

module _ (E : Env) (o : Options) (rest : Db) where
  abbrev P : World E → Type 0
  P = HasRest E o rest

  keeps_member : (f k : Text) → Keeps P (on_store (member_has E.faults f k))
  unfolding member_has
  keeps_member f k = record {
    at = λ w h. elim (Bool-cases (E.faults w.conn.calls)) [ inl e ↦ rw e h | inr e ↦ rw e h ];
  }

  keeps_key : (k : Text) → Keeps P (on_store (has_key E.faults k))
  unfolding has_key
  keeps_key k = record {
    at = λ w h. elim (Bool-cases (E.faults w.conn.calls)) [ inl e ↦ rw e h | inr e ↦ rw e h ];
  }

  dest_folder_for-P : (k : Text) → Keeps P (dest_folder_for E o k)
  dest_folder_for-P k = dest_folder_for-Keeps E o P keeps_member k

  classify_one-P : (keys : List Text) (m : MsgMeta) → Keeps P (classify_one E o keys m)
  unfolding classify_one
  classify_one-P keys m =
      Keeps-then check_ctx _ (record { at = λ w h. h })
        (Keeps-bind (on_store (has_key E.faults (dedup_key E.hex_sha256 m))) _ (keeps_key _)
          (λ seen.
            Keeps-if (seen || contains keys (dedup_key E.hex_sha256 m)) _ _
              (Keeps-then skip_one _ (record { at = λ w h. h }) (Keeps-pure none))
              (Keeps-bind (dest_folder_for E o (dedup_key E.hex_sha256 m)) _ (dest_folder_for-P _)
                (λ f. Keeps-pure _))))

  classify-P : (keys : List Text) (ms : List MsgMeta) → Keeps P (classify E o keys ms)
  unfolding classify
  classify-P keys [] = Keeps-pure []
  classify-P keys (m ∷ ms) = Keeps-bind (classify_one E o keys m) _ (classify_one-P keys m) (λ c.
      Keeps-bind (classify E o (keys_with c keys) ms) _ (classify-P (keys_with c keys) ms)
        (λ pend. Keeps-pure _))

  search_folders-P : (ids fs : List Text) → Keeps P (search_folders E o ids fs)
  unfolding search_folders
  search_folders-P ids [] = Keeps-pure []
  search_folders-P ids (f ∷ fs) =
      Keeps-bind (on_dst (E.dst_search_message_ids_in f ids)) _ (record { at = λ w h. h })
        (λ found.
          Keeps-bind (search_folders E o ids fs) _ (search_folders-P ids fs) (λ r. Keeps-pure _))

  record_found-P : (ps : List PendingCopy) → Keeps P (record_found E o ps)
  unfolding record_found
  record_found-P [] = Keeps-pure []
  record_found-P (p ∷ ps) =
      Keeps-then skip_one _ (record { at = λ w h. h })
        (Keeps-bind (gets (λ (w : World E). E.now w.polls)) _ (record { at = λ w h. h })
          (λ now.
            Keeps-bind (record_found E o ps) _ (record_found-P ps)
              (λ rs. Keeps-pure (record_of now p ∷ rs))))

  guard-P : (pend : List PendingCopy) → Keeps P (guard E o pend)
  unfolding guard
  guard-P pend = go (real_ids pend)
    where
      go :
          (ids : List Text)
          → Keeps P (elim ids [
            | [] ↦ pure pend
            | id ∷ more ↦ (do
              found ← search_folders E o (id ∷ more) (dest_bucket_folders o)
              drop_found E o pend found)
          ])
      go [] = Keeps-pure pend
      go (id ∷ more) =
          Keeps-bind (search_folders E o (id ∷ more) (dest_bucket_folders o)) _
            (search_folders-P (id ∷ more) (dest_bucket_folders o))
            (λ found.
              Keeps-bind (record_found E o (found_of found pend)) _ (record_found-P _) (λ rs.
                Keeps-then (on_store (record_keys E.faults rs)) _ (HasRest-record_keys E o rest rs)
                  (Keeps-pure _)))

  guard_if-P : (pend : List PendingCopy) → Keeps P (guard_if E o pend)
  guard_if-P [] = Keeps-pure []
  guard_if-P (p ∷ pend) = Keeps-if o.dest_guard _ _ (guard-P (p ∷ pend)) (Keeps-pure (p ∷ pend))

  copy_if-P : (pend : List PendingCopy) → Keeps P (copy_if E o pend)
  copy_if-P [] = Keeps-pure tt
  copy_if-P (p ∷ pend) = copy_pipeline-HasRest E o rest (p ∷ pend)

  mirror_window-P : (ms : List MsgMeta) → Keeps P (mirror_window E o ms)
  unfolding mirror_window
  mirror_window-P ms =
      Keeps-bind (classify E o [] ms) _ (classify-P [] ms)
        (λ pend. Keeps-bind (guard_if E o pend) _ (guard_if-P pend) copy_if-P)

-- with the mark at `stop`
abbrev pub marked : ℕ → Db → Db
marked stop db = record db { meta = put_meta (codes "last_uid") (decimal stop) db.meta }

set_last_uid_lem :
    (faults : ℕ → Bool) (stop : ℕ) (c : Conn)
    → After (λ u d. d.db ≡ marked stop c.db) (λ d. d.db ≡ c.db) (set_last_uid faults stop c)
unfolding set_last_uid meta_set_uint meta_set
set_last_uid_lem faults stop c = elim (Bool-cases (faults c.calls)) [
  | inl e ↦ rw e refl
  | inr e ↦ rw e refl
]

module _ (E : Env) (o : Options) (stop : ℕ) (db : Db) where
  abbrev Marked : Result (Unit {0}) × World E → Type 0
  Marked =
      After (λ u v. rest_of v.conn.db ≡ rest_of (marked stop db))
        (λ v. rest_of v.conn.db ≡ rest_of db)

  Marked-set :
      (w : World E)
      → rest_of w.conn.db ≡ rest_of db
      → (x : Result (Unit {0}) × Conn)
      → After (λ u d. d.db ≡ marked stop w.conn.db) (λ d. d.db ≡ w.conn.db) x
      → Marked (x.0, record w { conn = x.1 })
  Marked-set w h (ok u, c) y = ap rest_of y ∙ ap (marked stop) h
  Marked-set w h (err e, c) y = ap rest_of y ∙ h

  Marked-then :
      (x : Result (Unit {0}) × World E)
      → rest_of x.1.conn.db ≡ rest_of db
      → Marked (continue x.0 (λ u. on_store (set_last_uid E.faults stop)) x.1)
  Marked-then (ok u, w) h =
      Marked-set w h (set_last_uid E.faults stop w.conn) (set_last_uid_lem E.faults stop w.conn)
  Marked-then (err e, w) h = h

-- Beside the copied keys, a window that succeeds changes the mark alone, to its last UID, and a window
-- that fails changes nothing.
pub mirror_step_lem :
    (E : Env) (o : Options) (stop : ℕ) (ms : List MsgMeta) (w : World E)
    → After
        (λ u v. rest_of v.conn.db ≡ rest_of (marked stop w.conn.db))
        (λ v. rest_of v.conn.db ≡ rest_of w.conn.db)
        (mirror_step E o stop ms w)
unfolding mirror_step
mirror_step_lem E o stop ms w =
    let v = record w { sum = record w.sum { candidates = w.sum.candidates + length ms } } in
    Marked-then E o stop w.conn.db (mirror_window E o ms v)
      ((mirror_window-P E o (rest_of w.conn.db) ms).at v refl)
