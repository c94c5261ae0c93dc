-- ===== src/Safety/Records.antt =====
-- Recording keys of messages that the destination has keeps the invariant.
use mathlib.Core.Path.{subst}
use umleitung.Base.{
  ◌≡◌, refl, sym, ap, true, ◌⊎◌, inl, inr, List, [], ◌∷◌, ◌++◌, map, if◌then◌else◌, All, arith,
}
use umleitung.Base.Text.{Text, ◌==◌, eq_iff}
use umleitung.Base.Exec.{Result, ok, err}
use umleitung.State.Tables.{Db, KeyRecord, has_row, insert_copied}
use umleitung.State.Store.{Conn, record_keys, seed_batch, exec_batch}
use umleitung.State.Atomic.{apply_all, WholeOrNothing, exec_batch-WholeOrNothing}
use umleitung.Env.{Env, World, on_store}
use umleitung.Safety.Frame.{Sound}

has_row-append :
    (k : Text) (rows : List KeyRecord) (r : KeyRecord)
    → has_row k (rows ++ r ∷ []) ≡ (if has_row k rows then true else (r.key == k))
unfolding has_row
has_row-append k [] r = ground arith
has_row-append k (q ∷ rows) r = ground (arith, has_row-append k rows r)

has_row-insert :
    (k : Text) (r : KeyRecord) (db : Db)
    → has_row k (insert_copied r db).copied ≡ true
    → (has_row k db.copied ≡ true) ⊎ (r.key ≡ k)
unfolding insert_copied
has_row-insert k r db h = ground (arith, has_row-append k db.copied r, eq_iff r.key k)

-- a predicate of the recorded keys
abbrev Recorded : (Text → Type 0) → Db → Type 0
Recorded P db = (k : Text) → has_row k db.copied ≡ true → P k

Recorded-insert :
    (P : Text → Type 0) (r : KeyRecord) (db : Db)
    → P r.key
    → Recorded P db
    → Recorded P (insert_copied r db)
Recorded-insert P r db p h k e = elim (has_row-insert k r db e) [
  | inl old ↦ h k old
  | inr new ↦ subst P new p
]

Recorded-apply_all :
    (P : Text → Type 0) (rs : List KeyRecord) (db : Db)
    → All (λ r. P r.key) rs
    → Recorded P db
    → Recorded P (apply_all (map insert_copied rs) db)
Recorded-apply_all P [] db ps h = h
Recorded-apply_all P (r ∷ rs) db ps h =
    Recorded-apply_all P rs (insert_copied r db) ps.1 (Recorded-insert P r db ps.0 h)

Recorded-batch :
    (P : Text → Type 0) (f : Db → Db) (db : Db)
    → Recorded P db
    → Recorded P (f db)
    → (x : Result (Unit {0}) × Conn) → WholeOrNothing f db x
    → Recorded P x.1.db
Recorded-batch P f db h k (ok u, c) w = subst (Recorded P) (sym w) k
Recorded-batch P f db h k (err e, c) w = subst (Recorded P) (sym w.1) h

abbrev seed_records : List Text → List KeyRecord
seed_records [] = []
seed_records (k ∷ ks) = record { key = k; uid = 0; copied_at = 0 } ∷ seed_records ks

map-seed_records :
    (ks : List Text)
    → map (λ k. insert_copied (record { key = k; uid = 0; copied_at = 0 })) ks
      ≡ map insert_copied (seed_records ks)
map-seed_records [] = refl
map-seed_records (k ∷ ks) =
    ap (λ fs. insert_copied (record { key = k; uid = 0; copied_at = 0 }) ∷ fs) (map-seed_records ks)

All-seed_records :
    (P : Text → Type 0) (ks : List Text) → All P ks → All (λ r. P r.key) (seed_records ks)
All-seed_records P [] h = tt
All-seed_records P (k ∷ ks) h = (h.0, All-seed_records P ks h.1)

module _ (E : Env) (H : Text → E.Dst → Type 0) (J : E.Src → Type 0) where
  pub Sound-record_keys :
      (rs : List KeyRecord) (w : World E)
      → All (λ r. H r.key w.dst) rs
      → Sound H J w
      → Sound H J (on_store {E = E} (record_keys E.faults rs) w).1
  unfolding record_keys
  Sound-record_keys rs w ps h =
      let f = apply_all (map insert_copied rs) in
      let x = exec_batch E.faults (map insert_copied rs) w.conn in
      (
        Recorded-batch (λ k. H k w.dst) f w.conn.db h.0
            (Recorded-apply_all (λ k. H k w.dst) rs w.conn.db ps h.0) x
            (exec_batch-WholeOrNothing E.faults (map insert_copied rs) w.conn),
        h.1,
      )

  pub Sound-seed_batch :
      (ks : List Text) (w : World E)
      → All (λ k. H k w.dst) ks
      → Sound H J w
      → Sound H J (on_store {E = E} (seed_batch E.faults ks) w).1
  unfolding seed_batch record_keys
  Sound-seed_batch ks w ps h =
      rw (map-seed_records ks)
        (Sound-record_keys (seed_records ks) w (All-seed_records (λ k. H k w.dst) ks ps) h)
