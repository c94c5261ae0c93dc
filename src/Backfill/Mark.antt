-- ===== src/Backfill/Mark.antt =====
-- The fingerprint is stored behind a complete backfill alone.
use umleitung.Base.{◌≡◌, refl, sym, ap, if◌then◌else◌, Bool-cases, inl, inr}
use umleitung.Base.Text.{Text, ◌==◌}
use umleitung.Base.Exec.{pure, ◌>>◌}
use umleitung.Base.Keeps.{Keeps}
use umleitung.Base.Hoare.{After, Triple, Triple-pure, Triple-Keeps, Triple-if, Triple-bind}
use umleitung.State.Tables.{Db, lookup_meta, put_meta}
use umleitung.State.Store.{meta_get, meta_set}
use umleitung.Env.{Env, Options, World, on_store}
use umleitung.Backfill.{backfill_fingerprint, fingerprint_key, backfill_all, maybe_backfill}
use umleitung.Backfill.Frame.{backfill_all-Keeps, reads_member, reads_folders}

-- the database behind a backfill: with the new fingerprint, unless that was stored
abbrev pub backfilled : Options → Db → Db
backfilled o db =
    if lookup_meta fingerprint_key db.meta == backfill_fingerprint o
    then db
    else record db { meta = put_meta fingerprint_key (backfill_fingerprint o) db.meta }

module _ (E : Env) (o : Options) (db : Db) where
  abbrev Q : World E → Type 0
  Q w = w.conn.db ≡ db

  backfill_all-Q : Keeps Q (backfill_all E o)
  backfill_all-Q =
      backfill_all-Keeps E o Q (reads_member E o (λ c d. c ≡ db))
        (reads_folders E o (λ c d. c ≡ db)) (record { at = λ w h. h })
        (λ f. record { at = λ w h. h }) (λ f. record { at = λ w h. h })
        (λ a b. record { at = λ w h. h }) (λ us kws. record { at = λ w h. h })
        (λ f us g. record { at = λ w h. h })

  looked :
      (k : Text)
      → Triple Q (on_store (meta_get E.faults k)) (λ v w. Q w × (v ≡ lookup_meta k db.meta)) Q
  unfolding meta_get
  looked k = record {
    run = λ w h. elim (Bool-cases (E.faults w.conn.calls)) [
      | inl e ↦ rw e h
      | inr e ↦ rw e (h, ap (λ (d : Db). lookup_meta k d.meta) h)
    ];
  }

  stored :
      (k v : Text)
      → Triple Q
          (on_store (meta_set E.faults k v))
          (λ u w. w.conn.db ≡ record db { meta = put_meta k v db.meta })
          Q
  unfolding meta_set
  stored k v = record {
    run = λ w h. elim (Bool-cases (E.faults w.conn.calls)) [
      | inl e ↦ rw e h
      | inr e ↦ rw e (ap (λ (d : Db). record d { meta = put_meta k v d.meta }) h)
    ];
  }

  backfilled-maybe_backfill : Triple Q (maybe_backfill E o) (λ u w. w.conn.db ≡ backfilled o db) Q
  unfolding maybe_backfill
  backfilled-maybe_backfill =
      Triple-bind (on_store (meta_get E.faults fingerprint_key)) _ (looked fingerprint_key) λ s.
        record {
          run = λ w h.
              (Triple-if {P = Q} (s == backfill_fingerprint o) (pure tt)
                  (do
                    backfill_all E o
                    on_store (meta_set E.faults fingerprint_key (backfill_fingerprint o)))
                  (λ e. Triple-pure tt (λ v i. rw (sym h.1, e) i))
                  (λ e.
                    Triple-bind (backfill_all E o) _
                      (Triple-Keeps (backfill_all E o) backfill_all-Q (λ v i. i) (λ u v i. i))
                      (λ u. record {
                        run = λ v i.
                            rw (sym h.1, e)
                              ((stored fingerprint_key (backfill_fingerprint o)).run v i);
                      }))).run
                w h.0;
        }

-- A backfill that succeeds changes nothing of the database but the fingerprint, which is that of the
-- configuration then; one that fails, wherever it does, changes nothing, the fingerprint included.
pub maybe_backfill_lem :
    (E : Env) (o : Options) (w : World E)
    → After
        (λ u v. v.conn.db ≡ backfilled o w.conn.db)
        (λ v. v.conn.db ≡ w.conn.db)
        (maybe_backfill E o w)
maybe_backfill_lem E o w = (backfilled-maybe_backfill E o w.conn.db).run w refl
