-- ===== src/State/Migrate/Schema.antt =====
-- What a migration makes of a database file, whatever fails.
use mathlib.Core.Path.{subst}
use umleitung.Base.{
  ℕ, suc, ◌-◌, ◌≡◌, refl, sym, ap, ◌∙◌, ◌⊎◌, inl, inr, Bool, false, Option, none, some, List, [],
  map, ltb, if◌then◌else◌, Bool-cases,
}
use umleitung.Base.Exec.{Result, ok, err, newer_schema, Exec, raise, ◌>>◌}
use umleitung.Base.Hoare.{After, Triple, Triple-bind, Triple-pure}
use umleitung.State.Migrate.{
  File, member_of_label, create_if_missing, create_v1, create_v2, migration, FileConn, rolled_back,
  executed, driver_call, exec_script, set_version, migrate_step, migrate_from, migrate,
}

abbrev pub rows : {A : Type 0} → Option (List A) → List A
rows none = []
rows (some xs) = xs

-- the file under the first schema: the tables that were missing are empty
abbrev pub first_schema : File → File
first_schema f = record f {
  user_version = 1;
  copied = some (rows f.copied);
  meta = some (rows f.meta);
  labels = some (rows f.labels);
  folders = some (rows f.folders);
}

-- the file under the second schema: the labels are members with no UID, no folder has been scanned
abbrev pub second_schema : File → File
second_schema f = record {
  user_version = 2;
  copied = some (rows f.copied);
  meta = some (rows f.meta);
  labels = none;
  folders = some [];
  members = some (map member_of_label (rows f.labels));
  pending = some [];
}

-- a file that an earlier version of the program has left
pub data IsEarlier (f : File) : Type 0 where
  unversioned : f.user_version ≡ 0 → f.members ≡ none → f.pending ≡ none → IsEarlier f
  versioned : f ≡ first_schema f → f.members ≡ none → f.pending ≡ none → IsEarlier f

create_if_missing_lem : {A : Type 0} (t : Option (List A)) → create_if_missing t ≡ some (rows t)
create_if_missing_lem none = refl
create_if_missing_lem (some xs) = refl

create_v1_lem :
    (f : File) → create_v1 f ≡ some (record (first_schema f) { user_version = f.user_version })
unfolding create_v1
create_v1_lem f =
    rw
      (
        create_if_missing_lem f.copied,
        create_if_missing_lem f.meta,
        create_if_missing_lem f.labels,
        create_if_missing_lem f.folders,
      )
      refl

create_v2_lem :
    (f : File)
    → f.members ≡ none
    → f.pending ≡ none
    → create_v2 (first_schema f) ≡ some (record (second_schema f) { user_version = 1 })
unfolding create_v2
create_v2_lem f m p = rw (m, p) refl

Triple-error :
    {S A : Type 0} {P X Y : S → Type 0} {Q : A → S → Type 0} {m : Exec S A}
    → Triple P m Q X
    → ((s : S) → X s → Y s)
    → Triple P m Q Y
Triple-error {S} {A} {P} {X} {Y} {Q} {m} t k = record { run = λ s h. go (m s) (t.run s h) }
  where
    go : (x : Result A × S) → After Q X x → After Q Y x
    go (ok a, s) h = h
    go (err e, s) h = k s h

abbrev pub Has : File → FileConn → Type 0
Has f c = c.file ≡ f

abbrev Any : FileConn → Type 0
Any c = Unit

-- the file is as it was, or under the first schema
abbrev pub Unmoved : File → FileConn → Type 0
Unmoved f c = Has f c ⊎ Has (first_schema f) c

module _ (faults : ℕ → Bool) where
  pub call-Has :
      (f : File) (X : FileConn → Type 0)
      → ((c : FileConn) → Has f c → X c)
      → Triple (Has f) (driver_call faults) (λ u. Has f) X
  call-Has f X x = record {
    run = λ c h. elim (Bool-cases (faults c.calls)) [ inl e ↦ rw e (x _ h) | inr e ↦ rw e h ];
  }

  executed-Has :
      (f g : File) (script : File → Option File)
      → script f ≡ some g
      → Triple (Has f) (λ c. executed (script c.file) c) (λ u. Has g) Any
  executed-Has f g script e = record { run = λ c h. rw (h, e) refl }

  script-Has :
      (f g : File) (script : File → Option File)
      → script f ≡ some g
      → Triple (Has f) (exec_script faults script) (λ u. Has g) Any
  script-Has f g script e =
      Triple-bind (driver_call faults) _ (call-Has f Any (λ c h. tt))
        (λ u. executed-Has f g script e)

  rolled_back-After :
      (f g old : File) (x : Result (Unit {0}) × FileConn)
      → old ≡ f
      → After (λ u. Has g) Any x
      → After (λ u. Has g) (Has f) (rolled_back old x)
  rolled_back-After f g old (ok u, c) o h = h
  rolled_back-After f g old (err e, c) o h = o

  step-Has :
      (v : ℕ) (f g : File)
      → migration v f ≡ some g
      → Triple
          (Has f)
          (migrate_step faults v)
          (λ u. Has (record g { user_version = suc v }))
          (Has f)
  unfolding migrate_step
  step-Has v f g e = record {
    run = λ c h. rolled_back-After f (record g { user_version = suc v }) c.file _ h (body.run c h);
  }
    where
      body :
          Triple
            (Has f)
            (driver_call faults
              >> exec_script faults (migration v)
              >> exec_script faults (set_version (suc v))
              >> driver_call faults)
            (λ u. Has (record g { user_version = suc v }))
            Any
      body =
          Triple-bind _ _
            (Triple-bind _ _
              (Triple-bind (driver_call faults) _ (call-Has f Any (λ c h. tt))
                (λ u. script-Has f g (migration v) e))
              (λ u. script-Has g (record g { user_version = suc v }) (set_version (suc v)) refl))
            (λ u. call-Has (record g { user_version = suc v }) Any (λ c h. tt))

  first_step :
      (f : File) → Triple (Has f) (migrate_step faults 0) (λ u. Has (first_schema f)) (Has f)
  first_step f =
      step-Has 0 f (record (first_schema f) { user_version = f.user_version }) (create_v1_lem f)

  second_step :
      (f : File)
      → f.members ≡ none
      → f.pending ≡ none
      → Triple
          (Has (first_schema f))
          (migrate_step faults 1)
          (λ u. Has (second_schema f))
          (Has (first_schema f))
  second_step f m p =
      step-Has 1 (first_schema f) (record (second_schema f) { user_version = 1 })
        (create_v2_lem f m p)

  last_version :
      (f : File)
      → f.members ≡ none
      → f.pending ≡ none
      → Triple
          (Has (first_schema f))
          (migrate_from faults 1 1)
          (λ u. Has (second_schema f))
          (Unmoved f)
  unfolding migrate_from
  last_version f m p =
      Triple-bind (migrate_step faults 1) _ (Triple-error (second_step f m p) (λ c. inr))
        (λ u. Triple-pure tt (λ c h. h))

  both_versions :
      (f : File)
      → f.members ≡ none
      → f.pending ≡ none
      → Triple (Has f) (migrate_from faults 2 0) (λ u. Has (second_schema f)) (Unmoved f)
  unfolding migrate_from
  both_versions f m p =
      Triple-bind (migrate_step faults 0) _ (Triple-error (first_step f) (λ c. inl))
        (λ u. last_version f m p)

  -- the version is read before the loop
  versions_of :
      (f : File) (n v : ℕ)
      → f.user_version ≡ v
      → ltb 2 v ≡ false
      → 2 - v ≡ n
      → Triple (Has f) (migrate_from faults n v) (λ u. Has (second_schema f)) (Unmoved f)
      → Triple (Has f) (migrate faults) (λ u. Has (second_schema f)) (Unmoved f)
  unfolding migrate
  versions_of f n v e b d t =
      Triple-bind (driver_call faults) _ (call-Has f (Unmoved f) (λ c. inl)) λ u. record {
        run = λ c h.
            subst
              (λ w.
                After (λ u. Has (second_schema f)) (Unmoved f)
                  ((if ltb 2 w then raise newer_schema else migrate_from faults (2 - w) w) c))
              (sym (ap (λ g. g.user_version) h ∙ e)) (rw (b, d) (t.run c h));
      }

  -- Whatever calls fail, a migration of a file that an earlier version has left returns with the
  -- file under the second schema (messages and metadata kept, a member with no UID for each label, no
  -- scanned folder), or fails with the file as it was or under the first schema.
  pub migrate_lem :
      (c : FileConn)
      → IsEarlier c.file
      → After (λ u. Has (second_schema c.file)) (Unmoved c.file) (migrate faults c)
  migrate_lem c (unversioned e m p) =
      (versions_of c.file 2 0 e refl refl (both_versions c.file m p)).run c refl
  migrate_lem c (versioned e m p) =
      (versions_of c.file 1 1 (ap (λ f. f.user_version) e) refl refl (
          subst
            (λ g.
              Triple (Has g) (migrate_from faults 1 1) (λ u. Has (second_schema c.file))
                (Unmoved c.file))
            (sym e) (last_version c.file m p))).run
        c refl
