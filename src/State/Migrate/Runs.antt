-- ===== src/State/Migrate/Runs.antt =====
-- A migration of a current or newer file, and one in which no call fails.
use mathlib.Core.Path.{subst}
use umleitung.Base.{
  ℕ, ◌-◌, ◌≡◌, ◌≤◌, refl, sym, Bool, false, inl, inr, Option, none, some, List, ltb, arith,
  if◌then◌else◌, Bool-cases,
}
use umleitung.Base.Text.{Text}
use umleitung.Base.Exec.{ok, err, newer_schema}
use umleitung.State.Tables.{FolderRow}
use umleitung.State.Migrate.{
  File, create_v1, create_v2, FileConn, migrate_step, migrate_from, migrate,
}
use umleitung.State.Migrate.Schema.{IsEarlier, unversioned, versioned, first_schema}

-- A file of the second schema or of a later one is left as it is. A later one is refused, by the
-- error that says so if the version can be read.
migrate-current :
    (faults : ℕ → Bool) (c : FileConn)
    → 2 ≤ c.file.user_version
    → (faults c.calls ≡ false)
    → ((migrate faults c).0 ≡ (if ltb 2 c.file.user_version then err newer_schema else ok tt))
      × ((migrate faults c).1.file ≡ c.file)
unfolding migrate migrate_from
migrate-current faults c h e = elim (Bool-cases (ltb 2 c.file.user_version)) [
  | inl newer ↦ rw (e, newer) (refl, refl)
  | inr same ↦ let n : 2 - c.file.user_version ≡ 0 = omega arith in rw (e, same, n) (refl, refl)
]

migrate_first :
    (f : File) (n : ℕ)
    → f.members ≡ none
    → f.pending ≡ none
    → (migrate (λ n. false) (record { file = first_schema f; calls = n })).0 ≡ ok tt
unfolding migrate migrate_from migrate_step create_v2
migrate_first f n m p = rw (m, p) refl

migrate_unversioned :
    (f : File) (labels : Option (List (Text × Text))) (folders : Option (List FolderRow)) (n : ℕ)
    → (migrate
        (λ n. false)
        (record {
          file = record f {
            user_version = 0;
            labels = labels;
            folders = folders;
            members = none;
            pending = none;
          };
          calls = n;
        })).0
      ≡ ok tt
unfolding migrate migrate_from migrate_step create_v1 create_v2
migrate_unversioned f none none n = refl
migrate_unversioned f none (some fs) n = refl
migrate_unversioned f (some ls) none n = refl
migrate_unversioned f (some ls) (some fs) n = refl

unversioned_fields :
    (f : File)
    → f.user_version ≡ 0
    → f.members ≡ none
    → f.pending ≡ none
    → f ≡ record f { user_version = 0; members = none; pending = none }
unversioned_fields f e m p = λ i. record f { user_version = e i; members = m i; pending = p i }

-- If no call fails, a file that an earlier version has left is migrated.
pub migrate-unfailing : (c : FileConn) → IsEarlier c.file → (migrate (λ n. false) c).0 ≡ ok tt
unfolding migrate migrate_from migrate_step create_v1 create_v2
migrate-unfailing c (unversioned e m p) =
    subst (λ f. (migrate (λ n. false) (record { file = f; calls = c.calls })).0 ≡ ok tt)
      (sym (unversioned_fields c.file e m p))
      (migrate_unversioned c.file c.file.labels c.file.folders c.calls)
migrate-unfailing c (versioned e m p) =
    subst (λ g. (migrate (λ n. false) (record { file = g; calls = c.calls })).0 ≡ ok tt) (sym e)
      (migrate_first c.file c.calls m p)
