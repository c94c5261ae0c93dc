-- ===== src/Tests/Files.antt =====
-- The properties of the migrations, applied.
use umleitung.Base.{ℕ, ◌≡◌, refl, none, some, [], ◌∷◌}
use umleitung.Base.Text.{codes}
use umleitung.Base.Hoare.{After}
use umleitung.State.Migrate.{File, FileConn, migrate}
use umleitung.State.Migrate.Schema.{IsEarlier, unversioned, second_schema, Unmoved, migrate_lem}
use umleitung.Base.{Bool, ◌==◌ as nat_eq}

-- a file of the first version of the program, with one copied message and one label
abbrev old_file : File
old_file = record {
  user_version = 0;
  copied = some (record { key = codes "one@x"; uid = 1; copied_at = 5 } ∷ []);
  meta = some [];
  labels = some ((codes "one@x", codes "Work") ∷ []);
  folders = none;
  members = none;
  pending = none;
}

abbrev old : FileConn
old = record { file = old_file; calls = 0 }

old-IsEarlier : IsEarlier old_file
old-IsEarlier = unversioned refl refl refl

-- the seventh call fails
abbrev seventh : ℕ → Bool
seventh n = nat_eq n 6

migrate_lem_example :
    After (λ u. λ d. d.file ≡ second_schema old_file) (Unmoved old_file) (migrate seventh old)
migrate_lem_example = migrate_lem seventh old old-IsEarlier
