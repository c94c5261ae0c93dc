-- ===== src/Backfill/Placed.antt =====
-- internal/reconcile/membership.go: a backfill of one folder moves what it has to.
use umleitung.Base.{ℕ, ◌+◌, ◌≤◌, ◌<◌, ◌≡◌, true, false, ◌||◌, ◌==◌ as nat_eq}
use umleitung.Base.Text.{Text, ◌==◌}
use umleitung.State.Tables.{Db}
use umleitung.Env.{FolderStatus, Env, Options, World}
use umleitung.Windows.{u32, batch_of}
use umleitung.Backfill.Folder.{DestView, place}

-- what the folder shows and what belongs elsewhere, by the memberships of `db`, was moved there
abbrev pub AllPlaced :
    (E : Env)
    → Options
    → Db
    → Text
    → (ℕ → Text → Type 0)
    → (ℕ → Text → E.Dst → Type 0)
    → World E
    → Type 0
AllPlaced E o db folder Shows Moved w =
    (u : ℕ) (k : Text) → Shows u k → (place o db k == folder) ≡ false → Moved u (place o db k) w.dst

module _ (E : Env) (o : Options) (db : Db) (folder : Text) (next : ℕ) (Shows : ℕ → Text → Type 0)
    (Selected : E.Dst → Type 0) (V : DestView E folder next Shows Selected)
    (quiet : (n : ℕ) → E.faults n ≡ false) (routed : (o.archive_routing || o.sent_routing) ≡ true)
    (positive : 0 < batch_of o) (room : next + batch_of o ≤ u32) where
  abbrev Still : Db → E.Dst → Type 0
  Still c d = (c ≡ db) × Selected d

  abbrev Opened : FolderStatus → World E → Type 0
  Opened st w =
      ((st.uid_next ≡ next) × ((st.num_messages ≡ 0) → (u : ℕ) (k : Text) → Shows u k → ⊥))
      × Still w.conn.db w.dst
