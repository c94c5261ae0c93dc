-- ===== src/Routing/Reads.antt =====
-- The routing of a message only reads: it keeps what the look at a membership keeps.
use umleitung.Base.Text.{Text}
use umleitung.Base.Keeps.{Keeps, keeps_rules}
use umleitung.State.Store.{member_has}
use umleitung.Env.{Env, Options, World, on_store}
use umleitung.Routing.{dest_folder_for, not_in_inbox}

module _ (E : Env) (o : Options) (P : World E → Type 0)
    (reads : (f k : Text) → Keeps P (on_store (member_has E.faults f k))) where
  not_in_inbox-Keeps : (k : Text) → Keeps P (not_in_inbox E o k)
  unfolding not_in_inbox
  not_in_inbox-Keeps k = search (keeps_rules, reads)

  pub dest_folder_for-Keeps : (k : Text) → Keeps P (dest_folder_for E o k)
  unfolding dest_folder_for
  dest_folder_for-Keeps k = search (keeps_rules, reads, not_in_inbox-Keeps)
