-- ===== src/Tests/Stores.antt =====
-- The store's tables, valid before and after its methods.
use umleitung.Base.{ℕ, ◌≡◌, refl, Bool, List, [], ◌∷◌, take, ◌==◌ as nat_eq, arith}
use umleitung.Base.Text.{Text, codes}
use umleitung.Base.Exec.{ok}
use umleitung.Base.Keeps.{Keeps}
use umleitung.State.Tables.{KeyRecord, PendingOp, MemberChangeItem, empty_db}
use umleitung.State.Store.{
  Conn, record_keys, seed_batch, record_key, meta_set, member_change_batch, delete_pending_row,
  delete_pending_batch, set_folder_state, pending_ops,
}
use umleitung.State.Valid.{IsValid}
use umleitung.State.Valid.Methods.{ValidConn, store-IsValid, pending_ops-oldest}

abbrev fifth_fails : ℕ → Bool
fifth_fails n = nat_eq n 4

store-IsValid_example :
    ((rs : List KeyRecord) → Keeps (ValidConn fifth_fails) (record_keys fifth_fails rs))
    × ((ks : List Text) → Keeps (ValidConn fifth_fails) (seed_batch fifth_fails ks))
    × ((r : KeyRecord) → Keeps (ValidConn fifth_fails) (record_key fifth_fails r))
    × ((k v : Text) → Keeps (ValidConn fifth_fails) (meta_set fifth_fails k v))
    × ((f : Text) (items : List MemberChangeItem)
        → Keeps (ValidConn fifth_fails) (member_change_batch fifth_fails f items))
    × ((i : ℕ) → Keeps (ValidConn fifth_fails) (delete_pending_row fifth_fails i))
    × ((ids : List ℕ) → Keeps (ValidConn fifth_fails) (delete_pending_batch fifth_fails ids))
    × ((f : Text) (v u : ℕ) → Keeps (ValidConn fifth_fails) (set_folder_state fifth_fails f v u))
store-IsValid_example = store-IsValid fifth_fails

abbrev op : ℕ → PendingOp
op i = record {
  id = i;
  kind = codes "move";
  message_id = codes "one@x";
  folder = codes "INBOX";
  op = codes "add";
}

-- the operation between the two was applied and deleted
abbrev queued : Conn
queued = record { db = record empty_db { pending = op 3 ∷ op 5 ∷ []; next_id = 6 }; calls = 0 }

queued-IsValid : IsValid queued.db
queued-IsValid = record {
  copied = tt;
  meta = tt;
  members = tt;
  folders = tt;
  pending = (omega arith, (omega arith, omega arith));
}

pending_ops-oldest_example : (pending_ops fifth_fails 1 queued).0 ≡ ok (take 1 (op 3 ∷ op 5 ∷ []))
pending_ops-oldest_example = pending_ops-oldest fifth_fails 1 queued queued-IsValid refl
