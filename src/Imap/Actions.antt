-- ===== src/Imap/Actions.antt =====
-- internal/imapx/client.go: moves and keywords.
use umleitung.Base.{ℕ, Bool, true, false, List, [], ◌∷◌}
use umleitung.Base.Text.{Text, codes}
use umleitung.Base.Exec.{Exec, pure, modify, ◌>>=◌, ◌>>◌}
use umleitung.Imap.Wire.{Wire, header}
use umleitung.Imap.Criteria.{message_id_key}
use umleitung.Imap.Client.{Client, on_conn, ensure_selected}

module _ (W : Wire) where
  unfoldable pub search_message_id : Text → Text → Exec (Client W) (List ℕ)
  search_message_id folder id = do
    ensure_selected W folder
    on_conn (W.uid_search (header message_id_key id))

  abbrev pub move_hits : Text → List ℕ → Exec (Client W) Bool
  move_hits to_folder [] = pure false
  move_hits to_folder (u ∷ uids) = do on_conn (W.move (u ∷ uids) to_folder); pure true

  unfoldable pub move_message_id : Text → Text → Text → Exec (Client W) Bool
  move_message_id from_folder to_folder id = do
    uids ← search_message_id from_folder id
    move_hits to_folder uids

  unfoldable pub move_uids : Text → List ℕ → Text → Exec (Client W) (Unit {0})
  move_uids from_folder [] to_folder = pure tt
  move_uids from_folder (u ∷ uids) to_folder = do
    ensure_selected W from_folder
    on_conn (W.move (u ∷ uids) to_folder)
    modify (λ cl. record cl { selected = codes "" })

  unfoldable pub store_flags : List ℕ → Bool → List Text → Exec (Client W) (Unit {0})
  store_flags uids add flags = on_conn (W.store uids add flags)

  abbrev pub store_hits : Bool → Text → List ℕ → Exec (Client W) Bool
  store_hits add kw [] = pure false
  store_hits add kw (u ∷ uids) = do store_flags (u ∷ uids) add (kw ∷ []); pure true

  unfoldable pub store_keyword_by_message_id : Text → Text → Bool → Text → Exec (Client W) Bool
  store_keyword_by_message_id folder id add kw = do
    uids ← search_message_id folder id
    store_hits add kw uids

  unfoldable pub store_keywords_uids : List ℕ → List Text → Exec (Client W) (Unit {0})
  store_keywords_uids [] kws = pure tt
  store_keywords_uids (u ∷ uids) [] = pure tt
  store_keywords_uids (u ∷ uids) (kw ∷ kws) = store_flags (u ∷ uids) true (kw ∷ kws)
