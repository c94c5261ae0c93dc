-- ===== src/Imap/Client.antt =====
-- internal/imapx/client.go: the state of a client; folders.
use umleitung.Base.{ℕ, Bool, false, not, Option, none, some, List, [], ◌∷◌, if◌then◌else◌}
use umleitung.Base.Text.{Text, codes, contains, has_prefix, ◌==◌}
use umleitung.Base.Exec.{
  Error, Result, ok, err, no_such_folder, Exec, pure, raise, gets, modify, ◌>>=◌, ◌>>◌,
}
use umleitung.Key.{FolderInfo}
use umleitung.Env.{FolderStatus}
use umleitung.Imap.Wire.{Wire, SelectData, all_messages}

-- `Client`. `folder` is the endpoint's folder, the one field of it that changes; the notifications
-- of IDLE are left out.
pub record Client (W : Wire) : Type 0 where
  pub folder : Text
  pub c : W.Conn
  pub selected : Text
  pub guard_chunk : ℕ
  pub arbitrary_keywords : Bool

abbrev pub default_guard_chunk : ℕ
default_guard_chunk = 100

module _ {W : Wire} where
  -- a call of the connection
  abbrev pub on_conn {κ} : {A : Type κ} → Exec W.Conn A → Exec (Client W) A
  on_conn m cl = ((m cl.c).0, record cl { c = (m cl.c).1 })

module _ (W : Wire) where
  -- the client that `Dial` returns
  unfoldable pub dialled : Text → W.Conn → Client W
  dialled folder c = record {
    folder = folder;
    c = c;
    selected = codes "";
    guard_chunk = default_guard_chunk;
    arbitrary_keywords = false;
  }

  abbrev pub after_connect : Text → Result (Unit {0}) × Client W → Result (Unit {0}) × Client W
  after_connect folder (ok u, cl) = (ok tt, dialled folder cl.c)
  after_connect folder (err e, cl) = (err e, cl)

  -- `Dial`, where the client before it was
  unfoldable pub dial : Text → Exec (Client W) (Unit {0})
  dial folder cl = after_connect folder (on_conn W.connect cl)

  abbrev pub status_of : SelectData → FolderStatus
  status_of d = record {
    uid_validity = d.uid_validity;
    uid_next = d.uid_next;
    num_messages = d.num_messages;
  }

  abbrev pub after_select : Text → Result SelectData × Client W → Result FolderStatus × Client W
  after_select name (err e, cl) = (err e, record cl { selected = codes "" })
  after_select name (ok d, cl) = (
    ok (status_of d),
    record cl { selected = name; arbitrary_keywords = contains d.permanent_flags W.wildcard },
  )

  unfoldable pub select_named_folder : Text → Exec (Client W) FolderStatus
  select_named_folder name cl = after_select name (on_conn (W.select name) cl)

  unfoldable pub select_folder : Exec (Client W) FolderStatus
  select_folder cl = select_named_folder cl.folder cl

  unfoldable pub ensure_selected : Text → Exec (Client W) (Unit {0})
  ensure_selected name = do
    selected ← gets (λ (cl : Client W). cl.selected)
    if selected == name then pure tt else do st ← select_named_folder name; pure tt

  unfoldable pub search_all_uids : Exec (Client W) (List ℕ)
  search_all_uids = on_conn (W.uid_search all_messages)

  unfoldable pub supports_arbitrary_keywords : Client W → Bool
  supports_arbitrary_keywords cl = cl.arbitrary_keywords

  unfoldable pub list_folders : Exec (Client W) (List FolderInfo)
  list_folders cl = let x = W.has_special_use cl.c in on_conn (W.list x.0) (record cl { c = x.1 })

  -- the first folder with the attribute
  unfoldable pub folder_with : Text → List FolderInfo → Option Text
  folder_with attr [] = none
  folder_with attr (f ∷ fs) = if contains f.attrs attr then some f.name else folder_with attr fs

  abbrev pub name_or_error : Option Text → Exec (Client W) Text
  name_or_error none = raise no_such_folder
  name_or_error (some name) = pure name

  unfoldable pub resolve_folder : Text → Exec (Client W) Text
  resolve_folder name =
      if not (has_prefix name (codes "\\"))
      then pure name
      else do folders ← list_folders; name_or_error (folder_with name folders)

  unfoldable pub resolve_special_use : Exec (Client W) Text
  resolve_special_use = do
    name ← gets (λ (cl : Client W). cl.folder)
    resolved ← resolve_folder name
    modify (λ cl. record cl { folder = resolved })
    pure resolved

  -- the error of CREATE counts if the folder cannot be selected either
  abbrev pub existing : Error → Result FolderStatus × Client W → Result (Unit {0}) × Client W
  existing e (ok st, cl) = (ok tt, cl)
  existing e (err x, cl) = (err e, cl)

  abbrev pub after_create : Text → Result (Unit {0}) × Client W → Result (Unit {0}) × Client W
  after_create name (ok u, cl) = (ok tt, cl)
  after_create name (err e, cl) = existing e (select_named_folder name cl)

  unfoldable pub ensure_named_folder : Text → Exec (Client W) (Unit {0})
  ensure_named_folder name cl = after_create name (on_conn (W.create name) cl)

  unfoldable pub ensure_folder : Exec (Client W) (Unit {0})
  ensure_folder cl = ensure_named_folder cl.folder cl
