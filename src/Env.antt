-- ===== src/Env.antt =====
-- What surrounds the reconciler: the two IMAP endpoints (the interfaces `Source` and `Dest` of
-- internal/reconcile/reconcile.go), the failures of the database, the context and the clock; and
-- the state that a pass changes.
pub mod Locals
use umleitung.Base.{ℕ, ◌+◌, Bool, Option, List, if◌then◌else◌}
use umleitung.Base.Text.{Text, ℤ}
use umleitung.Base.Exec.{Error, Result, ok, err, cancelled, Exec, modify}
use umleitung.Key.{MsgMeta, FullMessage, FolderInfo}
use umleitung.State.Store.{Conn}

-- UIDVALIDITY, UIDNEXT and the number of messages of a selected folder
pub record FolderStatus : Type 0 where
  pub uid_validity : ℕ
  pub uid_next : ℕ
  pub num_messages : ℕ

-- Texts that package imap of go-imap defines: the attributes of mailboxes in the order in which
-- `excludedAttrs` lists them, and the flags.
pub record ImapNames : Type 0 where
  pub excluded_attrs : List Text
  pub flag_seen : Text

pub record Env : Type 1 where
  -- the state of the connection to each server, and of the server
  pub Src : Type 0
  pub Dst : Type 0
  -- an APPEND that was issued and is not confirmed
  pub Ticket : Type 0
  pub names : ImapNames
  pub hex_sha256 : Text → Text
  -- whether the n-th call of the database fails, the n-th look at the context finds it cancelled
  pub faults : ℕ → Bool
  pub done : ℕ → Bool
  pub now : ℕ → ℕ
  -- `Source`
  pub src_select_folder : Exec Src FolderStatus
  pub src_select_named_folder : Text → Exec Src FolderStatus
  pub src_list_folders : Exec Src (List FolderInfo)
  pub src_search_all_uids : Exec Src (List ℕ)
  pub src_fetch_meta_range : ℕ → ℕ → Exec Src (List MsgMeta)
  -- the messages that arrive, in order, and the error that ends the stream
  pub src_fetch_full_stream : List ℕ → Src → (List FullMessage × Option Error) × Src
  -- `Dest`
  pub dst_select_named_folder : Text → Exec Dst FolderStatus
  pub dst_fetch_meta_range : ℕ → ℕ → Exec Dst (List MsgMeta)
  pub dst_search_message_ids_in : Text → List Text → Exec Dst (List Text)
  pub dst_append_to : Text → FullMessage → List Text → Exec Dst (Unit {0})
  pub dst_begin_append : Text → FullMessage → List Text → Exec Dst Ticket
  pub dst_wait : Ticket → Exec Dst (Unit {0})
  pub dst_move_message_id : Text → Text → Text → Exec Dst Bool
  pub dst_move_uids : Text → List ℕ → Text → Exec Dst (Unit {0})
  pub dst_store_keyword_by_message_id : Text → Text → Bool → Text → Exec Dst Bool
  pub dst_store_keywords_uids : List ℕ → List Text → Exec Dst (Unit {0})

-- `Options`. `OnProgress` reports and changes nothing, and is left out.
pub record Options : Type 0 where
  pub uid_batch : ℤ
  pub dest_guard : Bool
  pub carry_seen : Bool
  pub sync_labels : Bool
  pub source_folder : Text
  pub label_exclude : List Text
  pub dest_folder : Text
  pub archive_routing : Bool
  pub source_inbox : Text
  pub archive_folder : Text
  pub sent_routing : Bool
  pub sent_src_folder : Text
  pub sent_folder : Text
  pub label_propagate : Bool
  pub keyword_prefix : Text
  pub keyword_replacement : Text

-- `Summary`
pub record Summary : Type 0 where
  pub uid_validity_changed : Bool
  pub candidates : ℕ
  pub copied : ℕ
  pub skipped_dup : ℕ
  pub moved_to_archive : ℕ
  pub moved_to_inbox : ℕ
  pub moved_to_sent : ℕ
  pub keywords_set : ℕ
  pub keywords_updated : ℕ

-- What a pass changes. `polls` counts the looks at the context.
pub record World (E : Env) : Type 0 where
  pub conn : Conn
  pub src : E.Src
  pub dst : E.Dst
  pub sum : Summary
  pub polls : ℕ

module _ {E : Env} where
  -- a call of the store, of the source, of the destination
  abbrev pub on_store {κ} : {A : Type κ} → Exec Conn A → Exec (World E) A
  on_store m w = ((m w.conn).0, record w { conn = (m w.conn).1 })

  abbrev pub on_src {κ} : {A : Type κ} → Exec E.Src A → Exec (World E) A
  on_src m w = ((m w.src).0, record w { src = (m w.src).1 })

  abbrev pub on_dst {κ} : {A : Type κ} → Exec E.Dst A → Exec (World E) A
  on_dst m w = ((m w.dst).0, record w { dst = (m w.dst).1 })

  abbrev pub count : (Summary → Summary) → Exec (World E) (Unit {0})
  count f = modify (λ w. record w { sum = f w.sum })

  -- `ctx.Err()`
  abbrev pub check_ctx : Exec (World E) (Unit {0})
  check_ctx w = (if E.done w.polls then err cancelled else ok tt, record w { polls = w.polls + 1 })

abbrev pub local_result : {A : Type 0} → A → Result (Unit {0}) → Result A
local_result a (ok u) = ok a
local_result a (err e) = err e

-- A world with the local variables of a loop, and a call from inside it.
module _ {E : Env} {A : Type 0} where
  abbrev pub inside {κ} : {B : Type κ} → Exec (World E) B → Exec (World E × A) B
  inside m s = ((m s.0).0, ((m s.0).1, s.1))

  abbrev pub assign : (A → A) → Exec (World E × A) (Unit {0})
  assign f s = (ok tt, (s.0, f s.1))

  -- the loop, started with its variables at `a`; their values come with the result
  abbrev pub with_local : A → Exec (World E × A) (Unit {0}) → Exec (World E) A
  with_local a m w = (local_result (m (w, a)).1.1 (m (w, a)).0, (m (w, a)).1.0)
