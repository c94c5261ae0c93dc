-- ===== src/Safety.antt =====
-- The invariant of the program: the record of copied messages never runs ahead of the destination.
-- What it relies on of the two servers is stated here.
pub mod Table
pub mod Frame
pub mod Records
pub mod Phases
pub mod Pipeline
pub mod Consumer
pub mod Producer
pub mod Filters
pub mod Window
pub mod Pass
pub mod History
pub mod Interleaved
pub mod Writes
use umleitung.Base.{ℕ, ◌≡◌, Bool, true, List, All}
use umleitung.Base.Text.{Text}
use umleitung.Base.Exec.{ok}
use umleitung.Key.{MsgMeta, FullMessage, dedup_key}
use umleitung.State.Tables.{has_row}
use umleitung.Env.{Env, World}

-- `Holds k s`: the destination has a message with the key k. `content` is the key of a message as
-- the destination lists it once it is stored, `key_of` that of the message of an APPEND in flight.
pub record DestLaws (E : Env) (Holds : Text → E.Dst → Type 0) (content : FullMessage → Text)
    (key_of : E.Ticket → Text) : Type 0 where
  -- no operation in use deletes a message
  pub select_keeps :
      (f k : Text) (s : E.Dst) → Holds k s → Holds k (E.dst_select_named_folder f s).1
  pub fetch_keeps :
      (a b : ℕ) (k : Text) (s : E.Dst) → Holds k s → Holds k (E.dst_fetch_meta_range a b s).1
  pub search_keeps :
      (f : Text) (ids : List Text) (k : Text) (s : E.Dst)
      → Holds k s
      → Holds k (E.dst_search_message_ids_in f ids s).1
  pub append_keeps :
      (f : Text) (m : FullMessage) (flags : List Text) (k : Text) (s : E.Dst)
      → Holds k s
      → Holds k (E.dst_append_to f m flags s).1
  pub begin_keeps :
      (f : Text) (m : FullMessage) (flags : List Text) (k : Text) (s : E.Dst)
      → Holds k s
      → Holds k (E.dst_begin_append f m flags s).1
  pub wait_keeps : (t : E.Ticket) (k : Text) (s : E.Dst) → Holds k s → Holds k (E.dst_wait t s).1
  pub move_keeps :
      (f g id k : Text) (s : E.Dst) → Holds k s → Holds k (E.dst_move_message_id f g id s).1
  pub move_uids_keeps :
      (f : Text) (uids : List ℕ) (g k : Text) (s : E.Dst)
      → Holds k s
      → Holds k (E.dst_move_uids f uids g s).1
  pub keyword_keeps :
      (f id : Text) (add : Bool) (kw k : Text) (s : E.Dst)
      → Holds k s
      → Holds k (E.dst_store_keyword_by_message_id f id add kw s).1
  pub keywords_keeps :
      (uids : List ℕ) (kws : List Text) (k : Text) (s : E.Dst)
      → Holds k s
      → Holds k (E.dst_store_keywords_uids uids kws s).1
  -- a confirmed APPEND has stored its message
  pub begun :
      (f : Text) (m : FullMessage) (flags : List Text) (s : E.Dst) (t : E.Ticket)
      → (E.dst_begin_append f m flags s).0 ≡ ok t
      → key_of t ≡ content m
  pub confirmed :
      (t : E.Ticket) (s : E.Dst) → (E.dst_wait t s).0 ≡ ok tt → Holds (key_of t) (E.dst_wait t s).1
  pub appended :
      (f : Text) (m : FullMessage) (flags : List Text) (s : E.Dst)
      → (E.dst_append_to f m flags s).0 ≡ ok tt
      → Holds (content m) (E.dst_append_to f m flags s).1
  -- what a search finds and what a listing shows is there
  pub found :
      (f : Text) (ids : List Text) (s : E.Dst) (ks : List Text)
      → (E.dst_search_message_ids_in f ids s).0 ≡ ok ks
      → All (λ k. Holds k (E.dst_search_message_ids_in f ids s).1) ks
  pub listed :
      (a b : ℕ) (s : E.Dst) (ms : List MsgMeta)
      → (E.dst_fetch_meta_range a b s).0 ≡ ok ms
      → All (λ m. Holds (dedup_key E.hex_sha256 m) (E.dst_fetch_meta_range a b s).1) ms

-- `key_at s u`: the key of the message under the UID u in the selected folder. The listing and the
-- full message agree on it.
pub record SourceLaws (E : Env) (key_at : E.Src → ℕ → Text) (content : FullMessage → Text)
    : Type 0 where
  pub fetched :
      (a b : ℕ) (s : E.Src) (ms : List MsgMeta)
      → (E.src_fetch_meta_range a b s).0 ≡ ok ms
      → All (λ m. dedup_key E.hex_sha256 m ≡ key_at (E.src_fetch_meta_range a b s).1 m.uid) ms
  pub streamed :
      (uids : List ℕ) (s : E.Src)
      → All (λ m. content m ≡ key_at s m.uid) (E.src_fetch_full_stream uids s).0.0

-- Every recorded key is that of a message on the destination.
abbrev pub Behind : {E : Env} → (Text → E.Dst → Type 0) → World E → Type 0
Behind Holds w = (k : Text) → has_row k w.conn.db.copied ≡ true → Holds k w.dst
