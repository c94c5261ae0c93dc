-- ===== src/Imap/Wire.antt =====
-- The calls of go-imap's imapclient and of go-message that the client makes.
use umleitung.Base.{ℕ, Bool, Option, List}
use umleitung.Base.Text.{Text, ℤ}
use umleitung.Base.Exec.{Error, Exec}
use umleitung.Key.{FolderInfo}

-- The criteria of a SEARCH: none, one header field that contains a text, or either of two.
pub data Criteria : Type 0 where
  all_messages : Criteria
  header : Text → Text → Criteria
  or : Criteria → Criteria → Criteria

pub data UidSet : Type 0 where
  uid_range : ℕ → ℕ → UidSet
  uid_list : List ℕ → UidSet

-- `imap.SelectData`
pub record SelectData : Type 0 where
  pub uid_validity : ℕ
  pub uid_next : ℕ
  pub num_messages : ℕ
  pub permanent_flags : List Text

-- What FETCH returns of a message: the bytes of the asked section, empty if there are none.
pub record FetchBuffer : Type 0 where
  pub uid : ℕ
  pub section : Text
  pub internal_date : ℤ
  pub rfc822_size : ℕ
  pub flags : List Text

pub record Wire : Type 1 where
  -- the connection, with the server behind it
  pub Conn : Type 0
  -- `imapclient.AppendCommand`
  pub Command : Type 0
  -- `imap.FlagWildcard`
  pub wildcard : Text
  -- a new connection to the same server, logged in
  pub connect : Exec Conn (Unit {0})
  -- `message.Read`: the header fields, if there is a usable entity
  pub read_header : Text → Option (Text → Text)
  -- `Caps().Has(imap.CapSpecialUse)`
  pub has_special_use : Conn → Bool × Conn
  pub select : Text → Exec Conn SelectData
  pub create : Text → Exec Conn (Unit {0})
  -- one IDLE: its start, the wait for a push, the timer or the end of the context, its end
  pub idle : Exec Conn (Unit {0})
  -- LIST, with or without RETURN (SPECIAL-USE)
  pub list : Bool → Exec Conn (List FolderInfo)
  pub uid_search : Criteria → Exec Conn (List ℕ)
  -- the messages that a FETCH returns, in order, and the error that ends it
  pub fetch_headers : UidSet → Conn → (List FetchBuffer × Option Error) × Conn
  pub fetch_bodies : List ℕ → Conn → (List FetchBuffer × Option Error) × Conn
  -- APPEND with the literal's size, the flags and the date, then its literal, its end, its answer
  pub append : Text → ℕ → List Text → Option ℤ → Conn → Command × Conn
  -- the command with its literal
  pub write : Command → Text → Exec Conn Command
  pub close : Command → Exec Conn (Unit {0})
  pub wait : Command → Exec Conn (Unit {0})
  pub move : List ℕ → Text → Exec Conn (Unit {0})
  -- UID STORE: add or remove the flags
  pub store : List ℕ → Bool → List Text → Exec Conn (Unit {0})
