-- ===== src/Imap/Listing/Mails.antt =====
-- internal/imapx/client.go: the messages of a folder, and what FETCH shows of them.
use umleitung.Base.{
  ℕ, ◌≡◌, Bool, true, false, ◌&&◌, ◌||◌, none, some, List, [], ◌∷◌, ◌++◌, leb, ◌==◌ as nat_eq,
}
use umleitung.Base.Text.{Text, codes, ℤ, trim_space, ◌==◌}
use umleitung.Key.{MsgMeta, FullMessage}
use umleitung.Imap.Wire.{Wire, FetchBuffer, UidSet, uid_range, uid_list}
use umleitung.Imap.Listing.Sorted.{In}

-- A message of the server: its header fields by name, its bytes, and what FETCH says beside them.
pub record Mail : Type 0 where
  pub uid : ℕ
  pub field : Text → Text
  pub raw : Text
  pub date : ℤ
  pub size : ℕ
  pub flags : List Text

abbrev pub listed : List ℕ → ℕ → Bool
listed [] u = false
listed (v ∷ us) u = nat_eq v u || listed us u

-- the UIDs that a set asks for
abbrev pub asks : UidSet → ℕ → Bool
asks (uid_range a b) u = leb a u && leb u b
asks (uid_list us) u = listed us u

-- the metadata and the full message of a message of the server
abbrev pub metadata : Mail → MsgMeta
metadata m = record {
  uid = m.uid;
  message_id = trim_space (m.field (codes "Message-Id"));
  from = trim_space (m.field (codes "From"));
  subject = trim_space (m.field (codes "Subject"));
  internal_date = m.date;
  size = m.size;
  flags = m.flags;
}

abbrev pub message : Mail → FullMessage
message m = record { uid = m.uid; raw = m.raw; flags = m.flags; internal_date = m.date }

-- The list has an item for each of the messages that are asked for, and no other.
abbrev pub Exactly :
    {A : Type 0} → (A → Mail → Type 0) → (Mail → Bool) → List Mail → List A → Type 0
Exactly {A} Of asked mails xs =
    ((m : Mail) → In m mails → asked m ≡ true → (x : A) × In x xs × Of x m)
    × ((x : A) → In x xs → (m : Mail) × In m mails × (asked m ≡ true) × Of x m)

-- a buffer with the bytes of a message
pub record Holds (b : FetchBuffer) (m : Mail) : Type 0 where
  pub uid : b.uid ≡ m.uid
  pub date : b.internal_date ≡ m.date
  pub flags : b.flags ≡ m.flags
  pub raw : b.section ≡ m.raw

module _ (W : Wire) where
  -- A buffer with the three header fields of a message: the header reader reads them from its bytes.
  pub record Heads (b : FetchBuffer) (m : Mail) : Type 0 where
    pub uid : b.uid ≡ m.uid
    pub date : b.internal_date ≡ m.date
    pub size : b.rfc822_size ≡ m.size
    pub flags : b.flags ≡ m.flags
    pub filled : (b.section == []) ≡ false
    pub get : Text → Text
    pub reads : W.read_header (b.section ++ (13 ∷ 10 ∷ [])) ≡ some get
    pub message_id : get (codes "Message-Id") ≡ m.field (codes "Message-Id")
    pub from : get (codes "From") ≡ m.field (codes "From")
    pub subject : get (codes "Subject") ≡ m.field (codes "Subject")

  -- A FETCH that ends with no error has shown each message of the folder that it asks for, in any
  -- order, and nothing else.
  pub record FetchLaws (box : W.Conn → List Mail) : Type 0 where
    pub headers :
        (us : UidSet) (c : W.Conn)
        → (W.fetch_headers us c).0.1 ≡ none
        → Exactly Heads (λ m. asks us m.uid) (box c) (W.fetch_headers us c).0.0
    pub bodies :
        (us : List ℕ) (c : W.Conn)
        → (W.fetch_bodies us c).0.1 ≡ none
        → Exactly Holds (λ m. listed us m.uid) (box c) (W.fetch_bodies us c).0.0
