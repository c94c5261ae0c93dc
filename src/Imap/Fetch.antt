-- ===== src/Imap/Fetch.antt =====
-- internal/imapx/client.go: the fetching of metadata and of messages.
use umleitung.Base.{ℕ, Option, none, some, List, [], ◌∷◌, leb, ◌++◌, if◌then◌else◌, ◌==◌ as nat_eq}
use umleitung.Base.Text.{Text, codes, trim_space}
use umleitung.Base.Exec.{Error, Result, ok, err, vanished, Exec}
use umleitung.Key.{MsgMeta, FullMessage}
use umleitung.Imap.Wire.{Wire, FetchBuffer, UidSet, uid_range}
use umleitung.Imap.Client.{Client}

-- the trimmed fields Message-Id, From and Subject
pub record MetaHeader : Type 0 where
  pub message_id : Text
  pub from : Text
  pub subject : Text

abbrev pub no_header : MetaHeader
no_header = record { message_id = []; from = []; subject = [] }

-- by ascending UID, as `slices.SortFunc` leaves them
unfoldable pub insert_by_uid : MsgMeta → List MsgMeta → List MsgMeta
insert_by_uid m [] = m ∷ []
insert_by_uid m (n ∷ ms) = if leb m.uid n.uid then m ∷ n ∷ ms else n ∷ insert_by_uid m ms

unfoldable pub sort_by_uid : List MsgMeta → List MsgMeta
sort_by_uid [] = []
sort_by_uid (m ∷ ms) = insert_by_uid m (sort_by_uid ms)

-- messages with an empty body are skipped
unfoldable pub bodies_of : List FetchBuffer → List FullMessage
bodies_of [] = []
bodies_of (b ∷ bufs) = elim b.section [
  | [] ↦ bodies_of bufs
  | c ∷ raw ↦
      record { uid = b.uid; raw = c ∷ raw; flags = b.flags; internal_date = b.internal_date }
      ∷ bodies_of bufs
]

-- the last message of that UID
unfoldable pub last_of : ℕ → List FullMessage → Option FullMessage
last_of uid [] = none
last_of uid (m ∷ ms) = elim (last_of uid ms) [
  | some n ↦ some n
  | none ↦ if nat_eq m.uid uid then some m else none
]

module _ (W : Wire) where
  abbrev pub fields_of : Option (Text → Text) → MetaHeader
  fields_of none = no_header
  fields_of (some get) = record {
    message_id = trim_space (get (codes "Message-Id"));
    from = trim_space (get (codes "From"));
    subject = trim_space (get (codes "Subject"));
  }

  -- with the end of line that the parser wants
  unfoldable pub parse_meta_header : Text → MetaHeader
  parse_meta_header [] = no_header
  parse_meta_header (b ∷ hdr) = fields_of (W.read_header ((b ∷ hdr) ++ (13 ∷ 10 ∷ [])))

  unfoldable pub meta_of : FetchBuffer → MsgMeta
  meta_of b =
      let h = parse_meta_header b.section in
      record {
        uid = b.uid;
        message_id = h.message_id;
        from = h.from;
        subject = h.subject;
        internal_date = b.internal_date;
        size = b.rfc822_size;
        flags = b.flags;
      }

  abbrev pub metas_of : List FetchBuffer → List MsgMeta
  metas_of [] = []
  metas_of (b ∷ bufs) = meta_of b ∷ metas_of bufs

  abbrev pub sorted_metas : List FetchBuffer × Option Error → Result (List MsgMeta)
  sorted_metas (bufs, some e) = err e
  sorted_metas (bufs, none) = ok (sort_by_uid (metas_of bufs))

  unfoldable pub fetch_metas : UidSet → Exec (Client W) (List MsgMeta)
  fetch_metas uids cl =
      let x = W.fetch_headers uids cl.c in (sorted_metas x.0, record cl { c = x.1 })

  unfoldable pub fetch_meta_range : ℕ → ℕ → Exec (Client W) (List MsgMeta)
  fetch_meta_range start stop = fetch_metas (uid_range start stop)

  -- The messages that the callback gets, and the error that ends the stream. What an error of the
  -- callback leaves of the connection is not modelled.
  unfoldable pub fetch_full_stream :
      List ℕ → Client W → (List FullMessage × Option Error) × Client W
  fetch_full_stream [] cl = (([], none), cl)
  fetch_full_stream (u ∷ uids) cl =
      let x = W.fetch_bodies (u ∷ uids) cl.c in ((bodies_of x.0.0, x.0.1), record cl { c = x.1 })

  abbrev pub full_or_error : ℕ → List FullMessage × Option Error → Result FullMessage
  full_or_error uid (ms, some e) = err e
  full_or_error uid (ms, none) = elim (last_of uid ms) [ none ↦ err vanished | some m ↦ ok m ]

  unfoldable pub fetch_full : ℕ → Exec (Client W) FullMessage
  fetch_full uid cl = let x = fetch_full_stream (uid ∷ []) cl in (full_or_error uid x.0, x.1)
