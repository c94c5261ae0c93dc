-- ===== src/Imap/Listing.antt =====
-- internal/imapx/client.go: what `FetchMetaRange` and `FetchFullStream` return, against the messages
-- of the selected folder.
pub mod Sorted
pub mod Mails
pub mod Bodies
use mathlib.Core.Path.{subst}
use umleitung.Base.{
  ◌≤◌, ◌⊎◌, true, not, ◌&&◌, ◌||◌, All, All-map, leb, ◌==◌ as nat_eq, Bool-cases, arith,
}
use umleitung.Base.Text.{Text, codes, ℤ, trim_space, ◌==◌}
use umleitung.Base.Exec.{Result, ok, err}
use umleitung.Key.{FullMessage}
use umleitung.Imap.Wire.{Wire, UidSet, uid_list}
use umleitung.Imap.Client.{Client}
use umleitung.Imap.Fetch.{insert_by_uid, sort_by_uid, bodies_of}
use umleitung.Imap.Laws.Hold.{All-insert_by_uid}
use umleitung.Imap.Listing.Mails.{listed, message, Holds}
use umleitung.Imap.Listing.Bodies.{wanted}
