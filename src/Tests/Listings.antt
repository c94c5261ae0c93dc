-- ===== src/Tests/Listings.antt =====
-- The listing and the full messages of a folder of two messages, which the server shows out of order.
use umleitung.Base.{ℕ, none, List, [], ◌∷◌, ◌++◌}
use umleitung.Base.Text.{Text, codes, pos}
use umleitung.Imap.Wire.{Wire, FetchBuffer}
use umleitung.Imap.Client.{Client, dialled}
use umleitung.Imap.Listing.Mails.{Mail, asks, listed}
use umleitung.Tests.Toy.{keep}
use umleitung.Tests.ToyWire.{toy_wire, fields}

abbrev buffer : ℕ → Text → FetchBuffer
buffer u s = record { uid = u; section = s; internal_date = pos u; rfc822_size = 5; flags = [] }

abbrev mail : ℕ → Text → Mail
mail u s = record {
  uid = u;
  field = fields (s ++ (13 ∷ 10 ∷ []));
  raw = s;
  date = pos u;
  size = 5;
  flags = [];
}

abbrev first : Text
first = codes "one@x"

abbrev second : Text
second = codes "two@x"

abbrev mails : List Mail
mails = mail 1 first ∷ mail 2 second ∷ []

abbrev buffers : List FetchBuffer
buffers = buffer 2 second ∷ buffer 1 first ∷ []

abbrev wire : Wire
wire = record toy_wire {
  fetch_headers = λ us c. ((keep (λ b. asks us b.uid) buffers, none), c);
  fetch_bodies = λ us c. ((keep (λ b. listed us b.uid) buffers, none), c);
}

abbrev client : Client wire
client = dialled wire (codes "INBOX") []
