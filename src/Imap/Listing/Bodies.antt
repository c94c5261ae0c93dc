-- ===== src/Imap/Listing/Bodies.antt =====
-- internal/imapx/client.go: what `FetchFullStream` brings.
use mathlib.Core.Path.{subst}
use umleitung.Base.{
  ℕ, ◌≡◌, refl, sym, ap, ◌∙◌, Bool, true, false, not, ◌&&◌, Option, none, some, List, [], ◌∷◌,
  Bool-cases, inl, inr, arith,
}
use umleitung.Base.Text.{Text, ◌==◌}
use umleitung.Base.Exec.{Error}
use umleitung.Key.{FullMessage}
use umleitung.Imap.Wire.{Wire, FetchBuffer}
use umleitung.Imap.Client.{Client}
use umleitung.Imap.Fetch.{bodies_of, fetch_full_stream}
use umleitung.Imap.Listing.Sorted.{In}
use umleitung.Imap.Listing.Mails.{Mail, listed, message, Exactly, Holds, FetchLaws}

abbrev buffered : FetchBuffer → FullMessage
buffered b = record {
  uid = b.uid;
  raw = b.section;
  flags = b.flags;
  internal_date = b.internal_date;
}

bodies_of-filled :
    (b : FetchBuffer) (bufs : List FetchBuffer)
    → (b.section == []) ≡ false
    → bodies_of (b ∷ bufs) ≡ buffered b ∷ bodies_of bufs
unfolding bodies_of ◌==◌
bodies_of-filled b bufs = go b.section
  where
    go :
        (raw : Text)
        → (raw == []) ≡ false
        → bodies_of ((record b { section = raw }) ∷ bufs)
          ≡ buffered (record b { section = raw }) ∷ bodies_of bufs
    go [] e = absurd (cc e)
    go (c ∷ raw) e = refl

bodies_of-empty :
    (b : FetchBuffer) (bufs : List FetchBuffer)
    → (b.section == []) ≡ true
    → bodies_of (b ∷ bufs) ≡ bodies_of bufs
unfolding bodies_of ◌==◌
bodies_of-empty b bufs = go b.section
  where
    go :
        (raw : Text)
        → (raw == []) ≡ true
        → bodies_of ((record b { section = raw }) ∷ bufs) ≡ bodies_of bufs
    go [] e = refl
    go (c ∷ raw) e = absurd (cc e)

In-bodies_of :
    (b : FetchBuffer) (bufs : List FetchBuffer)
    → (b.section == []) ≡ false
    → In b bufs
    → In (buffered b) (bodies_of bufs)
In-bodies_of b [] e i = elim i [ ]
In-bodies_of b (c ∷ bufs) e (inl i) =
    let f : (c.section == []) ≡ false = ap (λ (d : FetchBuffer). d.section == []) i ∙ e in
    rw (bodies_of-filled c bufs f) (inl (ap buffered i))
In-bodies_of b (c ∷ bufs) e (inr i) = elim (Bool-cases (c.section == [])) [
  | inl skip ↦ rw (bodies_of-empty c bufs skip) (In-bodies_of b bufs e i)
  | inr take ↦ rw (bodies_of-filled c bufs take) (inr (In-bodies_of b bufs e i))
]

bodies_of-In :
    (x : FullMessage) (bufs : List FetchBuffer)
    → In x (bodies_of bufs)
    → (b : FetchBuffer) × In b bufs × ((b.section == []) ≡ false) × (x ≡ buffered b)
unfolding bodies_of
bodies_of-In x [] i = elim i [ ]
bodies_of-In x (c ∷ bufs) i = elim (Bool-cases (c.section == [])) [
  | inl skip ↦
      let j : In x (bodies_of bufs) = subst (In x) (bodies_of-empty c bufs skip) i in
      let (b, k, f, e) = bodies_of-In x bufs j in (b, inr k, f, e)
  | inr take ↦
      let j : In x (buffered c ∷ bodies_of bufs) = subst (In x) (bodies_of-filled c bufs take) i in
      elim j [
        | inl here ↦ (c, inl refl, take, sym here)
        | inr later ↦ let (b, k, f, e) = bodies_of-In x bufs later in (b, inr k, f, e)
      ]
]

buffered-message : (b : FetchBuffer) (m : Mail) → Holds b m → buffered b ≡ message m
buffered-message b m h = rw (h.uid, h.raw, h.flags, h.date) refl

-- the messages with bytes that a list of UIDs asks for
abbrev pub wanted : List ℕ → Mail → Bool
wanted us m = listed us m.uid && not (m.raw == [])

bodies_of-Exactly :
    (us : List ℕ) (mails : List Mail) (bufs : List FetchBuffer)
    → Exactly Holds (λ m. listed us m.uid) mails bufs
    → Exactly (λ x m. x ≡ message m) (wanted us) mails (bodies_of bufs)
bodies_of-Exactly us mails bufs shown = (
  λ m i a.
      let (b, j, d) = shown.0 m i (ground (arith, a)) in
      let filled : (b.section == []) ≡ false = ap (λ s. s == []) d.raw ∙ ground (arith, a) in
      (buffered b, In-bodies_of b bufs filled j, buffered-message b m d),
  λ x i.
      let (b, j, f, e) = bodies_of-In x bufs i in
      let (m, k, a, d) = shown.1 b j in
      let full : (m.raw == []) ≡ false = ap (λ s. s == []) (sym d.raw) ∙ f in
      (m, k, ground (arith, a, full), e ∙ buffered-message b m d),
)

-- what a stream has brought, unless an error has ended it
abbrev pub IsStream : List ℕ → List Mail → List FullMessage × Option Error → Type 0
IsStream us mails (ms, none) = Exactly (λ x m. x ≡ message m) (wanted us) mails ms
IsStream us mails (ms, some e) = Unit {0}

module _ (W : Wire) where
  pub fetch_full_stream-IsStream :
      (box : W.Conn → List Mail)
      → FetchLaws W box
      → (us : List ℕ) (cl : Client W) → IsStream us (box cl.c) (fetch_full_stream W us cl).0
  unfolding fetch_full_stream
  fetch_full_stream-IsStream box L [] cl = (λ m i a. absurd (cc a), λ x i. elim i [ ])
  fetch_full_stream-IsStream box L (u ∷ us) cl =
      go (W.fetch_bodies (u ∷ us) cl.c).0 (L.bodies (u ∷ us) cl.c)
    where
      go :
          (x : List FetchBuffer × Option Error)
          → ((x.1 ≡ none) → Exactly Holds (λ m. listed (u ∷ us) m.uid) (box cl.c) x.0)
          → IsStream (u ∷ us) (box cl.c) (bodies_of x.0, x.1)
      go (bufs, none) h = bodies_of-Exactly (u ∷ us) (box cl.c) bufs (h refl)
      go (bufs, some e) h = tt
