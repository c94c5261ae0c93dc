-- ===== src/Tests/ToyWire.antt =====
-- A wire with two messages, whose server keeps the keys of what is appended to it.
use mathlib.Core.Path.{subst}
use umleitung.Base.{
  ℕ, ◌≡◌, refl, sym, Bool, true, false, Option, none, some, List, [], ◌∷◌, map, All, ◌==◌ as nat_eq,
  if◌then◌else◌,
}
use umleitung.Base.Text.{Text, codes, contains, ℤ, pos, trim_space, ◌==◌}
use umleitung.Base.Exec.{ok, pure}
use umleitung.Key.{dedup_key}
use umleitung.State.Tables.{empty_db}
use umleitung.Env.{Env, World}
use umleitung.Imap.Wire.{Wire, Criteria, FetchBuffer}
use umleitung.Imap.Criteria.Laws.{matches}
use umleitung.Imap.Client.{dialled}
use umleitung.Imap.Fetch.{meta_of, parse_meta_header}
use umleitung.Imap.Link.{imap_env}
use umleitung.Imap.Laws.{WireDestLaws, WireSourceLaws}
use umleitung.Imap.Laws.Provide.{date_of}
use umleitung.Tests.Toy.{hex, keep, ok-injective, Holds-more, Holds-first, toy, start}

abbrev body_one : FetchBuffer
body_one = record {
  uid = 1;
  section = codes "one@x";
  internal_date = pos 10;
  rfc822_size = 5;
  flags = [];
}

abbrev body_two : FetchBuffer
body_two = record {
  uid = 2;
  section = codes "two@x";
  internal_date = pos 20;
  rfc822_size = 5;
  flags = [];
}

-- a header is the text of its Message-ID
abbrev pub fields : Text → Text → Text
fields text name = if name == codes "Message-Id" then text else []

abbrev pub sent_key : Text → Option ℤ → Text
sent_key raw time = trim_space raw

abbrev pub Pending : Type 0
Pending = Option ℤ × Text

abbrev pub key_of : Pending → Text
key_of a = sent_key a.1 a.0

abbrev stored_in : List Text → FetchBuffer → Bool
stored_in s b = contains s (sent_key b.section none)

abbrev wanted : List ℕ → FetchBuffer → Bool
wanted [] b = false
wanted (u ∷ us) b = if nat_eq u b.uid then true else wanted us b

-- SEARCH: a header field contains a text if it is the text
abbrev meets : FetchBuffer → Criteria → Bool
meets b q = matches (λ key value. fields b.section key == value) q

abbrev pub uids_met : Criteria → List ℕ
uids_met q = map (λ b. b.uid) (keep (λ b. meets b q) (body_one ∷ body_two ∷ []))

abbrev pub toy_wire : Wire
toy_wire = record {
  Conn = List Text;
  Command = Pending;
  connect = pure tt;
  wildcard = codes "\\*";
  read_header = λ text. some (fields text);
  has_special_use = λ c. (true, c);
  select =
      λ f. pure (record { uid_validity = 7; uid_next = 3; num_messages = 2; permanent_flags = [] });
  create = λ f. pure tt;
  idle = pure tt;
  list = λ b. pure [];
  uid_search = λ q. pure (uids_met q);
  fetch_headers = λ us c. ((keep (stored_in c) (body_one ∷ body_two ∷ []), none), c);
  fetch_bodies = λ us c. ((keep (wanted us) (body_one ∷ body_two ∷ []), none), c);
  append = λ f n flags time c. ((time, []), c);
  write = λ a raw. pure (a.0, raw);
  close = λ a. pure tt;
  wait = λ a c. (ok tt, key_of a ∷ c);
  move = λ us f. pure tt;
  store = λ us add flags. pure tt;
}

abbrev pub HoldsKey : Text → List Text → Type 0
HoldsKey k s = contains s k ≡ true

abbrev pub key_at : List Text → ℕ → Text
key_at c u = if nat_eq u 1 then sent_key body_one.section none else sent_key body_two.section none

carried_key :
    (time : Option ℤ) (raw : Text) (a : Pending)
    → ok (time, raw) ≡ ok a
    → key_of a ≡ sent_key raw time
carried_key time raw a e =
    subst (λ (b : Pending). key_of b ≡ sent_key raw time) (ok-injective (time, raw) a e) refl

All-both :
    (P : FetchBuffer → Type 0) (p : FetchBuffer → Bool)
    → (p body_one ≡ true → P body_one)
    → (p body_two ≡ true → P body_two)
    → All P (keep p (body_one ∷ body_two ∷ []))
All-both P p h k = go (p body_one) (p body_two) h k
  where
    go :
        (a b : Bool)
        → (a ≡ true → P body_one)
        → (b ≡ true → P body_two)
        → All P (
            if a
            then body_one ∷ (if b then body_two ∷ [] else [])
            else (if b then body_two ∷ [] else []))
    go true true h k = (h refl, (k refl, tt))
    go true false h k = (h refl, tt)
    go false true h k = (k refl, tt)
    go false false h k = tt

key_one : dedup_key hex (meta_of toy_wire body_one) ≡ sent_key body_one.section none
unfolding dedup_key meta_of parse_meta_header trim_space ◌==◌
key_one = refl

key_two : dedup_key hex (meta_of toy_wire body_two) ≡ sent_key body_two.section none
unfolding dedup_key meta_of parse_meta_header trim_space ◌==◌
key_two = refl

pub toy_wire-WireDestLaws : WireDestLaws toy_wire hex HoldsKey key_of sent_key
toy_wire-WireDestLaws = record {
  connect_keeps = λ k c h. h;
  select_keeps = λ f k c h. h;
  create_keeps = λ f k c h. h;
  search_keeps = λ q k c h. h;
  headers_keeps = λ us k c h. h;
  append_keeps = λ f n flags time k c h. h;
  write_keeps = λ a raw k c h. h;
  close_keeps = λ a k c h. h;
  wait_keeps = λ a k c. Holds-more (key_of a) k c;
  move_keeps = λ us f k c h. h;
  store_keeps = λ us add flags k c h. h;
  shown = λ us c.
      All-both _ (stored_in c) (subst (λ k. HoldsKey k c) (sym key_one))
        (subst (λ k. HoldsKey k c) (sym key_two));
  carried = λ f n flags time raw c. carried_key time raw;
  stored = λ a c e. Holds-first (key_of a) c;
}

pub toy_wire-WireSourceLaws : WireSourceLaws toy_wire hex key_at sent_key date_of
toy_wire-WireSourceLaws = record {
  shown = λ us c. All-both _ (stored_in c) (λ e. key_one) (λ e. key_two);
  bodies = λ us c. All-both _ (wanted us) (λ e f. refl) (λ e f. refl);
}

abbrev pub wire_env : Env
wire_env = imap_env toy_wire toy.names hex toy.faults toy.done toy.now

abbrev pub wire_start : World wire_env
wire_start = record {
  conn = record {
    db = record empty_db {
      copied = record { key = sent_key body_one.section none; uid = 1; copied_at = 0 } ∷ [];
    };
    calls = 0;
  };
  src = dialled toy_wire (codes "All") [];
  dst = dialled toy_wire (codes "INBOX") (sent_key body_one.section none ∷ []);
  sum = start.sum;
  polls = 0;
}
