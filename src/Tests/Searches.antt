-- ===== src/Tests/Searches.antt =====
-- The search for Message-IDs, applied to the wire of two messages.
use mathlib.Core.Path.{subst}
use umleitung.Base.{
  ℕ, ◌≡◌, refl, sym, ap, ◌∙◌, ◌<◌, Bool, Bool-cases, inl, inr, true, List, [], ◌∷◌, arith,
}
use umleitung.Base.Text.{Text, codes, contains, trim_space, ◌==◌, eq_iff, eq_refl}
use umleitung.Base.Exec.{ok}
use umleitung.Imap.Wire.{Criteria, all_messages, header, or, uid_list}
use umleitung.Imap.Criteria.Laws.{matches}
use umleitung.Imap.Client.{dialled, ensure_selected, select_named_folder}
use umleitung.Imap.Fetch.{meta_of, metas_of, parse_meta_header}
use umleitung.Imap.Search.{message_ids, search_message_ids_in}
use umleitung.Imap.Search.Found.{has_uid_of, names_id, SearchLaws}
use umleitung.Imap.Search.Complete.{IsDone, search_message_ids_in-IsDone}
use umleitung.Tests.Toy.{ok-injective}
use umleitung.Tests.ToyWire.{toy_wire, fields, uids_met, wire_start}

abbrev one : Text
one = codes "one@x"

-- the first message is stored
abbrev HasOne : Text → ℕ → List Text → Type 0
HasOne id u c = (id ≡ one) × (u ≡ 1) × (contains c one ≡ true)

-- criteria are met by a message whose fields contain more
matches-more :
    (p r : Text → Text → Bool) (q : Criteria)
    → ((key v : Text) → p key v ≡ true → r key v ≡ true)
    → matches p q ≡ true
    → matches r q ≡ true
matches-more p r all_messages h m = refl
matches-more p r (header key v) h m = h key v m
matches-more p r (or x y) h m = elim (Bool-cases (matches p x)) [
  | inl e ↦ rw (matches-more p r x h e) refl
  | inr e ↦ let f = matches-more p r y h (ground (arith, m, e)) in ground (arith, f)
]

names_id-meets : (key v : Text) → names_id one key v ≡ true → (fields one key == v) ≡ true
names_id-meets key v h =
    let k : (key == codes "Message-Id") ≡ true = ground (arith, h) in
    let e : (v == one) ≡ true = ground (arith, h) in rw (k, (eq_iff v one).0 e) (eq_refl one)

one_found :
    (q : Criteria) (id : Text) (u : ℕ) (us : List ℕ)
    → id ≡ one
    → u ≡ 1
    → matches (names_id id) q ≡ true
    → ok (uids_met q) ≡ ok us
    → has_uid_of us u ≡ true
one_found q id u us h n m e =
    let met =
      matches-more (names_id one) (λ key v. fields one key == v) q names_id-meets
        (ap (λ i. matches (names_id i) q) (sym h) ∙ m) in
    subst (λ vs. has_uid_of vs u ≡ true) (ok-injective (uids_met q) us e) (rw (met, n) refl)

one_shown :
    (us : List ℕ) (id : Text) (c : List Text)
    → id ≡ one
    → contains c one ≡ true
    → contains (message_ids (metas_of toy_wire (toy_wire.fetch_headers (uid_list us) c).0.0)) id
      ≡ true
unfolding message_ids meta_of parse_meta_header trim_space ◌==◌
one_shown us id c h e = rw (h, e) refl

toy_wire-SearchLaws : SearchLaws toy_wire HasOne
toy_wire-SearchLaws = record {
  finds = λ q id u c us h m e. one_found q id u us h.0 h.1 m e;
  search_keeps = λ q id u c h. h;
  shows = λ us id u c h m e. one_shown us id c h.0 h.2;
  headers_keeps = λ us id u c h. h;
  select_returns = λ f c. refl;
  search_returns = λ q c. refl;
  headers_return = λ us c e h. let n : ⊥ = cc in elim n [ ];
}

abbrev asked : List Text
asked = codes "none@x" ∷ one ∷ []

asked-one : contains asked one ≡ true
unfolding ◌==◌
asked-one = refl

room : 0 < wire_start.dst.guard_chunk
unfolding dialled
room = omega arith

there : HasOne one 1 (ensure_selected toy_wire (codes "INBOX") wire_start.dst).1.c
unfolding ensure_selected select_named_folder dialled trim_space ◌==◌
there = (refl, refl, refl)

search_message_ids_in-IsDone_example :
    IsDone toy_wire HasOne toy_wire-SearchLaws one 1
      (search_message_ids_in toy_wire (codes "INBOX") asked wire_start.dst)
search_message_ids_in-IsDone_example =
    search_message_ids_in-IsDone toy_wire HasOne toy_wire-SearchLaws one 1 (codes "INBOX") asked
      wire_start.dst asked-one room there
