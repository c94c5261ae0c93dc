-- ===== src/Imap/Laws/Hold.antt =====
-- What the client lists and finds is on the server.
use mathlib.Core.Path.{subst}
use umleitung.Base.{
  ℕ, zero, suc, ◌+◌, ◌≡◌, refl, false, ◌&&◌, Option, none, some, List, [], ◌∷◌, ◌++◌, length, leb,
  ltb, All, All-append, All-map, Bool-cases, inl, inr,
}
use umleitung.Base.Text.{Text, codes, ℤ, ◌==◌, trim_space}
use umleitung.Base.Trim.{trim_space-trim_space, trim_space-nil}
use umleitung.Base.Exec.{Error, Result, ok, err, gets, continue, ◌>>=◌}
use umleitung.Base.Hoare.{After}
use umleitung.Key.{MsgMeta, dedup_key}
use umleitung.Imap.Wire.{Wire, FetchBuffer, UidSet, uid_list}
use umleitung.Imap.Criteria.{or_message_id_criteria}
use umleitung.Imap.Client.{Client, on_conn, ensure_selected}
use umleitung.Imap.Fetch.{
  insert_by_uid, sort_by_uid, fields_of, parse_meta_header, meta_of, metas_of, sorted_metas,
  fetch_metas,
}
use umleitung.Imap.Search.{
  message_ids, is_bad_response, end_of, span, Loop, after_hits, halve, after_search, search_round,
  search_loop, search_message_ids_in,
}
use umleitung.Imap.Laws.{WireDestLaws}
use umleitung.Imap.Laws.Keep.{Keeps-uid_search, Keeps-fetch_metas}

pub All-insert_by_uid :
    (P : MsgMeta → Type 0) (m : MsgMeta) (ms : List MsgMeta)
    → P m
    → All P ms
    → All P (insert_by_uid m ms)
unfolding insert_by_uid
All-insert_by_uid P m [] p h = (p, tt)
All-insert_by_uid P m (n ∷ ms) p h = elim (Bool-cases (leb m.uid n.uid)) [
  | inl e ↦ rw e (p, h)
  | inr e ↦ rw e (h.0, All-insert_by_uid P m ms p h.1)
]

pub All-sort_by_uid : (P : MsgMeta → Type 0) (ms : List MsgMeta) → All P ms → All P (sort_by_uid ms)
unfolding sort_by_uid
All-sort_by_uid P [] h = tt
All-sort_by_uid P (m ∷ ms) h = All-insert_by_uid P m (sort_by_uid ms) h.0 (All-sort_by_uid P ms h.1)

pub All-metas_of :
    (W : Wire) (P : MsgMeta → Type 0) (bufs : List FetchBuffer)
    → All (λ b. P (meta_of W b)) bufs
    → All P (metas_of W bufs)
All-metas_of W P [] h = tt
All-metas_of W P (b ∷ bufs) h = (h.0, All-metas_of W P bufs h.1)

-- a fetched Message-ID is trimmed
abbrev IsTrimmed : MsgMeta → Type 0
IsTrimmed m = trim_space m.message_id ≡ m.message_id

IsTrimmed-meta_of : (W : Wire) (b : FetchBuffer) → IsTrimmed (meta_of W b)
unfolding meta_of parse_meta_header
IsTrimmed-meta_of W b = go b.section
  where
    fields :
        (h : Option (Text → Text))
        → trim_space (fields_of W h).message_id ≡ (fields_of W h).message_id
    fields none = trim_space-nil
    fields (some get) = trim_space-trim_space (get (codes "Message-Id"))

    go :
        (s : Text)
        → trim_space (parse_meta_header W s).message_id ≡ (parse_meta_header W s).message_id
    go [] = trim_space-nil
    go (c ∷ s) = fields (W.read_header ((c ∷ s) ++ (13 ∷ 10 ∷ [])))

dedup_key-own :
    (hex : Text → Text) (m : MsgMeta)
    → IsTrimmed m
    → (m.message_id == codes "") ≡ false
    → dedup_key hex m ≡ m.message_id
unfolding dedup_key
dedup_key-own hex m t e = rw (t, e) refl

module _ (W : Wire) (hex : Text → Text) (Holds : Text → W.Conn → Type 0) (key_of : W.Command → Text)
    (sent_key : Text → Option ℤ → Text) (D : WireDestLaws W hex Holds key_of sent_key) where
  -- the messages of a listing are there
  abbrev Shown : W.Conn → List MsgMeta → Type 0
  Shown c = All (λ m. IsTrimmed m × Holds (dedup_key hex m) c)

  abbrev Listed : Result (List MsgMeta) × Client W → Type 0
  Listed = After (λ ms cl. Shown cl.c ms) (λ cl. Unit)

  Listed-sorted :
      (x : List FetchBuffer × Option Error) (cl : Client W)
      → All (λ b. Holds (dedup_key hex (meta_of W b)) cl.c) x.0
      → Listed (sorted_metas W x, cl)
  Listed-sorted (bufs, some e) cl h = tt
  Listed-sorted (bufs, none) cl h = All-sort_by_uid _ (metas_of W bufs) (
      All-metas_of W (λ m. IsTrimmed m × Holds (dedup_key hex m) cl.c) bufs
        (All-map bufs (λ b held. (IsTrimmed-meta_of W b, held)) h))

  pub Listed-fetch_metas : (us : UidSet) (cl : Client W) → Listed (fetch_metas W us cl)
  unfolding fetch_metas
  Listed-fetch_metas us cl =
      let x = W.fetch_headers us cl.c in Listed-sorted x.0 (record cl { c = x.1 }) (D.shown us cl.c)

  -- every key of a list is held
  abbrev pub AreHeld : List Text → Client W → Type 0
  AreHeld ks cl = All (λ k. Holds k cl.c) ks

  AreHeld-message_ids :
      (ms : List MsgMeta) (cl : Client W) → Shown cl.c ms → AreHeld (message_ids ms) cl
  unfolding message_ids
  AreHeld-message_ids [] cl h = tt
  AreHeld-message_ids (m ∷ ms) cl h = elim (Bool-cases (m.message_id == codes "")) [
    | inl e ↦ rw e (AreHeld-message_ids ms cl h.1)
    | inr e ↦ rw e (
      subst (λ k. Holds k cl.c) (dedup_key-own hex m h.0.0 e) h.0.1,
      AreHeld-message_ids ms cl h.1,
    )
  ]

  abbrev pub Sound : Result (List Text) × Client W → Type 0
  Sound = After (λ ks cl. AreHeld ks cl) (λ cl. Unit)

  abbrev IsSoundLoop : Loop W → Type 0
  IsSoundLoop rest =
      (i : ℕ) (found : List Text) (cl : Client W) → AreHeld found cl → Sound (rest i found cl)

  Sound-metas :
      (rest : Loop W) (stop : ℕ) (found : List Text)
      → IsSoundLoop rest
      → (x : Result (List MsgMeta) × Client W) → Listed x
      → AreHeld found x.1
      → Sound (continue x.0 (λ metas. rest stop (found ++ message_ids metas)) x.1)
  Sound-metas rest stop found s (ok ms, cl) l h =
      s stop (found ++ message_ids ms) cl
        (All-append (λ k. Holds k cl.c) found (message_ids ms) h (AreHeld-message_ids ms cl l))
  Sound-metas rest stop found s (err e, cl) l h = tt

  Sound-after_hits :
      (rest : Loop W) (stop : ℕ) (found : List Text)
      → IsSoundLoop rest
      → (us : List ℕ) (cl : Client W) → AreHeld found cl
      → Sound (after_hits W rest stop found us cl)
  Sound-after_hits rest stop found s [] cl h = s stop found cl h
  Sound-after_hits rest stop found s (u ∷ us) cl h =
      Sound-metas rest stop found s (fetch_metas W (uid_list (u ∷ us)) cl)
        (Listed-fetch_metas (uid_list (u ∷ us)) cl)
        (All-map found
          (λ k. (Keeps-fetch_metas W hex Holds key_of sent_key D k (uid_list (u ∷ us))).at cl) h)

  Sound-after_search :
      (rest : Loop W) (i stop : ℕ) (found : List Text)
      → IsSoundLoop rest
      → (x : Result (List ℕ) × Client W) → AreHeld found x.1
      → Sound (after_search W rest i stop found x)
  Sound-after_search rest i stop found s (ok us, cl) h = Sound-after_hits rest stop found s us cl h
  Sound-after_search rest i stop found s (err e, cl) h =
      elim (Bool-cases (ltb 1 cl.guard_chunk && is_bad_response e)) [
        | inl b ↦ rw b (s i found (halve W cl) h)
        | inr b ↦ rw b tt
      ]

  Sound-search_loop : (fuel : ℕ) (ids : List Text) → IsSoundLoop (search_loop W fuel ids)
  unfolding search_loop search_round
  Sound-search_loop zero ids i found cl h = tt
  Sound-search_loop (suc fuel) ids i found cl h = elim (Bool-cases (ltb i (length ids))) [
    | inl more ↦
        let q = or_message_id_criteria (span W ids i (end_of i cl.guard_chunk (length ids))) in
        rw more (
          Sound-after_search (search_loop W fuel ids) i (end_of i cl.guard_chunk (length ids)) found
            (Sound-search_loop fuel ids) (on_conn (W.uid_search q) cl)
            (All-map found (λ k. (Keeps-uid_search W hex Holds key_of sent_key D k q).at cl) h))
    | inr done ↦ rw done h
  ]

  Sound-selected :
      (id : Text) (ids : List Text) (x : Result (Unit {0}) × Client W)
      → Sound (
          continue x.0
            (λ u. do
              chunk ← gets (λ (cl : Client W). cl.guard_chunk)
              search_loop W (suc (length (id ∷ ids) + chunk)) (id ∷ ids) 0 [])
            x.1)
  Sound-selected id ids (ok u, cl) = Sound-search_loop _ (id ∷ ids) 0 [] cl tt
  Sound-selected id ids (err e, cl) = tt

  pub Sound-search_message_ids_in :
      (f : Text) (ids : List Text) (cl : Client W) → Sound (search_message_ids_in W f ids cl)
  unfolding search_message_ids_in
  Sound-search_message_ids_in f [] cl = tt
  Sound-search_message_ids_in f (id ∷ ids) cl = Sound-selected id ids (ensure_selected W f cl)
