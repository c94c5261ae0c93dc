-- ===== src/Imap/Search/Complete.antt =====
-- The search for Message-IDs ends, and finds what is there.
use umleitung.Base.{
  ℕ, zero, suc, ◌+◌, ◌-◌, ◌≤◌, ◌<◌, ◌≡◌, refl, ap, ◌∙◌, true, false, ◌&&◌, ◌||◌, Option, none, some,
  List, [], ◌∷◌, ◌++◌, length, take, drop, length-take, length-drop, ltb, Bool-cases, inl, inr,
  arith,
}
use umleitung.Base.Text.{contains-append, Text, contains, ◌==◌}
use umleitung.Base.Exec.{Error, Result, ok, err, pure, gets, continue, ◌>>=◌}
use umleitung.Imap.Wire.{Wire, FetchBuffer, uid_list}
use umleitung.Imap.Criteria.{or_message_id_criteria}
use umleitung.Imap.Criteria.Laws.{matches-or_message_id_criteria}
use umleitung.Imap.Client.{Client, on_conn, ensure_selected}
use umleitung.Imap.Fetch.{sort_by_uid, metas_of, sorted_metas, fetch_metas}
use umleitung.Imap.Wire.{SelectData}
use umleitung.Imap.Client.{after_select, select_named_folder}
use umleitung.Imap.Search.Found.{
  is_diverged, returns, has_uid_of, names_id, SearchLaws, contains-any, message_ids-sort_by_uid,
  take-append-span, take_all,
}
use umleitung.Imap.Search.{
  message_ids, is_bad_response, end_of, span, Loop, after_hits, halve, after_search, search_round,
  search_loop, search_message_ids_in,
}

module _ (W : Wire) (Has : Text → ℕ → W.Conn → Type 0) (S : SearchLaws W Has) (id : Text)
    (u : ℕ) where
  -- the search has found the message, or has failed as a call of the connection has
  abbrev pub IsDone : Result (List Text) × Client W → Type 0
  IsDone (ok found, cl) = contains found id ≡ true
  IsDone (err e, cl) = is_diverged e ≡ false

  -- what was asked for so far is found
  abbrev Covers : List Text → ℕ → List Text → Type 0
  Covers ids i found = contains (take i ids) id ≡ true → contains found id ≡ true

  -- enough rounds are left
  abbrev HasRounds : ℕ → List Text → ℕ → ℕ → Type 0
  HasRounds fuel ids i chunk = (0 < chunk) × ((length ids - i) + chunk < fuel)

  -- the rest of the loop is right from every index with rounds enough
  abbrev IsRight : ℕ → List Text → Loop W → Type 0
  IsRight fuel ids rest =
      (i : ℕ) (found : List Text) (cl : Client W)
      → HasRounds fuel ids i cl.guard_chunk
      → Has id u cl.c
      → Covers ids i found
      → IsDone (rest i found cl)

  Covers-append :
      (ids : List Text) (stop : ℕ) (found more : List Text)
      → contains more id ≡ true
      → Covers ids stop (found ++ more)
  Covers-append ids stop found more h e = let a = contains-append found more id in ground arith

  after_fetch :
      (fuel : ℕ) (ids : List Text) (rest : Loop W) (stop : ℕ) (found : List Text)
      (x : List FetchBuffer × Option Error) (cl : Client W)
      → IsRight fuel ids rest
      → HasRounds fuel ids stop cl.guard_chunk
      → Has id u cl.c
      → ((x.1 ≡ none) → Covers ids stop (found ++ message_ids (sort_by_uid (metas_of W x.0))))
      → ((e : Error) → x.1 ≡ some e → is_diverged e ≡ false)
      → IsDone (continue (sorted_metas W x) (λ metas. rest stop (found ++ message_ids metas)) cl)
  after_fetch fuel ids rest stop found (bufs, some e) cl r f h c d = d e refl
  after_fetch fuel ids rest stop found (bufs, none) cl r f h c d =
      r stop (found ++ message_ids (sort_by_uid (metas_of W bufs))) cl f h (c refl)

  -- what a search of a span tells
  abbrev IsHit : List Text → ℕ → List Text → List ℕ → Type 0
  IsHit ids stop found us =
      contains (take stop ids) id ≡ true → (contains found id || has_uid_of us u) ≡ true

  after_hits-IsDone :
      (fuel : ℕ) (ids : List Text) (rest : Loop W) (stop : ℕ) (found : List Text) (us : List ℕ)
      (cl : Client W)
      → IsRight fuel ids rest
      → HasRounds fuel ids stop cl.guard_chunk
      → Has id u cl.c
      → IsHit ids stop found us
      → IsDone (after_hits W rest stop found us cl)
  unfolding fetch_metas
  after_hits-IsDone fuel ids rest stop found [] cl r f h hit =
      r stop found cl f h (λ e. let g = hit e in ground arith)
  after_hits-IsDone fuel ids rest stop found (v ∷ us) cl r f h hit =
      let x = W.fetch_headers (uid_list (v ∷ us)) cl.c in
      after_fetch fuel ids rest stop found x.0 (record cl { c = x.1 }) r f
        (S.headers_keeps (v ∷ us) id u cl.c h)
        (λ good e. elim (Bool-cases (has_uid_of (v ∷ us) u)) [
          | inl there ↦
              let shown = S.shows (v ∷ us) id u cl.c h there good in
              let sorted = message_ids-sort_by_uid (metas_of W x.0.0) id in
              Covers-append ids stop found (message_ids (sort_by_uid (metas_of W x.0.0)))
                (sorted ∙ shown) e
          | inr absent ↦
              let g = hit e in
              let a = contains-append found (message_ids (sort_by_uid (metas_of W x.0.0))) id in
              ground arith
        ])
        (S.headers_return (v ∷ us) cl.c)

  after_search-IsDone :
      (fuel : ℕ) (ids : List Text) (rest : Loop W) (i stop : ℕ) (found : List Text)
      (x : Result (List ℕ) × Client W)
      → IsRight fuel ids rest
      → HasRounds (suc fuel) ids i x.1.guard_chunk
      → i < stop
      → stop ≤ length ids
      → Has id u x.1.c
      → Covers ids i found
      → ((us : List ℕ) → x.0 ≡ ok us → IsHit ids stop found us)
      → (returns x.0 ≡ true)
      → IsDone (after_search W rest i stop found x)
  after_search-IsDone fuel ids rest i stop found (ok us, cl) r f a b h c hit ret =
      after_hits-IsDone fuel ids rest stop found us cl r (f.0, omega (arith, f.1)) h (hit us refl)
  after_search-IsDone fuel ids rest i stop found (err e, cl) r f a b h c hit ret =
      elim (Bool-cases (ltb 1 cl.guard_chunk && is_bad_response e)) [
        | inl bad ↦
            let more : 1 < cl.guard_chunk = ground arith in
            rw bad (r i found (halve W cl) (omega arith, omega (arith, f.1)) h c)
        | inr good ↦ rw good (ground arith)
      ]

  end_of-bounds :
      (i chunk n : ℕ) → 0 < chunk → i < n → (i < end_of i chunk n) × (end_of i chunk n ≤ n)
  end_of-bounds i chunk n c l = (ground arith, ground arith)

  -- the criteria of a span are met by its texts
  span-IsHit :
      (ids : List Text) (i stop : ℕ) (found : List Text) (cl : Client W) (us : List ℕ)
      → i < stop
      → stop ≤ length ids
      → Has id u cl.c
      → Covers ids i found
      → (W.uid_search (or_message_id_criteria (span W ids i stop)) cl.c).0 ≡ ok us
      → IsHit ids stop found us
  span-IsHit ids i stop found cl us l b h c e within =
      let part = span W ids i stop in
      let split = ap (λ xs. contains xs id) (take-append-span ids i stop (omega arith)) in
      let either = contains-append (take i ids) part id in
      let some_left = length-drop i ids in
      let long = length-take (stop - i) (drop i ids) (omega (arith, some_left)) in
      let met =
        matches-or_message_id_criteria (names_id id) part (omega (arith, long))
        ∙ contains-any part id in
      elim (Bool-cases (contains part id)) [
        | inl inside ↦
            let hit = S.finds (or_message_id_criteria part) id u cl.c us h (met ∙ inside) e in
            ground arith
        | inr outside ↦
            let first : contains (take i ids) id ≡ true = ground arith in
            let before = c first in ground arith
      ]

  search_loop-IsRight :
      (fuel : ℕ) (ids : List Text)
      → contains ids id ≡ true
      → IsRight fuel ids (search_loop W fuel ids)
  unfolding search_loop search_round
  search_loop-IsRight zero ids asked i found cl f h c = let n : ⊥ = omega (arith, f.1) in elim n [ ]
  search_loop-IsRight (suc fuel) ids asked i found cl f h c =
      elim (Bool-cases (ltb i (length ids))) [
        | inl more ↦
            let stop = end_of i cl.guard_chunk (length ids) in
            let b = end_of-bounds i cl.guard_chunk (length ids) f.0 (ground arith) in
            let q = or_message_id_criteria (span W ids i stop) in
            rw more (
              after_search-IsDone fuel ids (search_loop W fuel ids) i stop found
                (on_conn (W.uid_search q) cl) (search_loop-IsRight fuel ids asked) f b.0 b.1
                (S.search_keeps q id u cl.c h) c
                (λ us e. span-IsHit ids i stop found cl us b.0 b.1 h c e) (S.search_returns q cl.c))
        | inr over ↦
            let all = take_all i ids (ground arith) in
            rw over (c (ap (λ xs. contains xs id) all ∙ asked))
      ]

  -- from the selection of the folder on
  selected-IsDone :
      (jd : Text) (ids : List Text) (x : Result (Unit {0}) × Client W)
      → contains (jd ∷ ids) id ≡ true
      → 0 < x.1.guard_chunk
      → Has id u x.1.c
      → (returns x.0 ≡ true)
      → IsDone (
          continue x.0
            (λ v. do
              chunk ← gets (λ (cl : Client W). cl.guard_chunk)
              search_loop W (suc (length (jd ∷ ids) + chunk)) (jd ∷ ids) 0 [])
            x.1)
  selected-IsDone jd ids (ok v, cl) asked f h r =
      search_loop-IsRight (suc (length (jd ∷ ids) + cl.guard_chunk)) (jd ∷ ids) asked 0 [] cl
        (f, omega arith) h (λ e. e)
  selected-IsDone jd ids (err e, cl) asked f h r = ground arith

  ensure_selected-guard_chunk :
      (f : Text) (cl : Client W) → (ensure_selected W f cl).1.guard_chunk ≡ cl.guard_chunk
  unfolding ensure_selected select_named_folder
  ensure_selected-guard_chunk f cl = elim (Bool-cases (cl.selected == f)) [
    | inl same ↦ rw same refl
    | inr other ↦ rw other (go (on_conn (W.select f) cl) refl)
  ]
    where
      go :
          (x : Result SelectData × Client W)
          → x.1.guard_chunk ≡ cl.guard_chunk
          → (continue {0, 0, 0}
              (after_select W f x).0
              (λ st. pure tt)
              (after_select W f x).1).1.guard_chunk
            ≡ cl.guard_chunk
      go (ok d, c) e = e
      go (err x, c) e = e

  ensure_selected-returns : (f : Text) (cl : Client W) → returns (ensure_selected W f cl).0 ≡ true
  unfolding ensure_selected select_named_folder
  ensure_selected-returns f cl = elim (Bool-cases (cl.selected == f)) [
    | inl same ↦ rw same refl
    | inr other ↦ rw other (go (on_conn (W.select f) cl) (S.select_returns f cl.c))
  ]
    where
      go :
          (x : Result SelectData × Client W)
          → returns x.0 ≡ true
          → returns
              (continue {0, 0, 0} (after_select W f x).0 (λ st. pure tt) (after_select W f x).1).0
            ≡ true
      go (ok d, c) e = refl
      go (err x, c) e = e

  -- If a chunk has room for a text, SEARCH finds a message by criteria that its field Message-Id meets,
  -- FETCH shows it, neither changes it, and no call of the connection runs out of rounds, then a search
  -- for a list of Message-IDs, one of which is that of a message of the folder, returns that one among
  -- others, or fails as a call of the connection does: its rounds are enough, however often the server
  -- refuses a chunk.
  pub search_message_ids_in-IsDone :
      (f : Text) (ids : List Text) (cl : Client W)
      → contains ids id ≡ true
      → 0 < cl.guard_chunk
      → Has id u (ensure_selected W f cl).1.c
      → IsDone (search_message_ids_in W f ids cl)
  unfolding search_message_ids_in
  search_message_ids_in-IsDone f [] cl asked c h = let n : ⊥ = cc in elim n [ ]
  search_message_ids_in-IsDone f (jd ∷ ids) cl asked c h =
      selected-IsDone jd ids (ensure_selected W f cl) asked
        (omega (arith, ensure_selected-guard_chunk f cl)) h (ensure_selected-returns f cl)
