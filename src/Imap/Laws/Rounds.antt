-- ===== src/Imap/Laws/Rounds.antt =====
-- The rounds of `SearchMessageIDsIn` keep the messages of the server.
use umleitung.Base.{
  ℕ, zero, suc, ◌+◌, ◌&&◌, Option, Bool-cases, inl, inr, List, [], ◌∷◌, ◌++◌, length, ltb,
}
use umleitung.Base.Text.{Text, ℤ}
use umleitung.Base.Exec.{Result, ok, err, diverged, pure, gets}
use umleitung.Base.Keeps.{
  Keeps, Keeps-bind, Keeps-then, Keeps-if, Keeps-pure, Keeps-gets, Keeps-raise,
}
use umleitung.Imap.Wire.{Wire, uid_list}
use umleitung.Imap.Criteria.{or_message_id_criteria}
use umleitung.Imap.Client.{Client, on_conn, ensure_selected}
use umleitung.Imap.Fetch.{fetch_metas}
use umleitung.Imap.Search.{
  message_ids, is_bad_response, end_of, span, Loop, after_hits, halve, after_search, search_round,
  search_loop, search_message_ids_in,
}
use umleitung.Imap.Laws.{WireDestLaws}
use umleitung.Imap.Laws.Keep.{HasKey, Keeps-uid_search, Keeps-fetch_metas, Keeps-ensure_selected}

module _ (W : Wire) (hex : Text → Text) (Holds : Text → W.Conn → Type 0) (key_of : W.Command → Text)
    (sent_key : Text → Option ℤ → Text) (D : WireDestLaws W hex Holds key_of sent_key)
    (k : Text) where
  abbrev Has : Client W → Type 0
  Has = HasKey W hex Holds key_of sent_key D k

  abbrev KeepsLoop : Loop W → Type 0
  KeepsLoop rest = (i : ℕ) (found : List Text) → Keeps Has (rest i found)

  Keeps-after_hits :
      (rest : Loop W) (stop : ℕ) (found : List Text) (us : List ℕ)
      → KeepsLoop rest
      → Keeps Has (after_hits W rest stop found us)
  Keeps-after_hits rest stop found [] s = s stop found
  Keeps-after_hits rest stop found (u ∷ us) s =
      Keeps-bind (fetch_metas W (uid_list (u ∷ us))) _
        (Keeps-fetch_metas W hex Holds key_of sent_key D k (uid_list (u ∷ us)))
        (λ metas. s stop (found ++ message_ids metas))

  Has-after_search :
      (rest : Loop W) (i stop : ℕ) (found : List Text)
      → KeepsLoop rest
      → (x : Result (List ℕ) × Client W) → Has x.1
      → Has (after_search W rest i stop found x).1
  Has-after_search rest i stop found s (ok us, cl) h =
      (Keeps-after_hits rest stop found us s).at cl h
  Has-after_search rest i stop found s (err e, cl) h =
      elim (Bool-cases (ltb 1 cl.guard_chunk && is_bad_response e)) [
        | inl b ↦ rw b ((s i found).at (halve W cl) h)
        | inr b ↦ rw b h
      ]

  Keeps-search_loop : (fuel : ℕ) (ids : List Text) → KeepsLoop (search_loop W fuel ids)
  unfolding search_loop search_round
  Keeps-search_loop zero ids i found = Keeps-raise diverged
  Keeps-search_loop (suc fuel) ids i found =
      Keeps-if (ltb i (length ids)) (search_round W (search_loop W fuel ids) ids i found)
        (pure found)
        (record {
          at = λ cl h.
              let stop = end_of i cl.guard_chunk (length ids) in
              let q = or_message_id_criteria (span W ids i stop) in
              Has-after_search (search_loop W fuel ids) i stop found (Keeps-search_loop fuel ids)
                (on_conn (W.uid_search q) cl)
                ((Keeps-uid_search W hex Holds key_of sent_key D k q).at cl h);
        })
        (Keeps-pure found)

  pub Keeps-search_message_ids_in :
      (f : Text) (ids : List Text) → Keeps Has (search_message_ids_in W f ids)
  unfolding search_message_ids_in
  Keeps-search_message_ids_in f [] = Keeps-pure []
  Keeps-search_message_ids_in f (id ∷ ids) =
      Keeps-then (ensure_selected W f) _ (Keeps-ensure_selected W hex Holds key_of sent_key D k f) (
        Keeps-bind (gets (λ (cl : Client W). cl.guard_chunk)) _
          (Keeps-gets (λ (cl : Client W). cl.guard_chunk))
          (λ chunk. Keeps-search_loop (suc (length (id ∷ ids) + chunk)) (id ∷ ids) 0 []))
