-- ===== src/Imap/Search.antt =====
-- internal/imapx/client.go: `SearchMessageIDsIn`.
pub mod Found
pub mod Complete
use umleitung.Base.{
  ℕ, zero, suc, ◌+◌, ◌-◌, ◌/◌, Bool, true, false, ◌&&◌, List, [], ◌∷◌, ◌++◌, length, take, drop,
  ltb, if◌then◌else◌,
}
use umleitung.Base.Text.{Text, codes, ◌==◌}
use umleitung.Base.Exec.{
  Error, Result, ok, err, server_bad, diverged, Exec, pure, raise, gets, ◌>>=◌, ◌>>◌,
}
use umleitung.Key.{MsgMeta}
use umleitung.Imap.Wire.{Wire, uid_list}
use umleitung.Imap.Criteria.{or_message_id_criteria}
use umleitung.Imap.Client.{Client, on_conn, ensure_selected}
use umleitung.Imap.Fetch.{fetch_metas}

unfoldable pub is_bad_response : Error → Bool
is_bad_response server_bad = true
is_bad_response _ = false

-- the keys set in `found`
unfoldable pub message_ids : List MsgMeta → List Text
message_ids [] = []
message_ids (m ∷ ms) =
    let rest = message_ids ms in if m.message_id == codes "" then rest else m.message_id ∷ rest

-- `min(i+cl.guardChunk, len(ids))`
abbrev pub end_of : ℕ → ℕ → ℕ → ℕ
end_of i chunk n = if ltb (i + chunk) n then i + chunk else n

module _ (W : Wire) where
  -- the search of the span from `i` to `stop`
  abbrev pub span : List Text → ℕ → ℕ → List Text
  span ids i stop = take (stop - i) (drop i ids)

  -- what the rest of the loop does at an index, with what was found
  abbrev pub Loop : Type 0
  Loop = ℕ → List Text → Exec (Client W) (List Text)

  abbrev pub after_hits : Loop → ℕ → List Text → List ℕ → Exec (Client W) (List Text)
  after_hits rest stop found [] = rest stop found
  after_hits rest stop found (u ∷ uids) = do
    metas ← fetch_metas W (uid_list (u ∷ uids))
    rest stop (found ++ message_ids metas)

  abbrev pub halve : Client W → Client W
  halve cl = record cl { guard_chunk = cl.guard_chunk / 2 }

  abbrev pub after_search :
      Loop → ℕ → ℕ → List Text → Result (List ℕ) × Client W → Result (List Text) × Client W
  after_search rest i stop found (ok uids, cl) = after_hits rest stop found uids cl
  after_search rest i stop found (err e, cl) =
      if ltb 1 cl.guard_chunk && is_bad_response e then rest i found (halve cl) else (err e, cl)

  -- one round of the loop
  unfoldable pub search_round : Loop → List Text → ℕ → List Text → Exec (Client W) (List Text)
  search_round rest ids i found cl =
      let stop = end_of i cl.guard_chunk (length ids) in
      after_search rest i stop found
        (on_conn (W.uid_search (or_message_id_criteria (span ids i stop))) cl)

  -- The loop, in at most so many rounds: each finishes a span or halves the chunk.
  unfoldable pub search_loop : ℕ → List Text → Loop
  search_loop zero ids i found = raise diverged
  search_loop (suc fuel) ids i found =
      let rest = search_loop fuel ids in
      if ltb i (length ids) then search_round rest ids i found else pure found

  unfoldable pub search_message_ids_in : Text → List Text → Exec (Client W) (List Text)
  search_message_ids_in folder [] = pure []
  search_message_ids_in folder (id ∷ ids) = do
    ensure_selected W folder
    chunk ← gets (λ (cl : Client W). cl.guard_chunk)
    search_loop (suc (length (id ∷ ids) + chunk)) (id ∷ ids) 0 []
