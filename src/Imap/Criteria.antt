-- ===== src/Imap/Criteria.antt =====
-- internal/imapx/client.go: `orMessageIDCriteria`.
pub mod Laws
use umleitung.Base.{ℕ, zero, suc, ◌/◌, List, [], ◌∷◌, length, take, drop}
use umleitung.Base.Text.{Text, codes}
use umleitung.Imap.Wire.{Criteria, all_messages, header, or}

abbrev pub message_id_key : Text
message_id_key = codes "Message-Id"

-- The recursion, in at most so many levels. The source calls it with no empty list.
unfoldable pub criteria_tree : ℕ → List Text → Criteria
criteria_tree zero ids = all_messages
criteria_tree (suc fuel) [] = all_messages
criteria_tree (suc fuel) (id ∷ []) = header message_id_key id
criteria_tree (suc fuel) (id ∷ jd ∷ ids) =
    let mid = length (id ∷ jd ∷ ids) / 2 in
    or (criteria_tree fuel (take mid (id ∷ jd ∷ ids)))
      (criteria_tree fuel (drop mid (id ∷ jd ∷ ids)))

unfoldable pub or_message_id_criteria : List Text → Criteria
or_message_id_criteria ids = criteria_tree (length ids) ids
