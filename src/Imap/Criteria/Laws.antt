-- ===== src/Imap/Criteria/Laws.antt =====
-- What the tree of `orMessageIDCriteria` finds, and how deep it is.
use umleitung.Base.{
  ℕ, zero, suc, ◌+◌, ◌/◌, ◌≤◌, ◌<◌, ◌^◌, ◌≡◌, refl, ap, Bool, true, false, ◌||◌, List, [], ◌∷◌,
  ◌++◌, length, take, drop, take-drop, length-take, length-drop, leb, arith, if◌then◌else◌,
}
use umleitung.Base.Text.{Text, codes}
use umleitung.Imap.Wire.{Criteria, all_messages, header, or}
use umleitung.Imap.Criteria.{criteria_tree, or_message_id_criteria}

-- Whether a message meets the criteria; `p` says which of its header fields contain which texts.
abbrev pub matches : (Text → Text → Bool) → Criteria → Bool
matches p all_messages = true
matches p (header key value) = p key value
matches p (or a b) = matches p a || matches p b

abbrev pub any : (Text → Bool) → List Text → Bool
any p [] = false
any p (id ∷ ids) = p id || any p ids

-- how deep the filters are nested
abbrev pub depth : Criteria → ℕ
depth all_messages = 0
depth (header key value) = 0
depth (or a b) = 1 + (if leb (depth a) (depth b) then depth b else depth a)

any-append : (p : Text → Bool) (xs ys : List Text) → any p (xs ++ ys) ≡ any p xs || any p ys
any-append p [] ys = refl
any-append p (x ∷ xs) ys = let ih = any-append p xs ys in ground arith

matches-criteria_tree :
    (p : Text → Text → Bool) (fuel : ℕ) (ids : List Text)
    → 0 < length ids
    → length ids ≤ fuel
    → matches p (criteria_tree fuel ids) ≡ any (p (codes "Message-Id")) ids
unfolding criteria_tree
matches-criteria_tree p zero ids h f = let n : ⊥ = omega arith in elim n [ ]
matches-criteria_tree p (suc fuel) [] h f = let n : ⊥ = omega arith in elim n [ ]
matches-criteria_tree p (suc fuel) (id ∷ []) h f = ground arith
matches-criteria_tree p (suc fuel) (id ∷ jd ∷ ids) h f =
    let all = id ∷ jd ∷ ids in
    let mid = length all / 2 in
    let front = length-take mid all (omega arith) in
    let back = length-drop mid all in
    let l =
      matches-criteria_tree p fuel (take mid all) (omega (arith, front)) (omega (arith, front)) in
    let r =
      matches-criteria_tree p fuel (drop mid all) (omega (arith, back)) (omega (arith, back)) in
    let parts = any-append (p (codes "Message-Id")) (take mid all) (drop mid all) in
    let whole = ap (any (p (codes "Message-Id"))) (take-drop mid all) in cc

-- For at least one text, the tree is met exactly by the messages whose field Message-Id contains one
-- of the texts, whatever their other fields contain.
pub matches-or_message_id_criteria :
    (p : Text → Text → Bool) (ids : List Text)
    → 0 < length ids
    → matches p (or_message_id_criteria ids) ≡ any (p (codes "Message-Id")) ids
unfolding or_message_id_criteria
matches-or_message_id_criteria p ids h = matches-criteria_tree p (length ids) ids h (omega arith)

depth-criteria_tree :
    (d fuel : ℕ) (ids : List Text) → length ids ≤ 2 ^ d → depth (criteria_tree fuel ids) ≤ d
unfolding criteria_tree
depth-criteria_tree d zero ids h = omega arith
depth-criteria_tree d (suc fuel) [] h = omega arith
depth-criteria_tree d (suc fuel) (id ∷ []) h = omega arith
depth-criteria_tree zero (suc fuel) (id ∷ jd ∷ ids) h = let n : ⊥ = omega arith in elim n [ ]
depth-criteria_tree (suc d) (suc fuel) (id ∷ jd ∷ ids) h =
    let all = id ∷ jd ∷ ids in
    let mid = length all / 2 in
    let front = length-take mid all (omega arith) in
    let back = length-drop mid all in
    let l = depth-criteria_tree d fuel (take mid all) (omega (arith, front)) in
    let r = depth-criteria_tree d fuel (drop mid all) (omega (arith, back)) in ground arith

-- The filters of a search for at most 2 ^ d texts are nested at most d deep.
pub depth-or_message_id_criteria :
    (d : ℕ) (ids : List Text) → length ids ≤ 2 ^ d → depth (or_message_id_criteria ids) ≤ d
unfolding or_message_id_criteria
depth-or_message_id_criteria d ids = depth-criteria_tree d (length ids) ids
