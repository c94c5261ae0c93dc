-- ===== src/Backfill/Groups.antt =====
-- internal/reconcile/membership.go: the messages that a backfill notes as misplaced, and the chunks in
-- which it has them moved.
use umleitung.Base.{
  ℕ, zero, suc, ◌≤◌, ◌<◌, ◌≡◌, refl, ap, ◌∙◌, Bool, false, ◌&&◌, ◌||◌, List, [], ◌∷◌, ◌++◌, take,
  drop, take-drop, length, length-drop, All, ◌==◌ as nat_eq, arith,
}
use umleitung.Base.Text.{Text, ◌==◌, eq_iff}
use umleitung.Backfill.{Groups, add_uid, chunks, chunked, move_chunk}

abbrev pub concat : List (List ℕ) → List ℕ
concat [] = []
concat (xs ∷ xss) = xs ++ concat xss

short_take :
    (n : ℕ) (us : List ℕ) (v : ℕ) (vs : List ℕ)
    → us ≡ v ∷ vs
    → 0 < n
    → (0 < length (take n us)) × (length (take n us) ≤ n)
short_take zero us v vs e p = absurd (omega arith)
short_take (suc n) [] v vs e p = absurd (let x = ap length e in omega arith)
short_take (suc n) (u ∷ us) v vs e p = (omega arith, go n us)
  where
    go : (n : ℕ) (us : List ℕ) → length (u ∷ take n us) ≤ suc n
    go zero us = omega arith
    go (suc n) [] = omega arith
    go (suc n) (x ∷ us) = let ih = go n us in omega arith

chunks_lem :
    (fuel n : ℕ) (us : List ℕ)
    → 0 < n
    → length us ≤ fuel
    → (concat (chunks fuel n us) ≡ us)
      × All (λ c. (0 < length c) × (length c ≤ n)) (chunks fuel n us)
unfolding chunks
chunks_lem zero n [] p l = (refl, tt)
chunks_lem zero n (u ∷ us) p l = absurd (omega arith)
chunks_lem (suc fuel) n [] p l = (refl, tt)
chunks_lem (suc fuel) n (u ∷ us) p l =
    let d = length-drop n (u ∷ us) in
    let rest = chunks_lem fuel n (drop n (u ∷ us)) p (omega arith) in
    (
      ap (λ ys. take n (u ∷ us) ++ ys) rest.0 ∙ take-drop n (u ∷ us),
      (short_take n (u ∷ us) u us refl p, rest.1),
    )

-- The UIDs of a group are asked for once and in order, in chunks of 1 to 500.
pub chunked_lem :
    (us : List ℕ)
    → (concat (chunked us) ≡ us) × All (λ c. (0 < length c) × (length c ≤ 500)) (chunked us)
chunked_lem us = chunks_lem (length us) move_chunk us (omega arith) (omega arith)

abbrev pub has : ℕ → List ℕ → Bool
has u [] = false
has u (v ∷ vs) = nat_eq v u || has u vs

-- the UID stands in the group of the folder
abbrev pub in_group : Text → ℕ → Groups → Bool
in_group k u [] = false
in_group k u ((j, us) ∷ groups) = (j == k && has u us) || in_group k u groups

pub has-append : (u v : ℕ) (us : List ℕ) → has u (us ++ v ∷ []) ≡ (has u us || nat_eq v u)
has-append u v [] = ground arith
has-append u v (x ∷ us) = ground (arith, has-append u v us)

pub in_group-add_uid :
    (k j : Text) (u v : ℕ) (groups : Groups)
    → in_group k u (add_uid j v groups) ≡ (in_group k u groups || (j == k && nat_eq v u))
unfolding add_uid
in_group-add_uid k j u v [] = ground arith
in_group-add_uid k j u v ((i, us) ∷ groups) =
    ground (
      arith,
      eq_iff i j,
      eq_iff i k,
      eq_iff j k,
      has-append u v us,
      in_group-add_uid k j u v groups,
    )
