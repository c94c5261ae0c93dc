-- ===== src/Labels/Laws.antt =====
-- What the keywords of labels look like, and which labels they stand for.
use mathlib.Core.List.{reverse, reverse-append}
use umleitung.Base.{
  ℕ, ◌≡◌, refl, Bool, true, false, not, ◌&&◌, ◌||◌, List, [], ◌∷◌, map, leb, ◌==◌ as nat_eq, arith,
  Bool-cases, inl, inr, if◌then◌else◌, All, All-append,
}
use umleitung.Base.Text.{
  Text, codes, ◌==◌, contains, drop_while, trim, lower, to_lower, eq_iff, eq_refl,
}
use umleitung.Env.{Options}
use umleitung.Labels.{
  is_kept, sanitize, replacement, keyword_for, label_keyword, keywords_from, label_keywords,
}

-- lower-case letters, digits, `-` and `_`
abbrev pub is_slug_char : ℕ → Bool
is_slug_char c =
    (leb b'a' c && leb c b'z') || ((leb b'0' c && leb c b'9') || (nat_eq c b'-' || nat_eq c b'_'))

module _ (P : ℕ → Type 0) where
  All-drop_while : (p : ℕ → Bool) (s : Text) → All P s → All P (drop_while p s)
  unfolding drop_while
  All-drop_while p [] h = tt
  All-drop_while p (c ∷ s) h = elim (Bool-cases (p c)) [
    | inl e ↦ rw e (All-drop_while p s h.1)
    | inr e ↦ rw e h
  ]

  All-reverse : (s : Text) → All P s → All P (reverse s)
  All-reverse [] h = tt
  All-reverse (c ∷ s) h =
      rw (reverse-append (c ∷ []) s)
        (All-append P (reverse s) (c ∷ []) (All-reverse s h.1) (h.0, tt))

  All-trim : (p : ℕ → Bool) (s : Text) → All P s → All P (trim p s)
  unfolding trim
  All-trim p s h = All-reverse _ (All-drop_while p _ (All-reverse _ (All-drop_while p s h)))

All-map_to :
    (P Q : ℕ → Type 0) (f : ℕ → ℕ)
    → ((c : ℕ) → P c → Q (f c))
    → (s : Text) → All P s
    → All Q (map f s)
All-map_to P Q f g [] h = tt
All-map_to P Q f g (c ∷ s) h = (g c h.0, All-map_to P Q f g s h.1)

abbrev AllKept : Text → Type 0
AllKept = All (λ c. is_kept c ≡ true)

replace_run :
    (rc : ℕ) (b : Bool) (s : Text)
    → is_kept rc ≡ true
    → AllKept s
    → AllKept (if b then s else rc ∷ s)
replace_run rc true s k h = h
replace_run rc false s k h = (k, h)

sanitize-is_kept : (rc : ℕ) (b : Bool) (s : Text) → is_kept rc ≡ true → AllKept (sanitize rc b s)
unfolding sanitize
sanitize-is_kept rc b [] h = tt
sanitize-is_kept rc b (c ∷ s) h = elim (Bool-cases (is_kept c)) [
  | inl e ↦ rw e (e, sanitize-is_kept rc false s h)
  | inr e ↦ rw e (replace_run rc b _ h (sanitize-is_kept rc true s h))
]

lower-is_slug_char : (c : ℕ) → is_kept c ≡ true → is_slug_char (lower c) ≡ true
lower-is_slug_char c h = ground arith

-- If the replacement is a keyword character, as the configuration demands, every character of a
-- label's keyword is a lower-case letter, a digit, `-` or `_`.
pub keyword_for-is_slug_char :
    (label repl : Text)
    → is_kept (replacement repl) ≡ true
    → All (λ c. is_slug_char c ≡ true) (keyword_for label repl)
unfolding keyword_for to_lower
keyword_for-is_slug_char label repl h =
    All-map_to _ _ lower lower-is_slug_char _
      (All-trim _ _ _ (sanitize-is_kept (replacement repl) false label h))

-- each keyword once
abbrev pub Distinct : List Text → Type 0
Distinct [] = Unit
Distinct (x ∷ xs) = (contains xs x ≡ false) × Distinct xs

contains-keywords_from :
    (o : Options) (seen labels : List Text) (kw : Text)
    → contains (keywords_from o seen labels) kw ≡ (
        contains (map (label_keyword o) labels) kw
        && (not (contains seen kw) && not (kw == codes "")))
unfolding keywords_from
contains-keywords_from o seen [] kw = refl
contains-keywords_from o seen (l ∷ labels) kw = ground (
  arith,
  contains-keywords_from o seen labels kw,
  contains-keywords_from o (label_keyword o l ∷ seen) labels kw,
  eq_iff (label_keyword o l) kw,
)

Distinct-keywords_from :
    (o : Options) (seen labels : List Text) → Distinct (keywords_from o seen labels)
unfolding keywords_from
Distinct-keywords_from o seen [] = tt
Distinct-keywords_from o seen (l ∷ labels) = ground (
  arith,
  Distinct-keywords_from o seen labels,
  Distinct-keywords_from o (label_keyword o l ∷ seen) labels,
  contains-keywords_from o (label_keyword o l ∷ seen) labels (label_keyword o l),
  eq_refl (label_keyword o l),
)

-- The keywords of a list of labels are distinct, none is empty, and a text that is not empty is
-- among them exactly when it is the keyword of one of the labels.
pub label_keywords_lem :
    (o : Options) (labels : List Text) (kw : Text)
    → Distinct (label_keywords o labels)
      × (contains (label_keywords o labels) kw
          ≡ (contains (map (label_keyword o) labels) kw && not (kw == codes "")))
unfolding label_keywords
label_keywords_lem o labels kw =
    (Distinct-keywords_from o [] labels, contains-keywords_from o [] labels kw)
