-- ===== src/Labels.antt =====
-- internal/reconcile/labels.go: which folders are labels, and the keyword of a label.
pub mod Laws
use umleitung.Base.{
  ℕ, ◌+◌, ◌/◌, Bool, true, false, not, ◌&&◌, ◌||◌, List, [], ◌∷◌, ◌++◌, ltb, leb, ◌==◌ as nat_eq,
  if◌then◌else◌,
}
use umleitung.Base.Text.{Text, codes, ◌==◌, contains, trim, to_lower}
use umleitung.Key.{FolderInfo}
use umleitung.Env.{ImapNames, Options}

unfoldable pub has_excluded_attr : ImapNames → List Text → Bool
has_excluded_attr names [] = false
has_excluded_attr names (a ∷ attrs) =
    contains names.excluded_attrs a || has_excluded_attr names attrs

unfoldable pub is_label_folder : ImapNames → FolderInfo → Text → List Text → Bool
is_label_folder names f source_folder exclude =
    if f.name == source_folder || to_lower f.name == codes "inbox"
    then false
    else if contains exclude f.name
    then false
    else not (has_excluded_attr names f.attrs)

-- runes that a keyword keeps
abbrev pub is_kept : ℕ → Bool
is_kept r =
    ltb r 128
    && ((leb b'a' r && leb r b'z')
        || ((leb b'A' r && leb r b'Z')
            || ((leb b'0' r && leb r b'9') || (nat_eq r b'-' || nat_eq r b'_'))))

-- The loop over the label: runes kept, each run of others replaced once.
unfoldable pub sanitize : ℕ → Bool → Text → Text
sanitize rc last_repl [] = []
sanitize rc last_repl (r ∷ label) =
    let rest = sanitize rc (not (is_kept r)) label in
    if is_kept r then r ∷ rest else if last_repl then rest else rc ∷ rest

-- `repl[0]`: the first byte, which is the first rune of an ASCII text
unfoldable pub replacement : Text → ℕ
replacement [] = b'_'
replacement (c ∷ repl) =
    if ltb c 0x80
    then c
    else if ltb c 0x800
    then 0xc0 + c / 0x40
    else if ltb c 0x10000
    then 0xe0 + c / 0x1000
    else 0xf0 + c / 0x40000

unfoldable pub keyword_for : Text → Text → Text
keyword_for label repl =
    let rc = replacement repl in to_lower (trim (λ c. nat_eq c rc) (sanitize rc false label))

unfoldable pub label_keyword : Options → Text → Text
label_keyword o label =
    let slug = keyword_for label o.keyword_replacement in
    if slug == codes "" then codes "" else o.keyword_prefix ++ slug

-- The loop of `labelKeywords`, with the keywords seen.
unfoldable pub keywords_from : Options → List Text → List Text → List Text
keywords_from o seen [] = []
keywords_from o seen (l ∷ labels) =
    let kw = label_keyword o l in
    let skip = kw == codes "" || contains seen kw in
    let rest = keywords_from o (if skip then seen else kw ∷ seen) labels in
    if skip then rest else kw ∷ rest

unfoldable pub label_keywords : Options → List Text → List Text
label_keywords o labels = keywords_from o [] labels
