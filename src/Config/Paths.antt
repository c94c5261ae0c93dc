-- ===== src/Config/Paths.antt =====
-- `filepath.Clean` and `filepath.Join` on Unix, which the configuration calls.
use umleitung.Base.{Bool, false, ◌||◌, ◌==◌ as nat_eq, List, [], ◌∷◌, ◌++◌, if◌then◌else◌}
use umleitung.Base.Text.{Text, codes, join, ◌==◌}
use mathlib.Core.List.{reverse}

-- the elements between slashes, empty ones included
unfoldable pub elements : Text → List Text
elements [] = [] ∷ []
elements (c ∷ s) =
    let rest = elements s in
    if nat_eq c b'/' then [] ∷ rest else elim rest [ [] ↦ (c ∷ []) ∷ [] | e ∷ es ↦ (c ∷ e) ∷ es ]

-- the elements kept so far, the last one first: `..` takes the last one back
unfoldable pub clean_step : Bool → List Text → Text → List Text
clean_step rooted kept e =
    if e == [] || e == codes "."
    then kept
    else if e == codes ".."
    then elim kept [
      | [] ↦ if rooted then [] else e ∷ []
      | last ∷ before ↦ if last == codes ".." then e ∷ last ∷ before else before
    ]
    else e ∷ kept

unfoldable pub clean_all : Bool → List Text → List Text → List Text
clean_all rooted kept [] = kept
clean_all rooted kept (e ∷ es) = clean_all rooted (clean_step rooted kept e) es

abbrev pub starts_at_root : Text → Bool
starts_at_root [] = false
starts_at_root (c ∷ s) = nat_eq c b'/'

unfoldable pub clean : Text → Text
clean s =
    let kept = join (reverse (clean_all (starts_at_root s) [] (elements s))) (codes "/") in
    if starts_at_root s then b'/' ∷ kept else if kept == [] then codes "." else kept

unfoldable pub join_path : Text → Text → Text
join_path dir name =
    if dir == [] then (if name == [] then [] else clean name) else clean (dir ++ (b'/' ∷ name))
