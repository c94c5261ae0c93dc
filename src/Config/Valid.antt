-- ===== src/Config/Valid.antt =====
-- What the rest of the program may rely on in a configuration, and when texts are distinct.
use umleitung.Base.{
  Bool-cases, inl, inr, ℕ, suc, ◌≡◌, refl, ap, ◌≤◌, Bool, true, false, not, ◌&&◌, List, [], ◌∷◌,
  map, All,
}
use umleitung.Base.Text.{Text, codes, contains, ◌==◌, pos, ℤ, eq_iff, eq_refl}
use umleitung.Labels.{is_kept}
use umleitung.Labels.Laws.{Distinct}
use umleitung.Config.{Endpoint, Mirror, Config}
use umleitung.Config.Paths.{clean}
use umleitung.Config.Defaults.{is_log_level, is_seed_mode, name_matches}

abbrev pub IsEndpointValid : Endpoint → Type 0
IsEndpointValid ep =
    ((ep.host == codes "") ≡ false)
    × ((ep.user == codes "") ≡ false)
    × (n : ℕ) × (ep.port ≡ pos (suc n))
    × (suc n ≤ 65535)

-- the destination's folder and the enabled ones of archive and sent are different
abbrev pub HasOwnFolders : Mirror → Type 0
HasOwnFolders m =
    ((m.archive.enabled && m.archive.folder == m.dest.folder) ≡ false)
    × ((m.sent.enabled && m.sent.folder == m.dest.folder) ≡ false)
    × ((m.sent.enabled && (m.archive.enabled && m.sent.folder == m.archive.folder)) ≡ false)

abbrev pub IsPositive : ℤ → Type 0
IsPositive v = (n : ℕ) × v ≡ pos (suc n)

abbrev pub HasPositiveNumbers : Mirror → Type 0
HasPositiveNumbers m = IsPositive m.uid_batch × IsPositive m.poll_interval × IsPositive m.idle_reset

abbrev pub HasLabelSettings : Mirror → Type 0
HasLabelSettings m =
    ((m.labels.propagate && not m.labels.enabled) ≡ false)
    × (c : ℕ) × (m.labels.keyword_replacement ≡ c ∷ [])
    × (is_kept c ≡ true)

abbrev pub IsMirrorValid : Mirror → Type 0
IsMirrorValid m =
    (name_matches m.name ≡ true)
    × (is_seed_mode m.seed ≡ true)
    × IsEndpointValid m.source
    × IsEndpointValid m.dest
    × HasLabelSettings m
    × HasOwnFolders m
    × HasPositiveNumbers m

abbrev pub clean_state_path : Mirror → Text
clean_state_path m = clean m.state_path

abbrev pub name_of : Mirror → Text
name_of m = m.name

abbrev pub is_empty : List Mirror → Bool
is_empty [] = true
is_empty (m ∷ ms) = false

-- at least one mirror, each in order, no two with one name or one state file
abbrev pub IsConfigValid : Config → Type 0
IsConfigValid cfg =
    (is_log_level cfg.log_level ≡ true)
    × (is_empty cfg.mirrors ≡ false)
    × All IsMirrorValid cfg.mirrors
    × Distinct (map name_of cfg.mirrors)
    × Distinct (map clean_state_path cfg.mirrors)

-- each text is new when its turn comes
abbrev pub Fresh : List Text → List Text → Type 0
Fresh seen [] = Unit
Fresh seen (x ∷ xs) = (contains seen x ≡ false) × Fresh (x ∷ seen) xs

Fresh-apart :
    (seen xs : List Text) (y : Text)
    → Fresh seen xs
    → contains seen y ≡ true
    → contains xs y ≡ false
Fresh-apart seen [] y f h = refl
Fresh-apart seen (x ∷ xs) y f h = elim (Bool-cases (x == y)) [
  | inl e ↦ let same = ap (contains seen) ((eq_iff x y).0 e) in let n : ⊥ = cc in elim n [ ]
  | inr e ↦ rw e (Fresh-apart (x ∷ seen) xs y f.1 (rw e h))
]

pub Fresh-Distinct : (seen xs : List Text) → Fresh seen xs → Distinct xs
Fresh-Distinct seen [] f = tt
Fresh-Distinct seen (x ∷ xs) f =
    (Fresh-apart (x ∷ seen) xs x f.1 (rw (eq_refl x) refl), Fresh-Distinct (x ∷ seen) xs f.1)
