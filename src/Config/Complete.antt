-- ===== src/Config/Complete.antt =====
-- Every configuration that is in order is accepted.
use umleitung.Base.{
  ℕ, suc, ◌≡◌, refl, ap, ◌∙◌, true, false, Option, none, List, [], ◌∷◌, ◌++◌, map, All, Bool-cases,
  inl, inr, arith,
}
use umleitung.Base.Text.{Text, contains, ◌==◌, eq_iff, eq_refl}
use umleitung.Labels.Laws.{Distinct}
use umleitung.Config.{Config, Mirror, RawMirror, RawConfig}
use umleitung.Config.Paths.{clean}
use umleitung.Config.Defaults.{OptString, unset, undecoded, set_to, opt_string, name_matches}
use umleitung.Config.Resolve.{
  Where, name_faults, path_owner, mirror_of, where_of, mirror_faults, Scan, scan_mirror,
  scan_mirrors, valid, concluded, head_of, head_faults, health_faults, no_mirrors_faults, resolve,
}
use umleitung.Config.Valid.{
  IsMirrorValid, IsConfigValid, name_of, clean_state_path, is_empty, Fresh,
}
use umleitung.Config.Accepted.{scan_mirrors-mirrors}
use umleitung.Config.Refused.{
  has_password, is_decoded, resolve_endpoint-passed, setting_faults-passed,
}

name_faults-passed :
    (w : Where) (name : Text) (names : List Text)
    → name_matches name ≡ true
    → contains names name ≡ false
    → name_faults w name names ≡ []
unfolding name_faults name_matches ◌==◌
name_faults-passed w [] names m c = let n : ⊥ = cc in elim n [ ]
name_faults-passed w (x ∷ name) names m c = rw (m, c) refl

path_owner-none :
    (paths : List (Text × Text)) (path : Text)
    → contains (map (λ p. p.0) paths) path ≡ false
    → path_owner paths path ≡ none
unfolding path_owner
path_owner-none [] path e = refl
path_owner-none ((p, name) ∷ paths) path e = elim (Bool-cases (p == path)) [
  | inl a ↦ let n : ⊥ = ground arith in elim n [ ]
  | inr a ↦ rw a (path_owner-none paths path (rw a at e))
]

-- a text that comes once is apart from those behind it
later_apart :
    (x : Text) (seen xs : List Text)
    → contains xs x ≡ false
    → All (λ y. contains seen y ≡ false) xs
    → All (λ y. contains (x ∷ seen) y ≡ false) xs
later_apart x seen [] e h = tt
later_apart x seen (y ∷ xs) e h = elim (Bool-cases (x == y)) [
  | inl a ↦ let same = (eq_iff x y).0 a in let r = eq_refl y in let n : ⊥ = cc in elim n [ ]
  | inr a ↦ (rw a (h.0), later_apart x seen xs (ground arith) h.1)
]

Distinct-Fresh :
    (seen xs : List Text) → Distinct xs → All (λ y. contains seen y ≡ false) xs → Fresh seen xs
Distinct-Fresh seen [] d h = tt
Distinct-Fresh seen (x ∷ xs) d h =
    (h.0, Distinct-Fresh (x ∷ seen) xs d.1 (later_apart x seen xs d.0 h.1))

none_seen : (xs : List Text) → All (λ y. contains [] y ≡ false) xs
none_seen [] = tt
none_seen (x ∷ xs) = (refl, none_seen xs)

module _ (read_file : Text → Option Text) (dir : Text) where
  abbrev made : RawMirror → Mirror
  made = mirror_of read_file dir

  abbrev pub HasPasswords : RawMirror → Type 0
  HasPasswords rm =
      (has_password read_file rm.source ≡ true) × (has_password read_file rm.dest ≡ true)

  mirror_faults-passed :
      (i : ℕ) (rm : RawMirror) (s : Scan)
      → IsMirrorValid (made rm)
      → HasPasswords rm
      → contains s.names rm.name ≡ false
      → contains (map (λ p. p.0) s.state_paths) (clean_state_path (made rm)) ≡ false
      → mirror_faults read_file dir i rm s ≡ []
  unfolding mirror_faults mirror_of
  mirror_faults-passed i rm s v p name path =
      let w = where_of i rm.name in
      rw
        (
          name_faults-passed w rm.name s.names v.0 name,
          path_owner-none s.state_paths (clean (made rm).state_path) path,
          resolve_endpoint-passed read_file rm.source v.2 p.0,
          resolve_endpoint-passed read_file rm.dest v.3 p.1,
          setting_faults-passed w (made rm) v,
        )
        refl

  scan_mirrors-passed :
      (i : ℕ) (rms : List RawMirror) (s : Scan)
      → s.faults ≡ []
      → All IsMirrorValid (map made rms)
      → All HasPasswords rms
      → Fresh s.names (map name_of (map made rms))
      → Fresh (map (λ p. p.0) s.state_paths) (map clean_state_path (map made rms))
      → (scan_mirrors read_file dir i rms s).faults ≡ []
  unfolding scan_mirrors mirror_of
  scan_mirrors-passed i [] s e v p n f = e
  scan_mirrors-passed i (rm ∷ rms) s e v p n f =
      let none_here = mirror_faults-passed i rm s v.0 p.0 n.0 f.0 in
      let none_yet = ap (λ fs. fs ++ mirror_faults read_file dir i rm s) e ∙ none_here in
      scan_mirrors-passed (suc i) rms (scan_mirror read_file dir i rm s) none_yet v.1 p.1 n.1 f.1

-- the configuration that a file asks for, with its defaults
abbrev pub meant : (Text → Option Text) → RawConfig → Config
meant read_file raw = record (head_of raw) {
  mirrors = map (mirror_of read_file (head_of raw).state_dir) raw.mirrors;
}

concluded-nil :
    (cfg : Config) (s : Scan)
    → s.faults ≡ []
    → concluded cfg s ≡ valid (record cfg { mirrors = s.mirrors })
concluded-nil cfg s e = rw e refl

health_faults-passed : (o : OptString) → is_decoded o ≡ true → health_faults o ≡ []
health_faults-passed unset e = refl
health_faults-passed undecoded e = let n : ⊥ = cc in elim n [ ]
health_faults-passed (set_to v) e = refl

no_mirrors_faults-passed :
    (read_file : Text → Option Text) (dir : Text) (rms : List RawMirror)
    → is_empty (map (mirror_of read_file dir) rms) ≡ false
    → no_mirrors_faults rms ≡ []
no_mirrors_faults-passed read_file dir [] e = let n : ⊥ = cc in elim n [ ]
no_mirrors_faults-passed read_file dir (rm ∷ rms) e = refl

-- If the configuration that a file asks for is in order, its health address decodes to a text, and each
-- endpoint has one password or one file of it that can be read, it is accepted as it is.
pub resolve-meant :
    (read_file : Text → Option Text) (raw : RawConfig)
    → is_decoded (opt_string raw.health_addr) ≡ true
    → All (HasPasswords read_file (head_of raw).state_dir) raw.mirrors
    → IsConfigValid (meant read_file raw)
    → resolve read_file raw ≡ valid (meant read_file raw)
unfolding resolve head_faults
resolve-meant read_file raw d p v =
    let dir = (head_of raw).state_dir in
    let start : Scan = record {
      names = [];
      state_paths = [];
      faults = head_faults raw;
      mirrors = [];
    } in
    let h = health_faults-passed (opt_string raw.health_addr) d in
    let m = no_mirrors_faults-passed read_file dir raw.mirrors v.1 in
    let none_first : head_faults raw ≡ [] = rw (h, v.0, m) refl in
    let none_left =
      scan_mirrors-passed read_file dir 0 raw.mirrors start none_first v.2 p
        (Distinct-Fresh [] _ v.3 (none_seen _)) (Distinct-Fresh [] _ v.4 (none_seen _)) in
    concluded-nil (head_of raw) (scan_mirrors read_file dir 0 raw.mirrors start) none_left
    ∙ ap (λ ms. valid (record (head_of raw) { mirrors = ms }))
        (scan_mirrors-mirrors read_file dir 0 raw.mirrors start)
