-- ===== src/Config/Accepted.antt =====
-- What an accepted configuration is.
use mathlib.Core.Path.{subst}
use mathlib.Core.List.{append-nil, append_assoc}
use umleitung.Base.{
  ℕ, suc, ◌≡◌, refl, sym, ap, ◌∙◌, false, not, Option, none, some, List, [], ◌∷◌, ◌++◌, map, All,
}
use umleitung.Base.Text.{Text, contains}
use umleitung.Config.{Config, Mirror, RawMirror, RawConfig}
use umleitung.Config.Paths.{clean}
use umleitung.Config.Defaults.{is_log_level, opt_string}
use umleitung.Config.Endpoints.{EndpointFault, resolve_endpoint}
use umleitung.Config.Resolve.{
  Fault, bad_source, bad_dest, name_faults, path_owner, path_faults, endpoint_faults, mirror_of,
  where_of, mirror_faults, Scan, scan_mirror, scan_mirrors, invalid, valid, concluded, head_of,
  head_faults, health_faults, no_mirrors_faults, bad_log_level, resolve,
}
use umleitung.Config.Valid.{
  IsMirrorValid, IsConfigValid, name_of, clean_state_path, is_empty, Fresh, Fresh-Distinct,
}
use umleitung.Config.Checks.{
  nil_parts, name_faults-nil, path_faults-nil, resolve_endpoint-none, setting_faults-nil, passed,
  not-false,
}

endpoint_faults-nil :
    (f : EndpointFault → Fault) (o : Option EndpointFault) → endpoint_faults f o ≡ [] → o ≡ none
endpoint_faults-nil f none e = refl
endpoint_faults-nil f (some x) e = let n : ⊥ = cc in elim n [ ]

valid_injective : (a b : Config) → valid a ≡ valid b → a ≡ b
valid_injective a b e = cc

module _ (read_file : Text → Option Text) (dir : Text) where
  abbrev made : RawMirror → Mirror
  made = mirror_of read_file dir

  -- a mirror with no error is in order, and its name and state file are new
  mirror_faults-nil :
      (i : ℕ) (rm : RawMirror) (s : Scan)
      → mirror_faults read_file dir i rm s ≡ []
      → IsMirrorValid (made rm)
        × (contains s.names rm.name ≡ false)
        × (contains (map (λ p. p.0) s.state_paths) (clean_state_path (made rm)) ≡ false)
  unfolding mirror_faults mirror_of
  mirror_faults-nil i rm s e =
      let w = where_of i rm.name in
      let a = nil_parts (name_faults w rm.name s.names) _ e in
      let b =
        nil_parts (path_faults w (path_owner s.state_paths (clean (made rm).state_path))) _ a.1 in
      let c =
        nil_parts (endpoint_faults (bad_source w) (resolve_endpoint read_file rm.source).1) _ b.1 in
      let d =
        nil_parts (endpoint_faults (bad_dest w) (resolve_endpoint read_file rm.dest).1) _ c.1 in
      let name = name_faults-nil w rm.name s.names a.0 in
      let source = endpoint_faults-nil (bad_source w) _ c.0 in
      let dest = endpoint_faults-nil (bad_dest w) _ d.0 in
      let set = setting_faults-nil read_file dir w rm d.1 in
      (
        (
          name.0,
          set.0,
          resolve_endpoint-none read_file rm.source source,
          resolve_endpoint-none read_file rm.dest dest,
          set.1,
          set.2,
          set.3,
        ),
        name.1,
        path_faults-nil w s.state_paths _ b.0,
      )

  pub scan_mirrors-mirrors :
      (i : ℕ) (rms : List RawMirror) (s : Scan)
      → (scan_mirrors read_file dir i rms s).mirrors ≡ s.mirrors ++ map made rms
  unfolding scan_mirrors
  scan_mirrors-mirrors i [] s = sym (append-nil s.mirrors)
  scan_mirrors-mirrors i (rm ∷ rms) s =
      scan_mirrors-mirrors (suc i) rms (scan_mirror read_file dir i rm s)
      ∙ append_assoc s.mirrors (made rm ∷ []) (map made rms)

  scan_mirrors-nil :
      (i : ℕ) (rms : List RawMirror) (s : Scan)
      → (scan_mirrors read_file dir i rms s).faults ≡ []
      → (s.faults ≡ [])
        × All IsMirrorValid (map made rms)
        × Fresh s.names (map name_of (map made rms))
        × Fresh (map (λ p. p.0) s.state_paths) (map clean_state_path (map made rms))
  unfolding scan_mirrors mirror_of
  scan_mirrors-nil i [] s e = (e, tt, tt, tt)
  scan_mirrors-nil i (rm ∷ rms) s e =
      let rest = scan_mirrors-nil (suc i) rms (scan_mirror read_file dir i rm s) e in
      let here = nil_parts s.faults (mirror_faults read_file dir i rm s) rest.0 in
      let m = mirror_faults-nil i rm s here.1 in
      (here.0, (m.0, rest.1), (m.1, rest.2), (m.2, rest.3))

concluded-valid :
    (cfg c : Config) (s : Scan)
    → concluded cfg s ≡ valid c
    → (s.faults ≡ []) × (record cfg { mirrors = s.mirrors } ≡ c)
concluded-valid cfg c s = go s.faults
  where
    go :
        (fs : List Fault)
        → elim fs [ [] ↦ valid (record cfg { mirrors = s.mirrors }) | f ∷ gs ↦ invalid (f ∷ gs) ]
          ≡ valid c
        → (fs ≡ []) × (record cfg { mirrors = s.mirrors } ≡ c)
    go [] e = (refl, valid_injective _ _ e)
    go (f ∷ gs) e = let n : ⊥ = cc in elim n [ ]

no_mirrors_faults-nil :
    (read_file : Text → Option Text) (dir : Text) (rms : List RawMirror)
    → no_mirrors_faults rms ≡ []
    → is_empty (map (mirror_of read_file dir) rms) ≡ false
no_mirrors_faults-nil read_file dir [] e = let n : ⊥ = cc in elim n [ ]
no_mirrors_faults-nil read_file dir (rm ∷ rms) e = refl

-- If the configuration is accepted, its log level is known and there is at least one mirror; every
-- mirror's name is made of [a-z0-9_-], its seed mode is known, its endpoints have a host, a user and
-- a port from 1 to 65535, labels are propagated only if they are on, the replacement is one
-- character that keywords keep, the destination, archive and sent folders in use differ, batch and
-- intervals are positive; and no two mirrors have one name or one cleaned state path.
pub resolve-IsConfigValid :
    (read_file : Text → Option Text) (raw : RawConfig) (cfg : Config)
    → resolve read_file raw ≡ valid cfg
    → IsConfigValid cfg
unfolding resolve head_faults
resolve-IsConfigValid read_file raw cfg e =
    let dir = (head_of raw).state_dir in
    let start : Scan = record {
      names = [];
      state_paths = [];
      faults = head_faults raw;
      mirrors = [];
    } in
    let end =
      concluded-valid (head_of raw) cfg (scan_mirrors read_file dir 0 raw.mirrors start) e in
    let s = scan_mirrors-nil read_file dir 0 raw.mirrors start end.0 in
    let h = nil_parts (health_faults (opt_string raw.health_addr)) _ s.0 in
    let l = passed (not (is_log_level (head_of raw).log_level)) bad_log_level _ h.1 in
    let all : IsConfigValid
        (record (head_of raw) { mirrors = map (mirror_of read_file dir) raw.mirrors }) =
      (
        not-false _ l.0,
        no_mirrors_faults-nil read_file dir raw.mirrors l.1,
        s.1,
        Fresh-Distinct [] _ s.2,
        Fresh-Distinct [] _ s.3,
      ) in
    subst IsConfigValid
      (ap (λ ms. record (head_of raw) { mirrors = ms })
          (sym (scan_mirrors-mirrors read_file dir 0 raw.mirrors start))
        ∙ end.1)
      all
