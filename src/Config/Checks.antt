-- ===== src/Config/Checks.antt =====
-- What it means that a check of `resolve` adds no error.
use umleitung.Base.{
  ℕ, zero, suc, ◌≡◌, refl, ◌≤◌, Bool, true, false, not, ◌&&◌, Option, none, some, List, [], ◌∷◌,
  ◌++◌, map, arith, if◌then◌else◌, Bool-cases, inl, inr,
}
use umleitung.Base.Text.{Text, codes, contains, ◌==◌, pos, negsuc, ℤ, trim_space}
use umleitung.Labels.{is_kept}
use umleitung.Config.{Endpoint, RawEndpoint, RawMirror}
use umleitung.Config.Defaults.{
  is_seed_mode, name_matches, is_replacement, is_negative, below_one, is_keyword_char, default_int,
  is_port,
}
use umleitung.Config.Endpoints.{
  endpoint_of, with_file, with_password, resolve_endpoint, two_passwords, no_password,
}
use umleitung.Config.Resolve.{
  Fault, Where, fault_if, name_faults, path_owner, path_faults, setting_faults, mirror_of,
}
use umleitung.Config.Valid.{IsEndpointValid, HasOwnFolders, HasPositiveNumbers, HasLabelSettings}

pub nil_parts : {A : Type 0} (xs ys : List A) → xs ++ ys ≡ [] → (xs ≡ []) × (ys ≡ [])
nil_parts [] ys e = (refl, e)
nil_parts (x ∷ xs) ys e = let n : ⊥ = cc in elim n [ ]

fault_if-nil : (b : Bool) (f : Fault) → fault_if b f ≡ [] → b ≡ false
fault_if-nil true f e = let n : ⊥ = cc in elim n [ ]
fault_if-nil false f e = refl

-- a check that adds nothing, and the checks behind it
pub passed :
    (b : Bool) (f : Fault) (rest : List Fault)
    → fault_if b f ++ rest ≡ []
    → (b ≡ false) × (rest ≡ [])
passed b f rest e = let p = nil_parts (fault_if b f) rest e in (fault_if-nil b f p.0, p.1)

pub name_faults-nil :
    (w : Where) (name : Text) (names : List Text)
    → name_faults w name names ≡ []
    → (name_matches name ≡ true) × (contains names name ≡ false)
unfolding name_faults
name_faults-nil w name names e = ground arith

cons_nil : {A : Type 0} {x : A} {xs : List A} → x ∷ xs ≡ [] → ⊥
cons_nil e = cc

pub path_faults-nil :
    (w : Where) (paths : List (Text × Text)) (path : Text)
    → path_faults w (path_owner paths path) ≡ []
    → contains (map (λ p. p.0) paths) path ≡ false
unfolding path_owner
path_faults-nil w [] path e = refl
path_faults-nil w ((p, name) ∷ paths) path e = elim (Bool-cases (p == path)) [
  | inl a ↦ let n : ⊥ = cons_nil (rw a at e) in elim n [ ]
  | inr a ↦ rw a (path_faults-nil w paths path (rw a at e))
]

replacement_char :
    (r : Text) → is_replacement r ≡ true → (c : ℕ) × (r ≡ c ∷ []) × (is_kept c ≡ true)
unfolding is_replacement is_keyword_char
replacement_char [] e = let n : ⊥ = cc in elim n [ ]
replacement_char (c ∷ []) e = (c, refl, ground arith)
replacement_char (c ∷ d ∷ s) e = let n : ⊥ = cc in elim n [ ]

positive_default :
    (v : ℤ) (def : ℕ)
    → is_negative (default_int v (pos (suc def))) ≡ false
    → (n : ℕ) × default_int v (pos (suc def)) ≡ pos (suc n)
unfolding default_int
positive_default (pos zero) def e = (def, refl)
positive_default (pos (suc n)) def e = (n, ground arith)
positive_default (negsuc n) def e = let n : ⊥ = cc in elim n [ ]

pub not-false : (b : Bool) → not b ≡ false → b ≡ true
not-false true e = refl
not-false false e = let n : ⊥ = cc in elim n [ ]

some-none : {A : Type 0} {x : A} → some x ≡ none → ⊥
some-none e = cc

below_one-default :
    (v : ℤ) (def : ℕ)
    → below_one (default_int v (pos (suc def))) ≡ false
    → (n : ℕ) × default_int v (pos (suc def)) ≡ pos (suc n)
unfolding default_int
below_one-default (pos zero) def e = (def, refl)
below_one-default (pos (suc n)) def e = (n, ground arith)
below_one-default (negsuc n) def e = let n : ⊥ = cc in elim n [ ]

port_number : (v : ℤ) → is_port v ≡ true → (n : ℕ) × v ≡ pos (suc n) × suc n ≤ 65535
port_number (pos zero) e = let n : ⊥ = ground arith in elim n [ ]
port_number (pos (suc n)) e = (n, refl, ground arith)
port_number (negsuc n) e = let n : ⊥ = cc in elim n [ ]

-- the password of an endpoint is all that its lookup changes
file_keeps :
    (P : Endpoint → Type 0) (ep : Endpoint) (file : Option Text)
    → P ep
    → ((s : Text) → P (record ep { password = s }))
    → P (with_file ep file).0
file_keeps P ep none h k = h
file_keeps P ep (some s) h k = k (trim_space s)

pub password_keeps :
    (P : Endpoint → Type 0) (read_file : Text → Option Text) (raw : RawEndpoint) (ep : Endpoint)
    → P ep
    → ((s : Text) → P (record ep { password = s }))
    → P (with_password read_file raw ep).0
password_keeps P read_file raw ep h k =
    go (raw.password == codes "") (raw.password_file == codes "")
  where
    go :
        (a b : Bool)
        → P
            (if not a && not b
              then (ep, some two_passwords)
              else if not a
              then (record ep { password = raw.password }, none)
              else if not b
              then with_file ep (read_file raw.password_file)
              else (ep, some no_password)).0
    go false false = h
    go false true = k raw.password
    go true false = file_keeps P ep (read_file raw.password_file) h k
    go true true = h

pub resolve_endpoint-none :
    (read_file : Text → Option Text) (raw : RawEndpoint)
    → (resolve_endpoint read_file raw).1 ≡ none
    → IsEndpointValid (resolve_endpoint read_file raw).0
unfolding resolve_endpoint
resolve_endpoint-none read_file raw e = elim (Bool-cases (raw.host == codes "")) [
  | inl a ↦ let n : ⊥ = some-none (rw a at e) in elim n [ ]
  | inr a ↦ elim (Bool-cases (raw.user == codes "")) [
    | inl b ↦ let n : ⊥ = some-none (rw (a, b) at e) in elim n [ ]
    | inr b ↦ elim (Bool-cases (is_port (default_int raw.port (pos 993)))) [
      | inl c ↦
          let q = port_number _ c in
          let p : IsEndpointValid (endpoint_of raw) = (a, b, q.0, q.1, q.2) in
          rw (a, b, c) (password_keeps IsEndpointValid read_file raw (endpoint_of raw) p (λ s. p))
      | inr c ↦ let n : ⊥ = some-none (rw (a, b, c) at e) in elim n [ ]
    ]
  ]
]

pub setting_faults-nil :
    (read_file : Text → Option Text) (dir : Text) (w : Where) (rm : RawMirror)
    → setting_faults w (mirror_of read_file dir rm) ≡ []
    → (is_seed_mode (mirror_of read_file dir rm).seed ≡ true)
      × HasLabelSettings (mirror_of read_file dir rm)
      × HasOwnFolders (mirror_of read_file dir rm)
      × HasPositiveNumbers (mirror_of read_file dir rm)
unfolding setting_faults mirror_of
setting_faults-nil read_file dir w rm e =
    let p1 = passed _ _ _ e in
    let p2 = passed _ _ _ p1.1 in
    let p3 = passed _ _ _ p2.1 in
    let p4 = passed _ _ _ p3.1 in
    let p5 = passed _ _ _ p4.1 in
    let p6 = passed _ _ _ p5.1 in
    let p7 = passed _ _ _ p6.1 in
    let p8 = passed _ _ _ p7.1 in
    let r = replacement_char _ (not-false _ p3.0) in
    (
      not-false _ p1.0,
      (p2.0, r.0, r.1, r.2),
      (p4.0, p5.0, p6.0),
      (
        below_one-default _ _ p7.0,
        positive_default _ _ p8.0,
        positive_default _ _ (fault_if-nil _ _ p8.1),
      ),
    )
