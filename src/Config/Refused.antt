-- ===== src/Config/Refused.antt =====
-- No configuration is refused without a reason.
use umleitung.Base.{
  ℕ, suc, ◌≡◌, ◌≤◌, refl, sym, ap, ◌∙◌, Bool, true, false, not, ◌&&◌, Option, none, some, [], ◌∷◌,
  arith, if◌then◌else◌,
}
use umleitung.Base.Text.{Text, codes, ◌==◌, pos, ℤ}
use umleitung.Labels.{is_kept}
use umleitung.Config.{Mirror, Endpoint, RawEndpoint}
use umleitung.Config.Defaults.{
  default_int, OptString, undecoded, is_replacement, is_keyword_char, is_port, below_one,
  is_negative,
}
use umleitung.Config.Endpoints.{
  no_host, no_user, bad_port, two_passwords, no_password, endpoint_of, with_file, with_password,
  resolve_endpoint,
}
use umleitung.Config.Resolve.{Where, setting_faults}
use umleitung.Config.Valid.{IsEndpointValid, IsPositive, IsMirrorValid}
use umleitung.Config.Checks.{password_keeps}

-- one of password and password file is given, and the file can be read
abbrev pub is_readable : Option Text → Bool
is_readable none = false
is_readable (some s) = true

abbrev pub has_password : (Text → Option Text) → RawEndpoint → Bool
has_password read_file raw =
    if raw.password == codes ""
    then not (raw.password_file == codes "") && is_readable (read_file raw.password_file)
    else raw.password_file == codes ""

abbrev pub is_decoded : OptString → Bool
is_decoded undecoded = false
is_decoded _ = true

with_file-none :
    (ep : Endpoint) (f : Option Text) → is_readable f ≡ true → (with_file ep f).1 ≡ none
with_file-none ep none e = let n : ⊥ = cc in elim n [ ]
with_file-none ep (some s) e = refl

in_range : (n : ℕ) → suc n ≤ 65535 → is_port (pos (suc n)) ≡ true
in_range n h = ground arith

with_password-none :
    (read_file : Text → Option Text) (raw : RawEndpoint) (ep : Endpoint)
    → has_password read_file raw ≡ true
    → (with_password read_file raw ep).1 ≡ none
with_password-none read_file raw ep e =
    let f = with_file-none ep (read_file raw.password_file) in
    go (raw.password == codes "") (raw.password_file == codes "") e f
  where
    go :
        (a b : Bool)
        → (if a then not b && is_readable (read_file raw.password_file) else b) ≡ true
        → (is_readable (read_file raw.password_file) ≡ true
            → (with_file ep (read_file raw.password_file)).1 ≡ none)
        → (if not a && not b
            then (ep, some two_passwords)
            else if not a
            then (record ep { password = raw.password }, none)
            else if not b
            then with_file ep (read_file raw.password_file)
            else (ep, some no_password)).1
          ≡ none
    go false false e f = let n : ⊥ = cc in elim n [ ]
    go false true e f = refl
    go true false e f = f e
    go true true e f = let n : ⊥ = cc in elim n [ ]

-- host, user and port are those of the file
abbrev HasFields : RawEndpoint → Endpoint → Type 0
HasFields raw ep =
    (ep.host ≡ raw.host) × (ep.user ≡ raw.user) × (ep.port ≡ default_int raw.port (pos 993))

resolve_endpoint-HasFields :
    (read_file : Text → Option Text) (raw : RawEndpoint)
    → HasFields raw (resolve_endpoint read_file raw).0
unfolding resolve_endpoint
resolve_endpoint-HasFields read_file raw =
    let same : HasFields raw (endpoint_of raw) = (refl, refl, refl) in
    let kept =
      password_keeps (HasFields raw) read_file raw (endpoint_of raw) same
        (λ s. (refl, refl, refl)) in
    go (raw.host == codes "") (raw.user == codes "") (is_port (default_int raw.port (pos 993))) same
      kept
  where
    go :
        (a b c : Bool)
        → HasFields raw (endpoint_of raw)
        → HasFields raw (with_password read_file raw (endpoint_of raw)).0
        → HasFields raw
            (if a
              then (endpoint_of raw, some no_host)
              else if b
              then (endpoint_of raw, some no_user)
              else if not c
              then (endpoint_of raw, some bad_port)
              else with_password read_file raw (endpoint_of raw)).0
    go true b c h k = h
    go false true c h k = h
    go false false false h k = h
    go false false true h k = k

pub resolve_endpoint-passed :
    (read_file : Text → Option Text) (raw : RawEndpoint)
    → IsEndpointValid (resolve_endpoint read_file raw).0
    → has_password read_file raw ≡ true
    → (resolve_endpoint read_file raw).1 ≡ none
unfolding resolve_endpoint
resolve_endpoint-passed read_file raw v e =
    let f = resolve_endpoint-HasFields read_file raw in
    let host : (raw.host == codes "") ≡ false = ap (λ s. s == codes "") (sym f.0) ∙ v.0 in
    let user : (raw.user == codes "") ≡ false = ap (λ s. s == codes "") (sym f.1) ∙ v.1 in
    let port : is_port (default_int raw.port (pos 993)) ≡ true =
      ap is_port (sym f.2 ∙ v.3) ∙ in_range v.2 v.4 in
    rw (host, user, port) (with_password-none read_file raw (endpoint_of raw) e)

below_one-IsPositive : (v : ℤ) → IsPositive v → below_one v ≡ false
below_one-IsPositive v p = rw (p.1) (ground arith)

is_negative-IsPositive : (v : ℤ) → IsPositive v → is_negative v ≡ false
is_negative-IsPositive v p = rw (p.1) refl

kept_char : (c : ℕ) → is_kept c ≡ true → is_replacement (c ∷ []) ≡ true
unfolding is_replacement is_keyword_char
kept_char c e = ground arith

pub setting_faults-passed : (w : Where) (m : Mirror) → IsMirrorValid m → setting_faults w m ≡ []
unfolding setting_faults
setting_faults-passed w m v =
    let l = v.4 in
    let o = v.5 in
    let n = v.6 in
    let r = ap is_replacement l.2 ∙ kept_char l.1 l.3 in
    rw
      (
        v.1,
        l.0,
        r,
        o.0,
        o.1,
        o.2,
        below_one-IsPositive m.uid_batch n.0,
        is_negative-IsPositive m.poll_interval n.1,
        is_negative-IsPositive m.idle_reset n.2,
      )
      refl
