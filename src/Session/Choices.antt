-- ===== src/Session/Choices.antt =====
-- The options of a session, against the configuration that they come from.
use umleitung.Base.{
  ℕ, ◌≡◌, refl, true, false, ◌||◌, Option, List, [], ◌∷◌, ◌++◌, All, All-map, Bool-cases, inl, inr,
  arith,
}
use umleitung.Base.Text.{Text, codes, contains, ◌==◌, eq_refl}
use umleitung.Base.Exec.{ok}
use umleitung.Env.{Env, Options, World}
use umleitung.Config.{Mirror, Config, RawConfig}
use umleitung.Config.Resolve.{valid, resolve}
use umleitung.Config.Accepted.{resolve-IsConfigValid}
use umleitung.Config.Valid.{IsMirrorValid}
use umleitung.Labels.{
  is_kept, replacement, keyword_for, label_keyword, keywords_from, label_keywords,
}
use umleitung.Labels.Laws.{is_slug_char, keyword_for-is_slug_char}
use umleitung.Routing.{dest_folder_for, dest_bucket_folders}
use umleitung.Routing.Laws.{dest_folder_for-IsBucket}
use umleitung.Windows.{new}
use umleitung.Session.{dest_folders, options_of}

-- The folders that the scans of the destination cover are those that the session has created.
pub contains-dest_folders :
    (m : Mirror) (src sent f : Text)
    → contains (dest_bucket_folders (new (options_of m src sent))) f ≡ contains (dest_folders m) f
unfolding dest_bucket_folders dest_folders options_of new
contains-dest_folders m src sent f = ground arith

-- A folder that a message is routed to is one that the session has created.
dest_folder_for-dest_folders :
    (E : Env) (m : Mirror) (src sent k f : Text) (w : World E)
    → (dest_folder_for E (new (options_of m src sent)) k w).0 ≡ ok f
    → contains (dest_folders m) f ≡ true
dest_folder_for-dest_folders E m src sent k f w e =
    let h = dest_folder_for-IsBucket E (new (options_of m src sent)) k f w e in
    let g = contains-dest_folders m src sent f in cc

replacement-is_kept : (c : ℕ) → is_kept c ≡ true → is_kept (replacement (c ∷ [])) ≡ true
unfolding replacement
replacement-is_kept c h = ground arith

-- the prefix, with a slug of lower-case letters, digits, `-` and `_` behind it that is not empty
abbrev pub IsKeyword : Text → Text → Type 0
IsKeyword prefix kw =
    (slug : Text) × (kw ≡ prefix ++ slug)
    × ((slug == codes "") ≡ false)
    × All (λ c. is_slug_char c ≡ true) slug

label_keyword-IsKeyword :
    (o : Options) (label : Text)
    → is_kept (replacement o.keyword_replacement) ≡ true
    → (label_keyword o label == codes "") ≡ false
    → IsKeyword o.keyword_prefix (label_keyword o label)
unfolding label_keyword
label_keyword-IsKeyword o label r =
    let slug = keyword_for label o.keyword_replacement in
    elim (Bool-cases (slug == codes "")) [
      | inl none_left ↦ rw none_left (λ h. absurd (cc (h, eq_refl (codes ""))))
      | inr e ↦ rw e (λ h. (slug, refl, e, keyword_for-is_slug_char label o.keyword_replacement r))
    ]

keywords_from-IsKeyword :
    (o : Options) (seen labels : List Text)
    → is_kept (replacement o.keyword_replacement) ≡ true
    → All (IsKeyword o.keyword_prefix) (keywords_from o seen labels)
unfolding keywords_from
keywords_from-IsKeyword o seen [] r = tt
keywords_from-IsKeyword o seen (l ∷ labels) r =
    elim (Bool-cases (label_keyword o l == codes "" || contains seen (label_keyword o l))) [
      | inl skip ↦ rw skip (keywords_from-IsKeyword o seen labels r)
      | inr fresh ↦
          let e : (label_keyword o l == codes "") ≡ false = ground (arith, fresh) in
          rw fresh (
            label_keyword-IsKeyword o l r e,
            keywords_from-IsKeyword o (label_keyword o l ∷ seen) labels r,
          )
    ]

label_keywords-IsMirrorValid :
    (src sent : Text) (labels : List Text) (m : Mirror)
    → IsMirrorValid m
    → All (IsKeyword m.labels.keyword_prefix) (label_keywords (new (options_of m src sent)) labels)
unfolding label_keywords options_of new
label_keywords-IsMirrorValid src sent labels m v =
    let l = v.4 in
    keywords_from-IsKeyword (new (options_of m src sent)) [] labels
      (rw (l.2) (replacement-is_kept l.1 l.3))

-- If the configuration is accepted, then with the options of any of its mirrors the keywords of any
-- labels are each the keyword prefix of that mirror, whatever it is, with at least one character
-- behind it, all of which are lower-case letters, digits, `-` or `_`.
pub resolve-label_keywords :
    (read_file : Text → Option Text) (raw : RawConfig) (cfg : Config) (src sent : Text)
    (labels : List Text)
    → resolve read_file raw ≡ valid cfg
    → All
        (λ m.
          All
            (IsKeyword m.labels.keyword_prefix)
            (label_keywords (new (options_of m src sent)) labels))
        cfg.mirrors
resolve-label_keywords read_file raw cfg src sent labels e =
    All-map cfg.mirrors (label_keywords-IsMirrorValid src sent labels)
      (resolve-IsConfigValid read_file raw cfg e).2
