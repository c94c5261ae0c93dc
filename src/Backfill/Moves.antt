-- ===== src/Backfill/Moves.antt =====
-- internal/reconcile/membership.go: the moves of a backfill of one folder.
use mathlib.Core.Path.{subst}
use umleitung.Base.{
  ℕ, ◌≡◌, refl, ◌∙◌, Bool, true, false, ◌&&◌, ◌||◌, List, [], ◌∷◌, ◌++◌, Bool-cases, inl, inr,
  arith,
}
use umleitung.Base.Text.{Text, ◌==◌, eq_iff}
use umleitung.Base.Exec.{Result, ok, err, each, ◌>>◌}
use umleitung.Base.Keeps.{Keeps}
use umleitung.Base.Hoare.{After, Triple, Triple-Keeps, Triple-bind, Triple-gives}
use umleitung.Env.{Env, Options, World, on_dst, check_ctx}
use umleitung.Backfill.{Groups, chunked, move_group}
use umleitung.Backfill.Groups.{concat, chunked_lem, has, in_group}

has-concat : (u : ℕ) (us vs : List ℕ) → has u (us ++ vs) ≡ (has u us || has u vs)
has-concat u [] vs = refl
has-concat u (x ∷ us) vs = ground (arith, has-concat u us vs)

-- `Moved u g s`: on the destination `s` the message with the UID `u` of the folder was moved to `g`.
-- A move that is confirmed has moved its messages, and no move takes another back.
pub record MoveLaws (E : Env) (folder : Text) (Moved : ℕ → Text → E.Dst → Type 0) : Type 0 where
  pub move :
      (us : List ℕ) (g : Text)
      → Triple
          (λ s. Unit {0})
          (E.dst_move_uids folder us g)
          (λ r s. (u : ℕ) → has u us ≡ true → Moved u g s)
          (λ s. Unit {0})
  pub move_keeps :
      (us : List ℕ) (g : Text) (u : ℕ) (k : Text) → Keeps (Moved u k) (E.dst_move_uids folder us g)

module _ (E : Env) (o : Options) (folder : Text) (Moved : ℕ → Text → E.Dst → Type 0)
    (L : MoveLaws E folder Moved) where
  abbrev pub AllMoved : (Text → ℕ → Bool) → World E → Type 0
  AllMoved S w = (k : Text) (u : ℕ) → S k u ≡ true → Moved u k w.dst

  -- the messages of `S` and those of `us`, which go to `g`
  abbrev with_uids : (Text → ℕ → Bool) → Text → List ℕ → Text → ℕ → Bool
  with_uids S g us k u = S k u || (g == k && has u us)

  AllMoved-gives :
      (S T : Text → ℕ → Bool) (w : World E)
      → ((k : Text) (u : ℕ) → S k u ≡ T k u)
      → AllMoved S w
      → AllMoved T w
  AllMoved-gives S T w e h k u t = h k u (e k u ∙ t)

  move_chunk-AllMoved :
      (S : Text → ℕ → Bool) (c : List ℕ) (g : Text)
      → Triple
          (AllMoved S)
          (check_ctx >> on_dst (E.dst_move_uids folder c g))
          (λ r. AllMoved (with_uids S g c))
          (λ w. Unit {0})
  move_chunk-AllMoved S c g =
      Triple-bind {R = λ r. AllMoved S} check_ctx _
        (Triple-Keeps check_ctx (record { at = λ w h. h }) (λ w h. tt) (λ r w h. h))
        λ r. record {
          run = λ w h.
              go w (E.dst_move_uids folder c g w.dst) ((L.move c g).run w.dst tt)
                (λ k u e. (L.move_keeps c g u k).at w.dst (h k u e));
        }
    where
      go :
          (w : World E) (x : Result (Unit {0}) × E.Dst)
          → After (λ r s. (u : ℕ) → has u c ≡ true → Moved u g s) (λ s. Unit {0}) x
          → ((k : Text) (u : ℕ) → S k u ≡ true → Moved u k x.1)
          → After (λ r. AllMoved (with_uids S g c)) (λ v. Unit {0}) (x.0, record w { dst = x.1 })
      go w (err e, d) new old = tt
      go w (ok r, d) new old = λ k u e. elim (Bool-cases (S k u)) [
        | inl before ↦ old k u before
        | inr now ↦
            let p : (g == k) ≡ true = ground (arith, e, now) in
            let q : has u c ≡ true = ground (arith, e, now) in
            subst (λ j. Moved u j d) ((eq_iff g k).0 p) (new u q)
      ]

  move_chunks-AllMoved :
      (S : Text → ℕ → Bool) (css : List (List ℕ)) (g : Text)
      → Triple
          (AllMoved S)
          (each css (λ c. check_ctx >> on_dst (E.dst_move_uids folder c g)))
          (λ r. AllMoved (with_uids S g (concat css)))
          (λ w. Unit {0})
  move_chunks-AllMoved S [] g = record {
    run = λ w h. AllMoved-gives S (with_uids S g []) w (λ k u. ground arith) h;
  }
  move_chunks-AllMoved S (c ∷ css) g = Triple-bind _ _ (move_chunk-AllMoved S c g) λ r.
      Triple-gives
        (λ a w.
          AllMoved-gives (with_uids (with_uids S g c) g (concat css))
            (with_uids S g (c ++ concat css)) w
            (λ k u. ground (arith, has-concat u c (concat css))))
        (move_chunks-AllMoved (with_uids S g c) css g)

  move_group-AllMoved :
      (S : Text → ℕ → Bool) (g : Text) (us : List ℕ)
      → Triple
          (AllMoved S)
          (move_group E o folder (g, us))
          (λ r. AllMoved (with_uids S g us))
          (λ w. Unit {0})
  unfolding move_group
  move_group-AllMoved S g us =
      Triple-bind {R = λ r. AllMoved (with_uids S g us)} _ _
        (Triple-gives (λ a w h. subst (λ vs. AllMoved (with_uids S g vs) w) (chunked_lem us).0 h)
          (move_chunks-AllMoved S (chunked us) g))
        λ r. record { run = λ w h. h }

  pub move_groups-AllMoved :
      (S : Text → ℕ → Bool) (groups : Groups)
      → Triple
          (AllMoved S)
          (each groups (move_group E o folder))
          (λ r. AllMoved (λ k u. S k u || in_group k u groups))
          (λ w. Unit {0})
  move_groups-AllMoved S [] = record {
    run = λ w h. AllMoved-gives S (λ k u. S k u || false) w (λ k u. ground arith) h;
  }
  move_groups-AllMoved S ((g, us) ∷ groups) = Triple-bind _ _ (move_group-AllMoved S g us) λ r.
      Triple-gives
        (λ a w.
          AllMoved-gives (λ k u. with_uids S g us k u || in_group k u groups)
            (λ k u. S k u || in_group k u ((g, us) ∷ groups)) w (λ k u. ground arith))
        (move_groups-AllMoved (with_uids S g us) groups)
