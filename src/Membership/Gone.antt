-- ===== src/Membership/Gone.antt =====
-- internal/reconcile/membership.go: the stored keys that a scan no longer finds.
use mathlib.Core.Path.{subst}
use umleitung.Base.{
  ℕ, ◌<◌, ◌≡◌, true, false, ◌||◌, some, List, [], ◌∷◌, All, lt→ltb, Bool-cases, inl, inr, ==_iff,
  arith,
}
use umleitung.Base.Text.{Text, ◌==◌, eq_iff, contains}
use umleitung.State.Tables.{MemberRow, uid_keys_of}
use umleitung.State.Members.{uid_at}
use umleitung.Membership.{unseen, has_uid, shadowed, gone_keys}

pub contains-unseen :
    (seen stored : List Text) (k : Text)
    → contains stored k ≡ true
    → contains seen k ≡ false
    → contains (unseen seen stored) k ≡ true
unfolding unseen
contains-unseen seen [] k h n = cc
contains-unseen seen (j ∷ stored) k h n =
    ground (arith, h, n, eq_iff j k, contains-unseen seen stored k)

pub unseen-contains :
    (seen stored : List Text) (k : Text)
    → contains (unseen seen stored) k ≡ true
    → contains seen k ≡ false
unfolding unseen
unseen-contains seen [] k h = cc
unseen-contains seen (j ∷ stored) k h = ground (arith, h, eq_iff j k, unseen-contains seen stored k)

module _ (current : List ℕ) where
  -- A key that is gone has a pair whose UID is not in the folder.
  pub gone_keys-pair :
      (P : ℕ × Text → Type 0) (rows : List (ℕ × Text)) (k : Text)
      → All P rows
      → contains (gone_keys current rows) k ≡ true
      → (u : ℕ) × P (u, k) × (has_uid current u ≡ false)
  unfolding gone_keys
  gone_keys-pair P [] k h c = absurd (cc c)
  gone_keys-pair P ((u, j) ∷ rows) k h c =
      elim (Bool-cases (shadowed u rows || has_uid current u)) [
        | inl e ↦ gone_keys-pair P rows k h.1 (rw e at c)
        | inr e ↦ elim (Bool-cases (j == k)) [
          | inl same ↦
              (u, subst (λ (i : Text). P (u, i)) ((eq_iff j k).0 same) h.0, ground (arith, e))
          | inr other ↦ gone_keys-pair P rows k h.1 (ground (arith, c, e, other))
        ]
      ]

  -- If a UID has one key, and its pair is stored but no message has the UID, the key is gone.
  pub contains-gone_keys :
      (u : ℕ) (k : Text) (rows : List (ℕ × Text))
      → All (λ (p : ℕ × Text). p.0 ≡ u → p.1 ≡ k) rows
      → has_uid current u ≡ false
      → shadowed u rows ≡ true
      → contains (gone_keys current rows) k ≡ true
  unfolding gone_keys shadowed
  contains-gone_keys u k [] h n s = cc
  contains-gone_keys u k ((v, j) ∷ rows) h n s =
      ground (arith, n, s, h.0, ==_iff v u, eq_iff j k, contains-gone_keys u k rows h.1 n)

pub shadowed-uid_keys_of :
    (f k : Text) (u : ℕ) (rows : List MemberRow)
    → 0 < u
    → uid_at f k rows ≡ some u
    → shadowed u (uid_keys_of f rows) ≡ true
unfolding uid_at uid_keys_of shadowed
shadowed-uid_keys_of f k u [] p h = cc
shadowed-uid_keys_of f k u (r ∷ rows) p h =
    ground (arith, p, h, lt→ltb 0 r.uid, ==_iff r.uid u, shadowed-uid_keys_of f k u rows p)
