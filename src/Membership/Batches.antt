-- ===== src/Membership/Batches.antt =====
-- internal/reconcile/membership.go: what a batch of changes does to the map of the members.
use umleitung.Base.{
  ℕ, ◌≡◌, refl, ◌∙◌, true, false, ◌⊎◌, inl, inr, none, some, List, [], ◌∷◌, Bool-cases,
  if◌then◌else◌, arith,
}
use umleitung.Base.Text.{Text, ◌==◌, eq_iff, eq_refl, contains}
use umleitung.Key.{MsgMeta, dedup_key}
use umleitung.State.Tables.{Db, MemberChangeItem}
use umleitung.State.Atomic.{change_row}
use umleitung.State.Members.{uid_at, Keyed, uid_at-change_row, Keyed-change_row, folders-change_row}
use umleitung.Membership.Items.{Adds, Removes, batch}

-- A list of messages has one with this UID and key.
abbrev pub Among : (Text → Text) → ℕ → Text → List MsgMeta → Type 0
Among hash u k [] = ⊥
Among hash u k (m ∷ ms) = ((m.uid ≡ u) × (dedup_key hash m ≡ k)) ⊎ Among hash u k ms

module _ (f : Text) where
  pub Keyed-batch :
      (items : List MemberChangeItem) (db : Db)
      → Keyed db.members
      → Keyed (batch f items db).members
  Keyed-batch [] db h = h
  Keyed-batch (it ∷ items) db h =
      Keyed-batch items (change_row f it db) (Keyed-change_row f it db h)

  pub folders-batch :
      (items : List MemberChangeItem) (db : Db) → (batch f items db).folders ≡ db.folders
  folders-batch [] db = refl
  folders-batch (it ∷ items) db =
      folders-batch items (change_row f it db) ∙ folders-change_row f it db

  -- A batch leaves the other folders.
  pub uid_at-batch_other :
      (items : List MemberChangeItem) (db : Db) (g j : Text)
      → (f == g) ≡ false
      → uid_at g j (batch f items db).members ≡ uid_at g j db.members
  uid_at-batch_other [] db g j n = refl
  uid_at-batch_other (it ∷ items) db g j n =
      uid_at-batch_other items (change_row f it db) g j n
      ∙ ground (arith, n, uid_at-change_row f it db g j)

  -- Removals take their keys from the folder, and no other key.
  pub uid_at-Removes :
      (ks : List Text) (items : List MemberChangeItem) (db : Db) (j : Text)
      → Removes ks items
      → uid_at f j (batch f items db).members
        ≡ (if contains ks j then none else uid_at f j db.members)
  uid_at-Removes [] [] db j r = refl
  uid_at-Removes [] (it ∷ items) db j r = elim r [ ]
  uid_at-Removes (k ∷ ks) [] db j r = elim r [ ]
  uid_at-Removes (k ∷ ks) (it ∷ items) db j r = ground (
    arith,
    r.0,
    r.1,
    eq_refl f,
    uid_at-Removes ks items (change_row f it db) j r.2,
    uid_at-change_row f it db f j,
  )

  uid_at-add :
      (it : MemberChangeItem) (db : Db) (j : Text)
      → it.add ≡ true
      → uid_at f j (change_row f it db).members
        ≡ (if it.key == j then some it.uid else uid_at f j db.members)
  uid_at-add it db j a = ground (arith, a, eq_refl f, uid_at-change_row f it db f j)

  module _ (hash : Text → Text) where
    added-or :
        (m : MsgMeta) (ms : List MsgMeta) (it : MemberChangeItem) (db : Db) (j : Text) (u : ℕ)
        → it.key ≡ dedup_key hash m
        → it.uid ≡ m.uid
        → it.add ≡ true
        → uid_at f j (change_row f it db).members ≡ some u
        → (uid_at f j db.members ≡ some u) ⊎ Among hash u j (m ∷ ms)
    added-or m ms it db j u k v a h = elim (Bool-cases (it.key == j)) [
      | inl same ↦
          let q : it.key ≡ j = (eq_iff it.key j).0 same in
          let e : it.uid ≡ u = ground (arith, same, h, uid_at-add it db j a) in inr (inl (cc, cc))
      | inr other ↦ inl (ground (arith, other, h, uid_at-add it db j a))
    ]

    -- What is stored behind additions was stored, or is the UID of one of them.
    pub uid_at-Adds :
        (ms : List MsgMeta) (items : List MemberChangeItem) (db : Db) (j : Text) (u : ℕ)
        → Adds hash ms items
        → uid_at f j (batch f items db).members ≡ some u
        → (uid_at f j db.members ≡ some u) ⊎ Among hash u j ms
    uid_at-Adds [] [] db j u a h = inl h
    uid_at-Adds [] (it ∷ items) db j u a h = elim a [ ]
    uid_at-Adds (m ∷ ms) [] db j u a h = elim a [ ]
    uid_at-Adds (m ∷ ms) (it ∷ items) db j u a h =
        elim (uid_at-Adds ms items (change_row f it db) j u a.3 h) [
          | inr there ↦ inr (inr there)
          | inl here ↦ added-or m ms it db j u a.0 a.1 a.2 here
        ]

    -- If a key has one UID among the additions, that is what is stored for it.
    pub Adds-uid_at :
        (ms : List MsgMeta) (items : List MemberChangeItem) (db : Db) (j : Text) (u : ℕ)
        → Adds hash ms items
        → ((v : ℕ) → Among hash v j ms → v ≡ u)
        → (uid_at f j db.members ≡ some u) ⊎ Among hash u j ms
        → uid_at f j (batch f items db).members ≡ some u
    Adds-uid_at [] [] db j u a one (inl h) = h
    Adds-uid_at [] [] db j u a one (inr h) = elim h [ ]
    Adds-uid_at [] (it ∷ items) db j u a one h = elim a [ ]
    Adds-uid_at (m ∷ ms) [] db j u a one h = elim a [ ]
    Adds-uid_at (m ∷ ms) (it ∷ items) db j u a one (inr (inr h)) =
        Adds-uid_at ms items (change_row f it db) j u a.3 (λ v x. one v (inr x)) (inr h)
    Adds-uid_at (m ∷ ms) (it ∷ items) db j u a one (inr (inl h)) =
        let e : it.key ≡ j = cc in
        Adds-uid_at ms items (change_row f it db) j u a.3 (λ v x. one v (inr x))
          (inl (ground (arith, a.1, h.0, (eq_iff it.key j).1 e, uid_at-add it db j a.2)))
    Adds-uid_at (m ∷ ms) (it ∷ items) db j u a one (inl h) =
        Adds-uid_at ms items (change_row f it db) j u a.3 (λ v x. one v (inr x))
          (inl (elim (Bool-cases (it.key == j)) [
            | inl same ↦
                let q : it.key ≡ j = (eq_iff it.key j).0 same in
                let e : dedup_key hash m ≡ j = cc in
                ground (arith, a.1, same, one m.uid (inl (refl, e)), uid_at-add it db j a.2)
            | inr other ↦ ground (arith, h, other, uid_at-add it db j a.2)
          ]))
