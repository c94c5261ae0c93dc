-- ===== src/Membership/Removals.antt =====
-- internal/reconcile/membership.go: the removals of a scan, from what is stored.
use mathlib.Core.Path.{subst}
use umleitung.Base.{
  ℕ, ◌+◌, ◌%◌, ◌≤◌, ◌≡◌, ap, ◌∙◌, sym, true, false, some, List, Bool-cases, inl, inr, All-map,
  arith,
}
use umleitung.Base.Text.{Text, contains}
use umleitung.State.Tables.{Db, MemberChangeItem, uid_keys_of, lookup_folder}
use umleitung.State.Members.{uid_at, uid_at-uid_keys_of}
use umleitung.Env.{Env}
use umleitung.Windows.{u32}
use umleitung.Membership.{has_uid, gone_keys}
use umleitung.Membership.Gone.{gone_keys-pair, contains-gone_keys, shadowed-uid_keys_of}
use umleitung.Membership.Items.{Removes, batch}
use umleitung.Membership.Batches.{Keyed-batch, folders-batch, uid_at-Removes}
use umleitung.Membership.Tracks.{
  FolderView, mark_of, Tracks, IsSnapshot, SameOthers, SameOthers-batch, Clean, Clean-Tracks,
}

module _ {E : Env} {f : Text} {v next : ℕ} {Has : ℕ → Text → Type 0} {content : ℕ → Text}
    {Selected : E.Src → Type 0} (V : FolderView E f v next Has content Selected) (before : Db) where
  -- what stays true at every failure
  abbrev pub Kept : Db → Type 0
  Kept db = Tracks f v Has content db × SameOthers f before db

  -- what a scan that succeeds ends with
  abbrev pub Scanned : Db → Type 0
  Scanned db = (Kept db × ((mark_of f db).0 ≡ v)) × IsSnapshot f Has db

  pub Clean-Kept : (a : ℕ) (db : Db) → Clean f v Has before a db → Kept db
  Clean-Kept a db c = (Clean-Tracks V before a db c, c.others)

  module _ (current : List ℕ) (rows : List (ℕ × Text)) (last : ℕ) (db : Db)
      (here : (u : ℕ) (k : Text) → Has u k → has_uid current u ≡ true)
      (only : (u : ℕ) → has_uid current u ≡ true → (k : Text) × Has u k)
      (looked : rows ≡ uid_keys_of f db.members) (kept : Kept db)
      (at : mark_of f db ≡ (v, last)) where
    valid : (mark_of f db).0 ≡ v
    valid = ap (λ (p : ℕ × ℕ). p.0) at

    left_gone :
        (u : ℕ) (k : Text)
        → uid_at f k db.members ≡ some u
        → has_uid current u ≡ false
        → contains (gone_keys current rows) k ≡ true
    left_gone u k h n = rw looked (
        contains-gone_keys current u k (uid_keys_of f db.members)
          (All-map (uid_keys_of f db.members)
            (λ p q e.
              sym (kept.0.sound p.1 p.0 valid q).1 ∙ ap content e ∙ (kept.0.sound k u valid h).1)
            (uid_at-uid_keys_of f db.members kept.0.keyed))
          n (shadowed-uid_keys_of f k u db.members (kept.0.sound k u valid h).0 h))

    has_left :
        (u : ℕ) (k : Text)
        → uid_at f k db.members ≡ some u
        → contains (gone_keys current rows) k ≡ true
        → has_uid current u ≡ false
    has_left u k h c =
        let (w, p, n) =
          gone_keys-pair current (λ (p : ℕ × Text). uid_at f p.1 db.members ≡ some p.0)
            (uid_keys_of f db.members) k (uid_at-uid_keys_of f db.members kept.0.keyed)
            (rw looked at c) in
        let e : w ≡ u = cc in subst (λ x. has_uid current x ≡ false) e n

    stays :
        (items : List MemberChangeItem) (u : ℕ) (k : Text)
        → Removes (gone_keys current rows) items
        → uid_at f k (batch f items db).members ≡ some u
        → (uid_at f k db.members ≡ some u) × (contains (gone_keys current rows) k ≡ false)
    stays items u k r h =
        let e = uid_at-Removes f (gone_keys current rows) items db k r in
        elim (Bool-cases (contains (gone_keys current rows) k)) [
          | inl gone ↦ absurd (ground (arith, e, h, gone))
          | inr left ↦ (ground (arith, e, h, left), left)
        ]

    shown_stays :
        (u : ℕ) (k : Text)
        → uid_at f k db.members ≡ some u
        → contains (gone_keys current rows) k ≡ false
        → Has u k
    shown_stays u k h left = elim (Bool-cases (has_uid current u)) [
      | inl there ↦
          let (j, x) = only u there in
          subst (λ i. Has u i) (sym (V.same_content u j x) ∙ (kept.0.sound k u valid h).1) x
      | inr away ↦
          let c : contains (gone_keys current rows) k ≡ true = left_gone u k h away in
          absurd (cc (c, left))
    ]

    has_stays :
        (items : List MemberChangeItem) (u : ℕ) (k : Text)
        → Removes (gone_keys current rows) items
        → Has u k
        → u ≤ last
        → uid_at f k (batch f items db).members ≡ some u
    has_stays items u k r h l =
        let p : u ≤ (mark_of f db).1 = rw at l in
        let q = kept.0.complete u k valid h p in
        let e = uid_at-Removes f (gone_keys current rows) items db k r in
        elim (Bool-cases (contains (gone_keys current rows) k)) [
          | inl gone ↦
              let n : has_uid current u ≡ false = has_left u k q gone in absurd (cc (n, here u k h))
          | inr left ↦ ground (arith, e, q, left)
        ]

    -- Behind the removals what is stored is in the folder.
    pub Clean-Removes :
        (items : List MemberChangeItem)
        → Removes (gone_keys current rows) items
        → Clean f v Has before ((last + 1) % u32) (batch f items db)
    Clean-Removes items r = record {
      keyed = Keyed-batch f items db kept.0.keyed;
      others = SameOthers-batch f before items db kept.1;
      marked = rw (folders-batch f items db) valid;
      shown = λ u k h. let s = stays items u k r h in shown_stays u k s.0 s.1;
      upto = λ u k h l. has_stays items u k r h (elim l [
        | inl early ↦ omega arith
        | inr marked ↦
            let e : (mark_of f (batch f items db)).1 ≡ last =
              ap (λ fs. (lookup_folder f fs).1) (folders-batch f items db)
              ∙ ap (λ (p : ℕ × ℕ). p.1) at in
            omega arith
      ]);
    }
