-- ===== src/Membership/Rebuild/Conditions.antt =====
-- internal/reconcile/membership.go: what holds while a folder with a new UIDVALIDITY is scanned, and
-- behind the removals.
use mathlib.Core.Path.{subst}
use umleitung.Base.{
  ℕ, ◌+◌, ◌≤◌, ◌<◌, ◌≡◌, ◌⊎◌, ap, refl, true, false, some, none, List, [], ◌∷◌, ◌++◌, ltb, ltb→lt,
  ltb→le, Bool-cases, inl, inr, arith, if◌then◌else◌,
}
use umleitung.Base.Text.{Text, ◌==◌, eq_iff, contains, contains-append}
use umleitung.Key.{MsgMeta, dedup_key}
use umleitung.State.Tables.{Db, MemberChangeItem}
use umleitung.State.Members.{uid_at, Keyed, lookup_folder-put_folder}
use umleitung.Env.{Env, Options}
use umleitung.Membership.{unseen, keys_of_metas}
use umleitung.Membership.Gone.{contains-unseen, unseen-contains}
use umleitung.Membership.Items.{Adds, Removes, batch}
use umleitung.Membership.Batches.{
  Among, Keyed-batch, folders-batch, uid_at-Removes, uid_at-Adds, Adds-uid_at,
}
use umleitung.Membership.Removals.{Kept, Scanned}
use umleitung.Membership.Tracks.{
  FolderView, mark_of, IsSnapshot, SameOthers, SameOthers-batch, SameOthers-with_mark, with_mark,
}

module _ (E : Env) (o : Options) where
  Among-keys :
      (ms : List MsgMeta) (k : Text)
      → contains (keys_of_metas E o ms) k ≡ true
      → (u : ℕ) × Among E.hex_sha256 u k ms
  Among-keys [] k h = absurd (cc h)
  Among-keys (m ∷ ms) k h = elim (Bool-cases (dedup_key E.hex_sha256 m == k)) [
    | inl same ↦ (m.uid, inl (refl, (eq_iff _ k).0 same))
    | inr other ↦ let (u, x) = Among-keys ms k (ground (arith, h, other)) in (u, inr x)
  ]

  keys-Among :
      (ms : List MsgMeta) (u : ℕ) (k : Text)
      → Among E.hex_sha256 u k ms
      → contains (keys_of_metas E o ms) k ≡ true
  keys-Among [] u k h = elim h [ ]
  keys-Among (m ∷ ms) u k (inl h) = ground (arith, (eq_iff (dedup_key E.hex_sha256 m) k).1 h.1)
  keys-Among (m ∷ ms) u k (inr h) = ground (arith, keys-Among ms u k h)

-- While the folder is scanned anew: what is stored is in the folder, or was stored and is not seen
-- yet; and the messages below `a` are stored and seen.
pub record Partial (f : Text) (v : ℕ) (Has : ℕ → Text → Type 0) (before : Db) (stored : List Text)
    (a : ℕ) (seen : List Text) (db : Db) : Type 0 where
  pub keyed : Keyed db.members
  pub others : SameOthers f before db
  pub stale : ¬ ((mark_of f db).0 ≡ v)
  pub rows :
      (u : ℕ) (k : Text)
      → uid_at f k db.members ≡ some u
      → Has u k ⊎ ((contains stored k ≡ true) × (contains seen k ≡ false))
  pub upto :
      (u : ℕ) (k : Text)
      → Has u k
      → u < a
      → (uid_at f k db.members ≡ some u) × (contains seen k ≡ true)

module _ {E : Env} {f : Text} {v next : ℕ} {Has : ℕ → Text → Type 0} {content : ℕ → Text}
    {Selected : E.Src → Type 0} (V : FolderView E f v next Has content Selected) (before : Db)
    (o : Options) (stored : List Text) where
  abbrev At : ℕ → List Text → Db → Type 0
  At = Partial f v Has before stored

  pub Partial-Kept : (a : ℕ) (seen : List Text) (db : Db) → At a seen db → Kept V before db
  Partial-Kept a seen db c = (
    record {
      keyed = c.keyed;
      sound = λ k u e h. absurd (c.stale e);
      complete = λ u k e h l. absurd (c.stale e);
    },
    c.others,
  )

  pub Partial-Adds :
      (a stop : ℕ) (seen : List Text) (ms : List MsgMeta) (items : List MemberChangeItem) (db : Db)
      → ((u : ℕ) (k : Text) → Among E.hex_sha256 u k ms → Has u k)
      → ((u : ℕ) (k : Text) → Has u k → a ≤ u → u ≤ stop → Among E.hex_sha256 u k ms)
      → Adds E.hex_sha256 ms items
      → At a seen db
      → At (stop + 1) (keys_of_metas E o ms ++ seen) (batch f items db)
  Partial-Adds a stop seen ms items db from to adds c = record {
    keyed = Keyed-batch f items db c.keyed;
    others = SameOthers-batch f before items db c.others;
    stale = rw (folders-batch f items db) c.stale;
    rows = λ u k h. elim (uid_at-Adds f E.hex_sha256 ms items db k u adds h) [
      | inr new ↦ inl (from u k new)
      | inl old ↦ elim (c.rows u k old) [
        | inl shown ↦ inl shown
        | inr waits ↦ elim (Bool-cases (contains (keys_of_metas E o ms) k)) [
          | inl now ↦
              let (w, x) = Among-keys E o ms k now in
              let e = added w k (from w k x) (inr x) in
              let q : w ≡ u = cc in inl (subst (λ i. Has i k) q (from w k x))
          | inr no_more ↦
              let e = contains-append (keys_of_metas E o ms) seen k in
              inr (waits.0, ground (arith, no_more, waits.1, e))
        ]
      ]
    ];
    upto = λ u k h l.
        let e = contains-append (keys_of_metas E o ms) seen k in
        elim (Bool-cases (ltb u a)) [
          | inl early ↦
              let x = c.upto u k h (ltb→lt u a early) in
              (added u k h (inl x.0), ground (arith, x.1, e))
          | inr late ↦
              let x = to u k h (ltb→le u a late) (omega arith) in
              (added u k h (inr x), ground (arith, keys-Among E o ms u k x, e))
        ];
  }
    where
      added :
          (u : ℕ) (k : Text)
          → Has u k
          → (uid_at f k db.members ≡ some u) ⊎ Among E.hex_sha256 u k ms
          → uid_at f k (batch f items db).members ≡ some u
      added u k h x =
          Adds-uid_at f E.hex_sha256 ms items db k u adds (λ w y. V.one_uid w u k (from w k y) h) x

  -- behind the last window and the removals
  pub record Rebuilt (db : Db) : Type 0 where
    keyed : Keyed db.members
    others : SameOthers f before db
    stale : ¬ ((mark_of f db).0 ≡ v)
    snapshot : IsSnapshot f Has db

  pub Rebuilt-Removes :
      (a : ℕ) (seen : List Text) (items : List MemberChangeItem) (db : Db)
      → next ≤ a
      → Removes (unseen seen stored) items
      → At a seen db
      → Rebuilt (batch f items db)
  Rebuilt-Removes a seen items db l r c = record {
    keyed = Keyed-batch f items db c.keyed;
    others = SameOthers-batch f before items db c.others;
    stale = rw (folders-batch f items db) c.stale;
    snapshot = λ u k. (
      λ h. elim (Bool-cases (contains (unseen seen stored) k)) [
        | inl gone ↦ absurd (ground (arith, gone, h, left k))
        | inr stays ↦ elim (c.rows u k (ground (arith, stays, h, left k))) [
          | inl shown ↦ shown
          | inr waits ↦
              let e = contains-unseen seen stored k waits.0 waits.1 in absurd (cc (e, stays))
        ]
      ],
      λ h.
          let range = V.in_range u k h in
          let x = c.upto u k h (omega arith) in
          elim (Bool-cases (contains (unseen seen stored) k)) [
            | inl gone ↦ let e = unseen-contains seen stored k gone in absurd (cc (e, x.1))
            | inr stays ↦ ground (arith, stays, x.0, left k)
          ],
    );
  }
    where
      left :
          (k : Text)
          → uid_at f k (batch f items db).members
            ≡ (if contains (unseen seen stored) k then none else uid_at f k db.members)
      left k = uid_at-Removes f (unseen seen stored) items db k r

  pub Rebuilt-Scanned :
      (stop : ℕ) (db : Db) → next ≤ stop + 1 → Rebuilt db → Scanned V before (with_mark f v stop db)
  Rebuilt-Scanned stop db l c = (
    (
      (
        record {
          keyed = c.keyed;
          sound = λ k u e h.
              let x = (c.snapshot u k).0 h in ((V.in_range u k x).0, V.same_content u k x);
          complete = λ u k e h l. (c.snapshot u k).1 h;
        },
        SameOthers-with_mark f before v stop db c.others,
      ),
      ap (λ (p : ℕ × ℕ). p.0) (lookup_folder-put_folder f v stop db.folders),
    ),
    c.snapshot,
  )

  pub Rebuilt-Kept : (db : Db) → Rebuilt db → Kept V before db
  Rebuilt-Kept db c = (
    record {
      keyed = c.keyed;
      sound = λ k u e h. absurd (c.stale e);
      complete = λ u k e h l. absurd (c.stale e);
    },
    c.others,
  )

  pub At-move :
      (a b : ℕ) (seen : List Text) (db : Db)
      → ((u : ℕ) → u < next → u < b → u < a)
      → At a seen db
      → At b seen db
  At-move a b seen db sub c = record {
    keyed = c.keyed;
    others = c.others;
    stale = c.stale;
    rows = c.rows;
    upto = λ u k h l. c.upto u k h (sub u (V.in_range u k h).1 l);
  }
