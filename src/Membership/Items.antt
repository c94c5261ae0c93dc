-- ===== src/Membership/Items.antt =====
-- internal/reconcile/membership.go: what `recordAdditions` and `recordRemovals` store.
use mathlib.Core.Path.{subst}
use umleitung.Base.{
  ◌≡◌, refl, sym, true, false, not, ◌||◌, List, [], ◌∷◌, map, Bool-cases, inl, inr,
}
use umleitung.Base.Text.{Text, codes, ◌==◌}
use umleitung.Base.Exec.{Result, ok, err, Exec}
use umleitung.Base.Keeps.{Keeps, Keeps-bind, Keeps-if, Keeps-pure}
use umleitung.Base.Hoare.{
  After, Triple, Triple-pure, Triple-Keeps, Triple-bind, Triple-fails, Triple-given,
}
use umleitung.Key.{MsgMeta, dedup_key, is_real_message_id}
use umleitung.State.Tables.{Db, MemberChangeItem}
use umleitung.State.Store.{Conn, query, exec, has_key, member_change_batch}
use umleitung.State.Atomic.{
  change_row, apply_all, WholeOrNothing, member_change_batch-WholeOrNothing,
}
use umleitung.Env.{Env, Options, World, on_store, on_src, check_ctx}
use umleitung.Membership.{
  gate_pending, added_items, removed_items, record_additions, record_removals,
}

-- of the database, and of the source
abbrev pub On : {E : Env} → (Db → Type 0) → (E.Src → Type 0) → World E → Type 0
On D S w = D w.conn.db × S w.src

-- the items are additions of the messages, in order
abbrev pub Adds : (Text → Text) → List MsgMeta → List MemberChangeItem → Type 0
Adds hash [] [] = Unit {0}
Adds hash [] (it ∷ items) = ⊥
Adds hash (m ∷ ms) [] = ⊥
Adds hash (m ∷ ms) (it ∷ items) =
    (it.key ≡ dedup_key hash m) × (it.uid ≡ m.uid) × (it.add ≡ true) × Adds hash ms items

-- the items are removals of the keys, in order
abbrev pub Removes : List Text → List MemberChangeItem → Type 0
Removes [] [] = Unit {0}
Removes [] (it ∷ items) = ⊥
Removes (k ∷ ks) [] = ⊥
Removes (k ∷ ks) (it ∷ items) = (it.key ≡ k) × (it.add ≡ false) × Removes ks items

-- the database behind a batch
abbrev pub batch : Text → List MemberChangeItem → Db → Db
batch f items = apply_all (map (change_row f) items)

module _ (E : Env) (S : E.Src → Type 0) (D : Db → Type 0) where
  pub Triple-query :
      {A : Type 0} (q : Db → A)
      → Triple
          (On D S)
          (on_store {E = E} (query E.faults q))
          (λ a w. (a ≡ q w.conn.db) × On D S w)
          (λ w. D w.conn.db)
  Triple-query q = record {
    run = λ w h. elim (Bool-cases (E.faults w.conn.calls)) [
      | inl e ↦ rw e h.0
      | inr e ↦ rw e (refl, h)
    ];
  }

  pub Triple-src :
      {A : Type 0} (m : Exec E.Src A) (Q : A → E.Src → Type 0)
      → Triple S m Q (λ s. Unit {0})
      → Triple (On D S) (on_src {E = E} m) (λ a w. D w.conn.db × Q a w.src) (λ w. D w.conn.db)
  Triple-src {A = A} m Q t = record { run = λ w h. go w h.0 (m w.src) (t.run w.src h.1) }
    where
      go :
          (w : World E)
          → D w.conn.db
          → (x : Result A × E.Src) → After Q (λ s. Unit {0}) x
          → After
              (λ a (v : World E). D v.conn.db × Q a v.src)
              (λ v. D v.conn.db)
              (x.0, record w { src = x.1 })
      go w d (ok a, s) q = (d, q)
      go w d (err e, s) q = d

  On-check_ctx : Keeps (On D S) (check_ctx {E = E})
  On-check_ctx = record { at = λ w h. h }

  pub Triple-check_ctx : Triple (On D S) (check_ctx {E = E}) (λ u. On D S) (λ w. D w.conn.db)
  Triple-check_ctx = Triple-Keeps _ On-check_ctx (λ w h. h.0) (λ u w h. h)

  On-has_key : (k : Text) → Keeps (On D S) (on_store {E = E} (has_key E.faults k))
  unfolding has_key
  On-has_key k = record {
    at = λ w h. elim (Bool-cases (E.faults w.conn.calls)) [ inl e ↦ rw e h | inr e ↦ rw e h ];
  }

  pub Triple-batch :
      (D' X : Db → Type 0) (f : Text) (items : List MemberChangeItem)
      → ((db : Db) → D db → D' (batch f items db))
      → ((db : Db) → D db → X db)
      → Triple
          (On D S)
          (on_store {E = E} (member_change_batch E.faults f items))
          (λ u. On D' S)
          (λ w. X w.conn.db)
  Triple-batch D' X f items step fails = record {
    run = λ w h.
        go w h (member_change_batch E.faults f items w.conn)
          (member_change_batch-WholeOrNothing E.faults f items w.conn);
  }
    where
      go :
          (w : World E)
          → On D S w
          → (x : Result (Unit {0}) × Conn) → WholeOrNothing (batch f items) w.conn.db x
          → After
              (λ (u : Unit {0}) (v : World E). On D' S v)
              (λ v. X v.conn.db)
              (x.0, record w { conn = x.1 })
      go w h (ok u, c) e = (subst D' (sym e) (step w.conn.db h.0), h.1)
      go w h (err e, c) q = subst X (sym q.1) (fails w.conn.db h.0)

  pub Triple-exec :
      (D' X : Db → Type 0) (g : Db → Db)
      → ((db : Db) → D db → D' (g db))
      → ((db : Db) → D db → X db)
      → Triple (On D S) (on_store {E = E} (exec E.faults g)) (λ u. On D' S) (λ w. X w.conn.db)
  Triple-exec D' X g step fails = record {
    run = λ w h. elim (Bool-cases (E.faults w.conn.calls)) [
      | inl e ↦ rw e (fails w.conn.db h.0)
      | inr e ↦ rw e (step w.conn.db h.0, h.1)
    ];
  }

  module _ (o : Options) where
    On-gate_pending : (key kind : Text) → Keeps (On D S) (gate_pending E o key kind)
    unfolding gate_pending
    On-gate_pending key kind =
        Keeps-if (kind == codes "" || not (is_real_message_id key)) _ _ (Keeps-pure _)
          (Keeps-bind (on_store (has_key E.faults key)) _ (On-has_key key) (λ c. Keeps-pure _))

    pub Triple-gate_pending :
        (key kind : Text)
        → Triple (On D S) (gate_pending E o key kind) (λ k. On D S) (λ w. D w.conn.db)
    Triple-gate_pending key kind =
        Triple-Keeps _ (On-gate_pending key kind) (λ w h. h.0) (λ k w h. h)

    added_items-Adds :
        (kind_for : Text → Text) (ms : List MsgMeta)
        → Triple
            (On D S)
            (added_items E o kind_for ms)
            (λ items w. Adds E.hex_sha256 ms items × On D S w)
            (λ w. D w.conn.db)
    unfolding added_items
    added_items-Adds kind_for [] = Triple-pure [] (λ w h. (tt, h))
    added_items-Adds kind_for (m ∷ ms) = Triple-bind _ _ (Triple-gate_pending _ _) λ kind.
        Triple-bind _ _ (added_items-Adds kind_for ms)
          λ items. Triple-pure _ (λ w h. ((refl, refl, refl, h.0), h.1))

    removed_items-Removes :
        (kind : Text) (ks : List Text)
        → Triple
            (On D S)
            (removed_items E o kind ks)
            (λ items w. Removes ks items × On D S w)
            (λ w. D w.conn.db)
    unfolding removed_items
    removed_items-Removes kind [] = Triple-pure [] (λ w h. (tt, h))
    removed_items-Removes kind (k ∷ ks) = Triple-bind _ _ Triple-check_ctx λ u.
        Triple-bind _ _ (Triple-gate_pending _ _) λ g.
          Triple-bind _ _ (removed_items-Removes kind ks)
            λ items. Triple-pure _ (λ w h. ((refl, refl, h.0), h.1))

    -- The additions are stored in one batch.
    pub Triple-record_additions :
        (D' X : Db → Type 0) (f : Text) (kind_for : Text → Text) (ms : List MsgMeta)
        → ((items : List MemberChangeItem) (db : Db)
            → Adds E.hex_sha256 ms items
            → D db
            → D' (batch f items db))
        → ((db : Db) → D db → X db)
        → Triple (On D S) (record_additions E o f kind_for ms) (λ u. On D' S) (λ w. X w.conn.db)
    unfolding record_additions
    Triple-record_additions D' X f kind_for ms step fails =
        Triple-bind _ _ (Triple-fails (λ w. fails w.conn.db) (added_items-Adds kind_for ms))
          λ items. Triple-given (λ a. Triple-batch D' X f items (λ db. step items db a) fails)

    -- The removals are stored in one batch.
    pub Triple-record_removals :
        (D' X : Db → Type 0) (f kind : Text) (ks : List Text)
        → ((items : List MemberChangeItem) (db : Db)
            → Removes ks items
            → D db
            → D' (batch f items db))
        → ((db : Db) → D db → X db)
        → Triple (On D S) (record_removals E o f kind ks) (λ u. On D' S) (λ w. X w.conn.db)
    unfolding record_removals
    Triple-record_removals D' X f kind ks step fails =
        Triple-bind _ _ (Triple-fails (λ w. fails w.conn.db) (removed_items-Removes kind ks))
          λ items. Triple-given (λ a. Triple-batch D' X f items (λ db. step items db a) fails)
