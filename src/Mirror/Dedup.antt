-- ===== src/Mirror/Dedup.antt =====
-- What the loop over the candidates of a window leaves to copy: each key once, and none that is
-- recorded.
use umleitung.Base.{
  ℕ, ◌≡◌, refl, ap, ◌∙◌, Bool, true, false, ◌||◌, Option, none, some, List, [], ◌∷◌, Bool-cases,
  inl, inr, All, All-map, arith,
}
use umleitung.Base.Text.{Text, contains, eq_iff}
use umleitung.Base.Exec.{Result, ok, err, pure, ◌>>=◌, ◌>>◌}
use umleitung.Base.Keeps.{Keeps}
use umleitung.Base.Hoare.{After, Triple, Triple-pure, Triple-Keeps, Triple-if, Triple-bind}
use umleitung.Key.{MsgMeta, dedup_key}
use umleitung.State.Tables.{KeyRecord, has_row}
use umleitung.State.Store.{Conn, has_key, member_has}
use umleitung.Env.{Env, Options, World, on_store, check_ctx}
use umleitung.Routing.Reads.{dest_folder_for-Keeps}
use umleitung.Routing.{dest_folder_for}
use umleitung.Mirror.{skip_one, keys_with, prepend, classify_one, classify}
use umleitung.Mirror.Pipeline.{PendingCopy}
use umleitung.Safety.Table.{SameCopied, Keeps-member_has}

-- Of the candidates, none has a key of `keys` or of an earlier candidate, and none is recorded.
abbrev pub IsFresh : List KeyRecord → List Text → List PendingCopy → Type 0
IsFresh rows keys [] = Unit
IsFresh rows keys (p ∷ pend) =
    (has_row p.key rows ≡ false)
    × ((contains keys p.key ≡ false) × IsFresh rows (p.key ∷ keys) pend)

abbrev pub keys_of_pending : List PendingCopy → List Text
keys_of_pending [] = []
keys_of_pending (p ∷ pend) = p.key ∷ keys_of_pending pend

-- the key is recorded, in `keys`, or that of a candidate
abbrev pub IsCovered : List KeyRecord → List Text → List PendingCopy → Text → Type 0
IsCovered rows keys pend k =
    (has_row k rows || (contains keys k || contains (keys_of_pending pend) k)) ≡ true

abbrev IsNew : List KeyRecord → List Text → Option PendingCopy → Type 0
IsNew rows keys none = Unit
IsNew rows keys (some p) = (has_row p.key rows ≡ false) × (contains keys p.key ≡ false)

abbrev IsKnown : List KeyRecord → List Text → Text → Option PendingCopy → Type 0
IsKnown rows keys k none = (has_row k rows || contains keys k) ≡ true
IsKnown rows keys k (some p) = p.key ≡ k

has_key_lem :
    (faults : ℕ → Bool) (k : Text) (c : Conn)
    → After
        (λ b d. (b ≡ has_row k c.db.copied) × (d.db.copied ≡ c.db.copied))
        (λ d. d.db.copied ≡ c.db.copied)
        (has_key faults k c)
unfolding has_key
has_key_lem faults k c = elim (Bool-cases (faults c.calls)) [
  | inl e ↦ rw e refl
  | inr e ↦ rw e (refl, refl)
]

module _ (E : Env) (o : Options) (rows : List KeyRecord) where
  abbrev P : World E → Type 0
  P w = SameCopied rows w.conn

  keeps_member : (f k : Text) → Keeps P (on_store (member_has E.faults f k))
  keeps_member f k = record { at = λ w h. (Keeps-member_has E.faults rows f k).at w.conn h }

  dest_folder_for-P : (k : Text) → Keeps P (dest_folder_for E o k)
  dest_folder_for-P k = dest_folder_for-Keeps E o P keeps_member k

  classified :
      (keys : List Text) (m : MsgMeta)
      → Triple P
          (classify_one E o keys m)
          (λ c w. P w × (IsNew rows keys c × IsKnown rows keys (dedup_key E.hex_sha256 m) c))
          P
  unfolding classify_one
  classified keys m =
      let key = dedup_key E.hex_sha256 m in
      Triple-bind check_ctx _
        (Triple-Keeps check_ctx (record { at = λ w h. h }) (λ w h. h) (λ u w h. h))
        λ u. Triple-bind (on_store (has_key E.faults key)) _ (looked key) λ seen. record {
          run = λ w h.
              (Triple-if {P = P} (seen || contains keys key) (skip_one >> pure none)
                  (do
                    dest_folder ← dest_folder_for E o key
                    pure (some (record { uid = m.uid; key = key; dest_folder = dest_folder })))
                  (λ b.
                    Triple-bind {R = λ u. P} skip_one _ (record { run = λ v i. i })
                      (λ v. Triple-pure none (λ v i. (i, (tt, skipped seen _ _ h.1 b)))))
                  (λ b.
                    Triple-bind (dest_folder_for E o key) _
                      (Triple-Keeps (dest_folder_for E o key) (dest_folder_for-P key) (λ v i. i)
                        (λ f v i. i))
                      (λ f.
                        Triple-pure (some (record { uid = m.uid; key = key; dest_folder = f }))
                          (λ v i. (i, (fresh seen _ _ h.1 b, refl)))))).run
                w h.0;
        }
    where
      weaken :
          (key : Text) (w : World E)
          → P w
          → (x : Result Bool × Conn)
          → After
              (λ b d. (b ≡ has_row key w.conn.db.copied) × (d.db.copied ≡ w.conn.db.copied))
              (λ d. d.db.copied ≡ w.conn.db.copied)
              x
          → After (λ b v. P v × (b ≡ has_row key rows)) P (x.0, record w { conn = x.1 })
      weaken key w h (ok b, d) y = (y.1 ∙ h, y.0 ∙ ap (has_row key) h)
      weaken key w h (err e, d) y = y ∙ h

      looked :
          (key : Text)
          → Triple P (on_store (has_key E.faults key)) (λ b w. P w × (b ≡ has_row key rows)) P
      looked key = record {
        run = λ w h. weaken key w h (has_key E.faults key w.conn) (has_key_lem E.faults key w.conn);
      }

      skipped : (seen a b : Bool) → seen ≡ a → (seen || b) ≡ true → (a || b) ≡ true
      skipped seen a b e t = ground arith

      fresh : (seen a b : Bool) → seen ≡ a → (seen || b) ≡ false → (a ≡ false) × (b ≡ false)
      fresh seen a b e t = ground arith

  IsFresh-prepend :
      (keys : List Text) (c : Option PendingCopy) (pend : List PendingCopy)
      → IsNew rows keys c
      → IsFresh rows (keys_with c keys) pend
      → IsFresh rows keys (prepend c pend)
  IsFresh-prepend keys none pend n f = f
  IsFresh-prepend keys (some p) pend n f = (n.0, (n.1, f))

  -- what the later candidates cover, the whole list covers
  IsCovered-prepend :
      (keys : List Text) (c : Option PendingCopy) (pend : List PendingCopy) (k : Text)
      → IsCovered rows (keys_with c keys) pend k
      → IsCovered rows keys (prepend c pend) k
  IsCovered-prepend keys none pend k h = h
  IsCovered-prepend keys (some p) pend k h = ground arith

  IsCovered-known :
      (keys : List Text) (c : Option PendingCopy) (pend : List PendingCopy) (k : Text)
      → IsKnown rows keys k c
      → IsCovered rows keys (prepend c pend) k
  IsCovered-known keys none pend k h = ground arith
  IsCovered-known keys (some p) pend k h = ground (arith, eq_iff p.key k)

  abbrev Chosen : List Text → List MsgMeta → List PendingCopy → Type 0
  Chosen keys ms pend =
      IsFresh rows keys pend × All (λ m. IsCovered rows keys pend (dedup_key E.hex_sha256 m)) ms

  Chosen-classify :
      (keys : List Text) (ms : List MsgMeta)
      → Triple P (classify E o keys ms) (λ pend w. P w × Chosen keys ms pend) P
  unfolding classify
  Chosen-classify keys [] = Triple-pure [] (λ w h. (h, (tt, tt)))
  Chosen-classify keys (m ∷ ms) = Triple-bind _ _ (classified keys m) λ c. record {
    run = λ w h.
        (Triple-bind _ _ (Chosen-classify (keys_with c keys) ms) (λ pend.
            Triple-pure (prepend c pend) (λ v i. (
              i.0,
              (
                IsFresh-prepend keys c pend h.1.0 i.1.0,
                (
                  IsCovered-known keys c pend _ h.1.1,
                  All-map ms (λ x. IsCovered-prepend keys c pend _) i.1.1,
                ),
              ),
            )))).run
          w h.0;
  }

-- Classifying the messages of a window leaves the record as it is, and what it returns is to be
-- copied: no two candidates have the same key, none is recorded, and the key of each message that
-- is not recorded is that of a candidate.
pub classify-IsFresh :
    (E : Env) (o : Options) (ms : List MsgMeta) (w : World E)
    → After
        (λ pend v.
          (v.conn.db.copied ≡ w.conn.db.copied)
          × (IsFresh w.conn.db.copied [] pend
              × All (λ m. IsCovered w.conn.db.copied [] pend (dedup_key E.hex_sha256 m)) ms))
        (λ v. v.conn.db.copied ≡ w.conn.db.copied)
        (classify E o [] ms w)
classify-IsFresh E o ms w = (Chosen-classify E o w.conn.db.copied [] ms).run w refl
